-- ===== src/Live/Tests.antt =====
-- Runs of the intent queue on small tables, and the theorems at such inputs.
use signal_lab.Common.{
  Distinct, ℕ, ◌+◌, ◌*◌, ◌<◌, ◌==◌, ◌≡◌, refl, true, Option, none, some, List, [], ◌∷◌, arith, All,
  ok, err, if◌then◌else◌,
}
use signal_lab.Common.Int.{pos}
use signal_lab.Common.Text.{codes, text_eq, Text, strip, show_ℤ}
use signal_lab.Live.Models.{LiveIntent, Status, pending_confirm, rejected}
use signal_lab.Live.Repo.{Draft, get_intent, flush}
use signal_lab.Live.Broker.{BrokerPort, BrokerOrder, BrokerSubmitResult, build_broker}
use signal_lab.Live.Broker
use signal_lab.Live.Service.{
  Session, Request, create, confirm_intent, cancel_intent, confirm, serve, handle, create_intent,
  check_pending, when_pending, submit, settle, cancel,
}
use signal_lab.Live.Writes.{order_of}
use signal_lab.Live.Final.{decided_is_final}
use signal_lab.Live.Handed.{hand_over, intent_id, Handed, serve_hands_once}
use signal_lab.Live.Rows.{IsSound, serve-IsSound}
use signal_lab.Live.Confirm.{Outcome, confirm-Outcome}
use signal_lab.Live.Miniqmt.{Xtquant, Miniqmt, reconnect, submit_order, ensure_connected}
use signal_lab.Live.Miniqmt.Connection.{Link, submit_order-Link, submit_order_ok}

-- A broker that counts its calls, accepts the first and raises on the others.
abbrev port : BrokerPort ℕ ℕ
port = record {
  name = codes "stub";
  submit_order = λ o n. (
    if n == 0
        then ok (record { broker_order_id = codes "b-1"; status = Broker.submitted; message = [] })
        else err (codes "down"),
    n + 1,
  );
}

abbrev row : ℕ → Status → Option ℕ → LiveIntent ℕ
row id status decided = record {
  id = id;
  symbol = codes "600519.SH";
  side = codes "buy";
  quantity = pos 100;
  status = status;
  source = codes "manual";
  signal_id = none;
  note = [];
  broker = codes "stub";
  broker_order_id = none;
  limit_price = none;
  error = [];
  created_at = 5;
  decided_at = decided;
  submitted_at = none;
}

abbrev session : Session ℕ ℕ
session = record {
  intents = row 1 pending_confirm none ∷ row 2 rejected (some 6) ∷ row 3 pending_confirm none ∷ [];
  broker = 0;
}

abbrev draft : Draft ℕ
draft = record {
  symbol = codes "000001.SZ";
  side = codes " SELL";
  quantity = pos 200;
  source = codes "api";
  signal_id = none;
  note = [];
  limit_price = some 9;
}

abbrev requests : List (Request ℕ)
requests =
    create 4 10 draft
    ∷ confirm_intent 11 2
    ∷ confirm_intent 12 1
    ∷ confirm_intent 13 1
    ∷ confirm_intent 14 3
    ∷ cancel_intent 15 4 (codes "late")
    ∷ []

-- The first confirmation is accepted, the second refused by its status, the third raises.
run_calls : (serve port requests session).broker ≡ 2
unfolding serve handle confirm create_intent check_pending when_pending submit settle get_intent
    flush cancel text_eq strip
run_calls = refl

decided_is_final_example :
    get_intent 2 (serve port requests session).intents ≡ some (row 2 rejected (some 6))
unfolding get_intent
decided_is_final_example =
    decided_is_final port requests session 2 (row 2 rejected (some 6)) refl refl

serve_hands_once_example :
    (sent : List (LiveIntent ℕ)) × ((serve port requests session).broker
      ≡ hand_over port sent session.broker)
    × Distinct intent_id sent
    × All (Handed port session (serve port requests session)) sent
serve_hands_once_example = serve_hands_once port requests session

session-IsSound : All IsSound session.intents
unfolding text_eq
session-IsSound = (
  record { side = refl; quantity = omega arith; columns = (refl, refl, refl) },
  (
    record { side = refl; quantity = omega arith; columns = (refl, refl, refl) },
    (record { side = refl; quantity = omega arith; columns = (refl, refl, refl) }, tt),
  ),
)

serve-IsSound_example : All IsSound (serve port requests session).intents
serve-IsSound_example = serve-IsSound port requests session session-IsSound

confirm-Outcome_example :
    (j : LiveIntent ℕ) × (get_intent 3 (confirm port 9 3 session).1.intents ≡ some j)
    × ((confirm port 9 3 session).1.broker ≡ 1)
    × Outcome 9
        (port.submit_order (order_of (row 3 pending_confirm none)) 0).0
        (row 3 pending_confirm none)
        (confirm port 9 3 session).0
        j
unfolding get_intent
confirm-Outcome_example = confirm-Outcome port 9 3 session (row 3 pending_confirm none) refl refl

build_broker_example : build_broker (codes " QMT") ≡ some Broker.miniqmt
unfolding build_broker text_eq strip
build_broker_example = refl

-- A machine with a client that takes every order and numbers it by the count of orders so far.
abbrev client : Xtquant ℕ ℕ ℕ Text
client = record {
  importable = λ w. true;
  is_dir = λ path w. true;
  session_variable = λ w. ok none;
  seconds = λ w. pos 1000000007;
  connect = λ path session w. (ok (1, pos 0), w);
  typed_account = λ account kind. some account;
  plain_account = λ account. account;
  subscribe = λ h a w. w;
  order_stock = λ h a code buy quantity limit w. (ok (some (pos w)), w + 1);
}

abbrev fresh : Miniqmt ℕ ℕ Text
fresh = record {
  account = codes "8800";
  path = codes "C:";
  session_id = none;
  account_type = codes "STOCK";
  trader = none;
  acc = none;
  world = 0;
}

abbrev lot : BrokerOrder ℕ
lot = record { symbol = codes "600519"; side = codes "buy"; quantity = pos 300; limit_price = none }

submit_order-Link_example :
    Link client (submit_order client lot fresh).0 fresh (submit_order client lot fresh).1
submit_order-Link_example = submit_order-Link client lot fresh

abbrev accepted : BrokerSubmitResult
accepted = record {
  broker_order_id = codes "0";
  status = Broker.submitted;
  message = codes "miniqmt ok";
}

submit_order_ok_example :
    let m' = (submit_order client lot fresh).1 in
    ((k : ℕ) × (pos 300 ≡ pos (100 * k)) × (0 < k))
    × ((c : ℕ × Text) × (ensure_connected client m' ≡ (ok c, m')))
unfolding submit_order reconnect show_ℤ
submit_order_ok_example = submit_order_ok client lot fresh accepted refl
