-- ===== src/Live/Miniqmt.antt =====
-- packages/live/src/signal_live/broker.py, `MiniqmtBroker`: a broker over the package xtquant, which
-- is not part of the repository and enters as the record `Xtquant`. Its connection is cached.
-- The lock is held for the whole of `_ensure_connected`, so a call of it is one step.
pub mod Connection
use signal_lab.Common.{
  ℕ, ◌==◌, ◌%◌, Bool, true, false, not, ◌&&◌, ◌||◌, Option, none, some, [], ◌∷◌, ◌++◌,
  if◌then◌else◌, length, is_some,
}
use signal_lab.Common.{Result, ok, err, Exec, raise, pure, ◌>>=◌, ◌>>◌}
use signal_lab.Common.Int.{ℤ, pos, negsuc, leb_ℤ, ltb_ℤ, eqb_ℤ, mod_ℤ}
use signal_lab.Common.Text.{
  Text, codes, text_eq, strip, upper, lower, starts_with, has_char, all_digits, show_ℤ,
}
use signal_lab.Live.Broker.{BrokerOrder, BrokerSubmitResult, BrokerPort}
use signal_lab.Live.Broker

pub data MiniqmtError : Type 0 where
  not_installed no_account no_path : MiniqmtError
  bad_lot : ℤ → MiniqmtError
  missing_path : Text → MiniqmtError
  connect_failed : ℤ → MiniqmtError
  -- what a call of xtquant, or of `int` on the session's variable, raised
  raised : Text → MiniqmtError
  order_failed : Text → MiniqmtError

-- What the code calls of xtquant and of the machine: `E` is the world outside, `H` a trader and
-- `A` an account of xtquant.
pub record Xtquant (F E H A : Type 0) : Type 0 where
  -- `import xtquant`
  pub importable : E → Bool
  -- `os.path.isdir`
  pub is_dir : Text → E → Bool
  -- LIVE_MINIQMT_SESSION_ID, if set and not empty, through `int`
  pub session_variable : E → Result Text (Option ℤ)
  -- `int(time.time())`
  pub seconds : E → ℤ
  -- `XtQuantTrader(path, session)`, `start()` and `connect()`
  pub connect : Text → ℤ → E → Result Text (H × ℤ) × E
  -- `StockAccount(account, type)`; `none` is a TypeError
  pub typed_account : Text → Text → Option A
  pub plain_account : Text → A
  -- `subscribe`, whose answer is only logged
  pub subscribe : H → A → E → E
  -- `order_stock`, told whether to buy, and at which limit, if any
  pub order_stock : H → A → Text → Bool → ℤ → Option F → E → Result Text (Option ℤ) × E

pub record Miniqmt (E H A : Type 0) : Type 0 where
  pub account : Text
  pub path : Text
  pub session_id : Option ℤ
  pub account_type : Text
  pub trader : Option H
  pub acc : Option A
  pub world : E

-- `_to_qmt_code`
unfoldable pub to_qmt_code : Text → Text
to_qmt_code symbol =
    let s = upper (strip symbol) in
    if has_char b'.' s
    then s
    else if length s == 6 && all_digits s
    then (if starts_with s (codes "5") || (starts_with s (codes "6") || starts_with s (codes "9"))
        then s ++ codes ".SH"
        else s ++ codes ".SZ")
    else s

abbrev pub is_empty : Text → Bool
is_empty [] = true
is_empty (c ∷ s) = false

abbrev pub is_bad_lot : ℤ → Bool
is_bad_lot q = leb_ℤ q (pos 0) || not (mod_ℤ q 100 == 0)

module _ {F E H A : Type 0} (xt : Xtquant F E H A) where
  -- The session's number: the setting, the variable, or the time.
  unfoldable pub choose_session : Miniqmt E H A → Result MiniqmtError ℤ
  choose_session m = elim m.session_id [
    | some n ↦ ok n
    | none ↦ elim (xt.session_variable m.world) [
      | err e ↦ err (raised e)
      | ok (some n) ↦ ok n
      | ok none ↦ ok (pos (mod_ℤ (xt.seconds m.world) 1000000000))
    ]
  ]

  -- The part of `_ensure_connected` after `connect()`.
  unfoldable pub open_account : H → Exec (Miniqmt E H A) MiniqmtError (H × A)
  open_account h m =
      let a : A = elim (xt.typed_account m.account m.account_type) [
        | some typed ↦ typed
        | none ↦ xt.plain_account m.account
      ] in
      (ok (h, a), record m { trader = some h; acc = some a; world = xt.subscribe h a m.world })

  unfoldable pub open_trader : ℤ → Exec (Miniqmt E H A) MiniqmtError (H × A)
  unfolding open_account
  open_trader session m =
      let (answer, w) = xt.connect m.path session m.world in
      let m' = record m { world = w } in
      elim answer [
        | err e ↦ (err (raised e), m')
        | ok (h, code) ↦
            if eqb_ℤ code (pos 0) then open_account h m' else (err (connect_failed code), m')
      ]

  -- The checks and the connection of `_ensure_connected`, where nothing is cached.
  unfoldable pub reconnect : Exec (Miniqmt E H A) MiniqmtError (H × A)
  unfolding choose_session open_trader
  reconnect m =
      if not (xt.importable m.world)
      then (err not_installed, m)
      else if is_empty m.account
      then (err no_account, m)
      else if is_empty m.path
      then (err no_path, m)
      else if not (xt.is_dir m.path m.world)
      then (err (missing_path m.path), m)
      else elim (choose_session m) [ err e ↦ (err e, m) | ok session ↦ open_trader session m ]

  unfoldable pub cached_or_new : Option H → Option A → Exec (Miniqmt E H A) MiniqmtError (H × A)
  cached_or_new (some h) (some a) m = (ok (h, a), m)
  cached_or_new _ _ m = reconnect m

  unfoldable pub ensure_connected : Exec (Miniqmt E H A) MiniqmtError (H × A)
  unfolding cached_or_new
  ensure_connected m = cached_or_new m.trader m.acc m

  abbrev answer_of : Option ℤ → BrokerSubmitResult
  answer_of none = record {
    broker_order_id = codes "None";
    status = Broker.rejected;
    message = codes "miniqmt rejected: None";
  }
  answer_of (some (negsuc n)) = record {
    broker_order_id = show_ℤ (negsuc n);
    status = Broker.rejected;
    message = codes "miniqmt rejected: " ++ show_ℤ (negsuc n);
  }
  answer_of (some (pos n)) = record {
    broker_order_id = show_ℤ (pos n);
    status = Broker.submitted;
    message = codes "miniqmt ok";
  }

  -- The call of `order_stock`; if it raises, the connection is dropped, to be built anew.
  unfoldable pub place :
      BrokerOrder F → H × A → Exec (Miniqmt E H A) MiniqmtError BrokerSubmitResult
  place o (h, a) m =
      let buy = text_eq (strip (lower o.side)) (codes "buy") in
      let (answer, w) =
        xt.order_stock h a (to_qmt_code o.symbol) buy o.quantity o.limit_price m.world in
      elim answer [
        | ok order_id ↦ (ok (answer_of order_id), record m { world = w })
        | err e ↦ (err (order_failed e), record m { world = w; trader = none; acc = none })
      ]

  unfoldable pub submit_order : BrokerOrder F → Exec (Miniqmt E H A) MiniqmtError BrokerSubmitResult
  unfolding ensure_connected place
  submit_order o m =
      if not (xt.importable m.world)
      then (err not_installed, m)
      else if is_bad_lot o.quantity
      then (err (bad_lot o.quantity), m)
      else (ensure_connected >>= place o) m

  -- The port that the service holds, with the texts of the exceptions.
  unfoldable pub miniqmt_broker : (MiniqmtError → Text) → BrokerPort F (Miniqmt E H A)
  miniqmt_broker message = record {
    name = codes "miniqmt";
    submit_order = λ o m.
        let (r, m') = submit_order o m in (elim r [ ok a ↦ ok a | err e ↦ err (message e) ], m');
  }
