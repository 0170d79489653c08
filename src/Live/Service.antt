-- ===== src/Live/Service.antt =====
-- packages/live/src/signal_live/service.py: an intent is created, and then confirmed, rejected or
-- cancelled. The route handlers of apps/api/src/signal_api/routes/live_routes.py catch what a
-- call raises, so a run of the service goes on from the state that the call left.
use signal_lab.Common.{
  ℕ, Bool, true, false, not, ◌||◌, Option, none, some, List, [], ◌∷◌, ◌++◌, if◌then◌else◌,
}
use signal_lab.Common.{Result, ok, err, Exec}
use signal_lab.Common.Int.{pos, leb_ℤ}
use signal_lab.Common.Text.{Text, codes, text_eq, strip, lower, or_default}
use signal_lab.Live.Models.{LiveIntent, Status, pending_confirm}
use signal_lab.Live.Repo.{
  Draft, new_intent, get_intent, flush, mark_rejected, mark_cancelled, mark_submitted, mark_failed,
}
use signal_lab.Live.Broker.{BrokerSubmitResult, BrokerOrder, BrokerPort}
use signal_lab.Live.Broker

pub data Error : Type 0 where
  -- ValueError
  bad_side bad_quantity : Error
  bad_status : Status → Error
  -- KeyError
  unknown_intent : ℕ → Error
  -- what the broker raised
  broker_failed : Text → Error

-- The rows of the table and the state of the broker.
pub record Session (F B : Type 0) : Type 0 where
  pub intents : List (LiveIntent F)
  pub broker : B

abbrev pub is_pending : Status → Bool
is_pending pending_confirm = true
is_pending _ = false

unfoldable pub clean_side : Text → Text
clean_side side = strip (lower side)

module _ {F B : Type 0} where
  -- The session after `flush` of a changed intent.
  abbrev pub save : LiveIntent F → Session F B → Session F B
  save i s = record s { intents = flush i s.intents }

  unfoldable pub create_intent :
      BrokerPort F B → ℕ → ℕ → Draft F → Exec (Session F B) Error (LiveIntent F)
  unfolding clean_side new_intent
  create_intent port id now d s =
      let side = clean_side d.side in
      if not (text_eq side (codes "buy") || text_eq side (codes "sell"))
      then (err bad_side, s)
      else if leb_ℤ d.quantity (pos 0)
      then (err bad_quantity, s)
      else (let i = new_intent id now port.name (record d { side = side }) in
          (ok i, record s { intents = s.intents ++ i ∷ [] }))

  -- What `confirm` does with the answer of the broker.
  unfoldable pub settle :
      ℕ
      → LiveIntent F
      → Session F B
      → Result Text BrokerSubmitResult
      → Result Error (LiveIntent F) × Session F B
  unfolding mark_failed mark_submitted
  settle now i s (err message) = (err (broker_failed message), save (mark_failed now i message) s)
  settle now i s (ok answer) = elim answer.status [
    | Broker.rejected ↦
        let i' = mark_failed now i (or_default answer.message (codes "broker rejected")) in
        (ok i', save i' s)
    | Broker.submitted ↦ let i' = mark_submitted now i answer.broker_order_id in (ok i', save i' s)
  ]

  -- The call of the broker, and then the record of its answer.
  unfoldable pub submit :
      BrokerPort F B → ℕ → LiveIntent F → Exec (Session F B) Error (LiveIntent F)
  unfolding settle
  submit port now i s =
      let order : BrokerOrder F = record {
        symbol = i.symbol;
        side = i.side;
        quantity = i.quantity;
        limit_price = i.limit_price;
      } in
      let (answer, b) = port.submit_order order s.broker in
      settle now i (record s { broker = b }) answer

  -- The guard that `confirm`, `reject` and `cancel` share, on what `repo.get_intent` found.
  unfoldable pub check_pending :
      ℕ
      → (LiveIntent F → Exec (Session F B) Error (LiveIntent F))
      → Option (LiveIntent F)
      → Exec (Session F B) Error (LiveIntent F)
  check_pending id act none s = (err (unknown_intent id), s)
  check_pending id act (some i) s =
      if is_pending i.status then act i s else (err (bad_status i.status), s)

  unfoldable pub when_pending :
      ℕ
      → (LiveIntent F → Exec (Session F B) Error (LiveIntent F))
      → Exec (Session F B) Error (LiveIntent F)
  when_pending id act s = check_pending id act (get_intent id s.intents) s

  unfoldable pub confirm : BrokerPort F B → ℕ → ℕ → Exec (Session F B) Error (LiveIntent F)
  unfolding when_pending submit
  confirm port now id = when_pending id (submit port now)

  unfoldable pub reject : ℕ → ℕ → Text → Exec (Session F B) Error (LiveIntent F)
  unfolding when_pending mark_rejected
  reject now id reason =
      when_pending id
        (λ i s. (ok (mark_rejected now i reason), save (mark_rejected now i reason) s))

  unfoldable pub cancel : ℕ → ℕ → Text → Exec (Session F B) Error (LiveIntent F)
  unfolding when_pending mark_cancelled
  cancel now id reason =
      when_pending id
        (λ i s. (ok (mark_cancelled now i reason), save (mark_cancelled now i reason) s))

-- The methods that change an intent, each with its fresh id or its reading of the clock.
pub data Request (F : Type 0) : Type 0 where
  create : ℕ → ℕ → Draft F → Request F
  confirm_intent : ℕ → ℕ → Request F
  reject_intent cancel_intent : ℕ → ℕ → Text → Request F

module _ {F B : Type 0} (port : BrokerPort F B) where
  unfoldable pub handle : Request F → Exec (Session F B) Error (LiveIntent F)
  handle (create id now d) = create_intent port id now d
  handle (confirm_intent now id) = confirm port now id
  handle (reject_intent now id reason) = reject now id reason
  handle (cancel_intent now id reason) = cancel now id reason

  unfoldable pub serve : List (Request F) → Session F B → Session F B
  serve [] s = s
  serve (r ∷ rs) s = serve rs (handle r s).1
