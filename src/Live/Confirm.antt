-- ===== src/Live/Confirm.antt =====
-- What a confirmation does, by the broker's answer (signal_live/service.py, `confirm`).
use signal_lab.Common.{ℕ, ◌≡◌, refl, sym, ap, ◌∙◌, true, some, take, Result, ok, err}
use signal_lab.Common.Text.{Text, codes, or_default}
use signal_lab.Live.Models.{LiveIntent}
use signal_lab.Live.Models
use signal_lab.Live.Repo.{get_intent, flush, mark_failed, mark_submitted}
use signal_lab.Live.Broker.{BrokerPort, BrokerStatus, BrokerSubmitResult}
use signal_lab.Live.Broker
use signal_lab.Live.Service.{
  Session, Error, broker_failed, is_pending, settle, submit, check_pending, confirm,
}
use signal_lab.Live.Table.{id-get_intent, get_intent-flush_self}
use signal_lab.Live.Writes.{settled, id-settled, broker-settle, order_of}
use signal_lab.Live.Final.{confirmed_row, intents-submit}

module _ {F : Type 0} where
  -- The reply and the row `j` that an answer asks for, `i` being the row before.
  abbrev pub Outcome :
      ℕ
      → Result Text BrokerSubmitResult
      → LiveIntent F
      → Result Error (LiveIntent F)
      → LiveIntent F
      → Type 0
  Outcome now (err message) i reply j =
      (reply ≡ err (broker_failed message))
      × (j ≡ record i { status = Models.failed; error = take 2000 message; decided_at = some now })
  Outcome now (ok answer) i reply j = (reply ≡ ok j) × (elim answer.status [
    | Broker.submitted ↦ j ≡ record i {
      status = Models.submitted;
      broker_order_id = some answer.broker_order_id;
      decided_at = some now;
      submitted_at = some now;
    }
    | Broker.rejected ↦
        (j.status ≡ Models.failed)
        × (j.error ≡ take 2000 (or_default answer.message (codes "broker rejected")))
        × (j.broker_order_id ≡ i.broker_order_id)
  ])

module _ {F B : Type 0} where
  accepted-Outcome :
      (now : ℕ) (i : LiveIntent F) (s : Session F B) (status : BrokerStatus)
      (a : BrokerSubmitResult)
      → let r : Result Text BrokerSubmitResult = ok (record a { status = status }) in
        Outcome now r i (settle now i s r).0 (settled now i r)
  unfolding settle settled mark_failed mark_submitted
  accepted-Outcome now i s Broker.submitted a = (refl, refl)
  accepted-Outcome now i s Broker.rejected a = (refl, (refl, refl, refl))

  settle-Outcome :
      (now : ℕ) (i : LiveIntent F) (s : Session F B) (r : Result Text BrokerSubmitResult)
      → Outcome now r i (settle now i s r).0 (settled now i r)
  unfolding settle settled mark_failed mark_submitted
  settle-Outcome now i s (err m) = (refl, refl)
  settle-Outcome now i s (ok a) = accepted-Outcome now i s a.status a

  -- Confirming a pending intent asks the broker exactly once, with the intent's own order. An
  -- exception is passed on after the row has become failed with the message; a rejection makes
  -- the row failed and returns it; an acceptance makes it submitted with the broker's number.
  pub confirm-Outcome :
      (port : BrokerPort F B) (now id : ℕ) (s : Session F B) (i : LiveIntent F)
      → get_intent id s.intents ≡ some i
      → is_pending i.status ≡ true
      → (j : LiveIntent F) × (get_intent id (confirm port now id s).1.intents ≡ some j)
        × ((confirm port now id s).1.broker ≡ (port.submit_order (order_of i) s.broker).1)
        × Outcome now (port.submit_order (order_of i) s.broker).0 i (confirm port now id s).0 j
  unfolding confirm check_pending
  confirm-Outcome port now id s i found pending =
      let answer = (port.submit_order (order_of i) s.broker).0 in
      let s' = record s { broker = (port.submit_order (order_of i) s.broker).1 } in
      let j = confirmed_row port now s i in
      let same : j.id ≡ id = id-settled now i answer ∙ id-get_intent id i s.intents found in
      let at_id : get_intent j.id s.intents ≡ some i =
        ap (λ k. get_intent k s.intents) same ∙ found in
      let written : get_intent id (confirm port now id s).1.intents ≡ some j =
        rw (found, pending, intents-submit port now s i)
          (sym (ap (λ k. get_intent k (flush j s.intents)) same)
            ∙ get_intent-flush_self j i s.intents at_id) in
      (
        j,
        written,
        rw (found, pending) (unfold submit in broker-settle now i s' answer),
        rw (found, pending) (unfold submit in settle-Outcome now i s' answer),
      )
