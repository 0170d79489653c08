-- ===== src/Live/Once.antt =====
-- How often the broker is asked (signal_live/service.py).
use signal_lab.Common.{
  ℕ, ◌+◌, ◌≡◌, refl, ◌∙◌, ap, true, inl, inr, Option, none, some, Bool-cases, List, [], ◌∷◌, arith,
  Result, ok, err,
}
use signal_lab.Common.Text.{Text}
use signal_lab.Live.Models.{LiveIntent, submitted, failed}
use signal_lab.Live.Repo.{
  Draft, new_intent, get_intent, flush, mark_rejected, mark_cancelled, mark_failed, mark_submitted,
}
use signal_lab.Live.Broker.{BrokerPort, BrokerSubmitResult, BrokerOrder}
use signal_lab.Live.Service.{
  Session, is_pending, submit, check_pending, create_intent, confirm, reject, cancel, Request,
  create, confirm_intent, reject_intent, cancel_intent, handle, serve,
}
use signal_lab.Live.Table.{total, total-append, total-flush, get_intent-own}
use signal_lab.Live.Writes.{settled, id-settled, broker-settle, order_of}
use signal_lab.Live.Final.{confirmed_row, created, create_intent-cases, intents-submit}

-- 1 for the two states in which an intent has been handed to the broker.
abbrev pub reached : {F : Type 0} → LiveIntent F → ℕ
reached i = elim i.status [ submitted ↦ 1 | failed ↦ 1 | _ ↦ 0 ]

-- The calls of the broker and the intents that have reached it differ by the same amount in both
-- sessions.
abbrev pub Balanced : {F B : Type 0} → (B → ℕ) → Session F B → Session F B → Type 0
Balanced calls s t =
    calls t.broker + total reached s.intents ≡ calls s.broker + total reached t.intents

module _ {F B : Type 0} (port : BrokerPort F B) (calls : B → ℕ)
    (counts : (o : BrokerOrder F) (b : B) → calls (port.submit_order o b).1 ≡ calls b + 1) where
  reached-settled :
      (now : ℕ) (i : LiveIntent F) (r : Result Text BrokerSubmitResult)
      → reached (settled now i r) ≡ 1
  unfolding settled mark_failed mark_submitted
  reached-settled now i (err m) = refl
  reached-settled now i (ok a) = ground arith

  reached-created : (id now : ℕ) (d : Draft F) → reached (created port id now d) ≡ 0
  unfolding new_intent
  reached-created id now d = refl

  reached-pending : (i : LiveIntent F) → is_pending i.status ≡ true → reached i ≡ 0
  reached-pending i h = ground arith

  broker-submit :
      (now : ℕ) (i : LiveIntent F) (s : Session F B)
      → calls (submit port now i s).1.broker ≡ calls s.broker + 1
  unfolding submit
  broker-submit now i s =
      let (answer, b) = port.submit_order (order_of i) s.broker in
      ap calls (broker-settle now i (record s { broker = b }) answer) ∙ counts (order_of i) s.broker

  submit-Balanced :
      (now : ℕ) (i : LiveIntent F) (s : Session F B)
      → get_intent i.id s.intents ≡ some i
      → is_pending i.status ≡ true
      → Balanced calls s (submit port now i s).1
  submit-Balanced now i s found pending =
      let w = confirmed_row port now s i in
      let r = (port.submit_order (order_of i) s.broker).0 in
      let same : w.id ≡ i.id = id-settled now i r in
      let t = total-flush reached w i s.intents (rw same found) in
      rw (intents-submit port now s i) (
        omega (arith, t, broker-submit now i s, reached-settled now i r, reached-pending i pending))

  confirm-Balanced :
      (now id : ℕ) (s : Session F B) (o : Option (LiveIntent F))
      → get_intent id s.intents ≡ o
      → Balanced calls s (check_pending id (submit port now) o s).1
  unfolding check_pending
  confirm-Balanced now id s none found = refl
  confirm-Balanced now id s (some j) found = elim (Bool-cases (is_pending j.status)) [
    | inr closed ↦ rw closed
    | inl pending ↦
        rw pending (submit-Balanced now j s (get_intent-own id j s.intents found) pending)
  ]

  module _ (w : LiveIntent F → LiveIntent F) (same : (i : LiveIntent F) → (w i).id ≡ i.id)
      (none_reached : (i : LiveIntent F) → reached (w i) ≡ 0) where
    close-Balanced :
        (id : ℕ) (s : Session F B) (o : Option (LiveIntent F))
        → get_intent id s.intents ≡ o
        → Balanced calls s
            (check_pending id
              (λ i s. (ok (w i), record s { intents = flush (w i) s.intents }))
              o
              s).1
    unfolding check_pending
    close-Balanced id s none found = refl
    close-Balanced id s (some j) found = elim (Bool-cases (is_pending j.status)) [
      | inr closed ↦ rw closed
      | inl pending ↦
          let at_j = get_intent-own id j s.intents found in
          let t = total-flush reached (w j) j s.intents (rw (same j) at_j) in
          rw pending (omega (arith, t, none_reached j, reached-pending j pending))
    ]

  create-Balanced :
      (id now : ℕ) (d : Draft F) (s : Session F B)
      → Balanced calls s (create_intent port id now d s).1
  create-Balanced id now d s =
      create_intent-cases port id now d s (λ t. Balanced calls s t) refl
        (λ _ _.
          rw (total-append reached s.intents (created port id now d), reached-created id now d)
            (omega arith))

  handle-Balanced : (r : Request F) (s : Session F B) → Balanced calls s (handle port r s).1
  unfolding handle
  handle-Balanced (create id now d) s = create-Balanced id now d s
  handle-Balanced (confirm_intent now id) s =
      unfold confirm in confirm-Balanced now id s (get_intent id s.intents) refl
  handle-Balanced (reject_intent now id reason) s =
      unfold reject in
      close-Balanced (λ i. mark_rejected now i reason) (λ i. refl) (λ i. refl) id s
        (get_intent id s.intents) refl
  handle-Balanced (cancel_intent now id reason) s =
      unfold cancel in
      close-Balanced (λ i. mark_cancelled now i reason) (λ i. refl) (λ i. refl) id s
        (get_intent id s.intents) refl

  -- For a broker that counts its calls: the calls of a run are exactly as many as the intents that
  -- it made submitted or failed.
  pub serve-Balanced :
      (rs : List (Request F)) (s : Session F B) → Balanced calls s (serve port rs s)
  unfolding serve
  serve-Balanced [] s = refl
  serve-Balanced (r ∷ rs) s =
      omega (arith, handle-Balanced r s, serve-Balanced rs (handle port r s).1)
