-- ===== src/Live/Handed.antt =====
-- Which intents a run hands to the broker (signal_live/service.py).
use signal_lab.Common.{
  ℕ, ◌≡◌, refl, sym, ap, ◌∙◌, ◌⊎◌, inl, inr, true, false, Option, none, some, Bool-cases, List, [],
  ◌∷◌, arith, All, All-map, Distinct, Result, ok, err,
}
use signal_lab.Live.Models.{
  LiveIntent, Status, pending_confirm, confirmed, rejected, cancelled, submitted, failed,
}
use signal_lab.Common.Text.{Text}
use signal_lab.Live.Repo.{
  get_intent, flush, mark_rejected, mark_cancelled, mark_failed, mark_submitted,
}
use signal_lab.Live.Broker.{BrokerPort, BrokerStatus, BrokerSubmitResult}
use signal_lab.Live.Broker
use signal_lab.Live.Service.{
  Session, is_pending, submit, check_pending, confirm, reject, cancel, Request, create,
  confirm_intent, reject_intent, cancel_intent, handle, serve,
}
use signal_lab.Live.Table.{get_intent-flush_self, get_intent-own}
use signal_lab.Live.Writes.{settled, id-settled, broker-settle, order_of}
use signal_lab.Live.Final.{
  confirmed_row, create_intent-cases, intents-submit, handle_final, decided_is_final,
}
use signal_lab.Live.Once.{reached}

abbrev pub intent_id : {F : Type 0} → LiveIntent F → ℕ
intent_id i = i.id

some_inj : {A : Type 0} {x y : A} → some x ≡ some y → x ≡ y
some_inj e = cc

pending_lem : (st : Status) → is_pending st ≡ true → st ≡ pending_confirm
pending_lem pending_confirm h = refl
pending_lem confirmed h = absurd (ground (arith, h))
pending_lem rejected h = absurd (ground (arith, h))
pending_lem cancelled h = absurd (ground (arith, h))
pending_lem submitted h = absurd (ground (arith, h))
pending_lem failed h = absurd (ground (arith, h))

module _ {F B : Type 0} (port : BrokerPort F B) where
  -- The broker after the orders of some intents, one call for each.
  abbrev pub hand_over : List (LiveIntent F) → B → B
  hand_over [] b = b
  hand_over (i ∷ is) b = hand_over is (port.submit_order (order_of i) b).1

  -- The intent was there with its order and pending, if it was there at `s`; at `t` it is submitted
  -- or failed, with the order that was handed over.
  abbrev pub Handed : Session F B → Session F B → LiveIntent F → Type 0
  Handed s t i =
      ((j : LiveIntent F) → get_intent i.id s.intents ≡ some j → j.status ≡ pending_confirm)
      × ((w : LiveIntent F) × (get_intent i.id t.intents ≡ some w)
          × (reached w ≡ 1)
          × (order_of w ≡ order_of i))

  -- What one request does to the broker.
  abbrev Asked : Session F B → Session F B → Type 0
  Asked s t =
      (t.broker ≡ s.broker)
      ⊎ ((i : LiveIntent F) × (w : LiveIntent F) × (get_intent i.id s.intents ≡ some i)
          × (is_pending i.status ≡ true)
          × (t.broker ≡ (port.submit_order (order_of i) s.broker).1)
          × (get_intent i.id t.intents ≡ some w)
          × (is_pending w.status ≡ false)
          × (reached w ≡ 1)
          × (order_of w ≡ order_of i))

  settled_lem :
      (now : ℕ) (i : LiveIntent F) (r : Result Text BrokerSubmitResult)
      → let w = settled now i r in
        (is_pending w.status ≡ false) × (reached w ≡ 1) × (order_of w ≡ order_of i)
  unfolding settled mark_failed mark_submitted
  settled_lem now i (err m) = (refl, refl, refl)
  settled_lem now i (ok a) = accepted a.status
    where
      accepted :
          (status : BrokerStatus)
          → let w = settled now i (ok (record a { status = status })) in
            (is_pending w.status ≡ false) × (reached w ≡ 1) × (order_of w ≡ order_of i)
      accepted Broker.submitted = (refl, refl, refl)
      accepted Broker.rejected = (refl, refl, refl)

  submit-Asked :
      (now : ℕ) (i : LiveIntent F) (s : Session F B)
      → get_intent i.id s.intents ≡ some i
      → is_pending i.status ≡ true
      → Asked s (submit port now i s).1
  submit-Asked now i s found pending =
      let answer = (port.submit_order (order_of i) s.broker).0 in
      let s' = record s { broker = (port.submit_order (order_of i) s.broker).1 } in
      let w = confirmed_row port now s i in
      let same : w.id ≡ i.id = id-settled now i answer in
      let (closed, handed, order) = settled_lem now i answer in
      inr (
        i,
        w,
        found,
        pending,
        unfold submit in broker-settle now i s' answer,
        rw (intents-submit port now s i) (
            sym (ap (λ k. get_intent k (flush w s.intents)) same)
            ∙ get_intent-flush_self w i s.intents (ap (λ k. get_intent k s.intents) same ∙ found)),
        closed,
        handed,
        order,
      )

  confirm-Asked :
      (now id : ℕ) (s : Session F B) (o : Option (LiveIntent F))
      → get_intent id s.intents ≡ o
      → Asked s (check_pending id (submit port now) o s).1
  unfolding check_pending
  confirm-Asked now id s none found = inl refl
  confirm-Asked now id s (some j) found = elim (Bool-cases (is_pending j.status)) [
    | inr closed ↦ rw closed (inl refl)
    | inl pending ↦ rw pending (submit-Asked now j s (get_intent-own id j s.intents found) pending)
  ]

  close-quiet :
      (id : ℕ) (w : LiveIntent F → LiveIntent F) (s : Session F B) (o : Option (LiveIntent F))
      → (check_pending id
          (λ i s. (ok (w i), record s { intents = flush (w i) s.intents }))
          o
          s).1.broker
        ≡ s.broker
  unfolding check_pending
  close-quiet id w s none = refl
  close-quiet id w s (some j) = ground arith

  handle-Asked : (r : Request F) (s : Session F B) → Asked s (handle port r s).1
  unfolding handle
  handle-Asked (create id now d) s =
      inl (create_intent-cases port id now d s (λ t. t.broker ≡ s.broker) refl (λ _ _. refl))
  handle-Asked (confirm_intent now id) s =
      unfold confirm in confirm-Asked now id s (get_intent id s.intents) refl
  handle-Asked (reject_intent now id reason) s = inl (
      unfold reject in close-quiet id (λ i. mark_rejected now i reason) s (get_intent id s.intents))
  handle-Asked (cancel_intent now id reason) s = inl (
      unfold cancel in
      close-quiet id (λ i. mark_cancelled now i reason) s (get_intent id s.intents))

  -- What was handed over after a request was handed over from before it too.
  Handed-earlier :
      (r : Request F) (s t : Session F B) (i : LiveIntent F)
      → Handed (handle port r s).1 t i
      → Handed s t i
  Handed-earlier r s t i h = (
    λ j found. elim (Bool-cases (is_pending j.status)) [
      | inl pending ↦ pending_lem j.status pending
      | inr closed ↦ h.0 j (handle_final port r s i.id j found closed)
    ],
    h.1,
  )

  -- Whatever is asked for, the calls of the broker in a run are those of a list of intents, one call
  -- with the order of each: no intent is in it twice, none that was there and not pending at the
  -- start, and each ends submitted or failed. So an intent is never sent again, and one that is
  -- rejected or cancelled, or ends pending, is not sent at all.
  pub serve_hands_once :
      (rs : List (Request F)) (s : Session F B)
      → (sent : List (LiveIntent F)) × ((serve port rs s).broker ≡ hand_over sent s.broker)
        × Distinct intent_id sent
        × All (Handed s (serve port rs s)) sent
  unfolding serve
  serve_hands_once [] s = ([], refl, tt, tt)
  serve_hands_once (r ∷ rs) s =
      let s' = (handle port r s).1 in
      let t = serve port rs s' in
      let (sent, calls, distinct, handed) = serve_hands_once rs s' in
      let earlier = All-map sent (Handed-earlier r s t) handed in
      elim (handle-Asked r s) [
        | inl quiet ↦ (sent, calls ∙ ap (hand_over sent) quiet, distinct, earlier)
        | inr (i, w, found, pending, asked, row, closed, is_reached, order) ↦ (
          i ∷ sent,
          calls ∙ ap (hand_over sent) asked,
          (
            All-map sent
                (λ k h same. absurd (
                  ground (
                    arith,
                    closed,
                    ap is_pending (h.0 w (ap (λ m. get_intent m s'.intents) (sym same) ∙ row)),
                  )))
                handed,
            distinct,
          ),
          (
            (
              λ j e.
                  ap (λ k. k.status) (sym (some_inj (sym found ∙ e)))
                  ∙ pending_lem i.status pending,
              (w, decided_is_final port rs s' i.id w row closed, is_reached, order),
            ),
            earlier,
          ),
        )
      ]
