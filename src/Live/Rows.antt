-- ===== src/Live/Rows.antt =====
-- What the rows of the table look like (signal_live/service.py, repo.py).
use signal_lab.Common.{
  All-append_one, ℕ, ◌≡◌, refl, Bool, true, false, none, is_some, List, [], ◌∷◌, arith, All, Result,
  ok, err, ◌||◌,
}
use signal_lab.Common.Int.{pos, leb_ℤ, ◌≤ℤ◌}
use signal_lab.Common.Text.{Text, codes, text_eq}
use signal_lab.Live.Models.{LiveIntent, Status, pending_confirm, confirmed, submitted}
use signal_lab.Live.Repo.{
  Draft, new_intent, get_intent, mark_rejected, mark_cancelled, mark_failed, mark_submitted,
}
use signal_lab.Live.Broker.{BrokerPort, BrokerSubmitResult}
use signal_lab.Live.Service.{
  Session, is_pending, clean_side, submit, confirm, reject, cancel, Request, create, confirm_intent,
  reject_intent, cancel_intent, handle, serve,
}
use signal_lab.Live.Writes.{settled, id-settled, order_of, check_pending-All}
use signal_lab.Live.Final.{confirmed_row, intents-submit, created, create_intent-cases}

abbrev is_side : Text → Bool
is_side t = text_eq t (codes "buy") || text_eq t (codes "sell")

-- The columns that each status fills in. No row is ever `confirmed`.
abbrev pub Columns : {F : Type 0} → Status → LiveIntent F → Type 0
Columns pending_confirm i =
    (i.decided_at ≡ none) × (i.submitted_at ≡ none) × (i.broker_order_id ≡ none)
Columns confirmed i = ⊥
Columns submitted i =
    (is_some i.decided_at ≡ true)
    × (is_some i.submitted_at ≡ true)
    × (is_some i.broker_order_id ≡ true)
Columns _ i = (is_some i.decided_at ≡ true) × (i.submitted_at ≡ none) × (i.broker_order_id ≡ none)

pub record IsSound {F : Type 0} (i : LiveIntent F) : Type 0 where
  pub side : is_side i.side ≡ true
  pub quantity : pos 1 ≤ℤ i.quantity
  pub columns : Columns i.status i

module _ {F : Type 0} where
  pending-Columns :
      (i : LiveIntent F)
      → Columns i.status i
      → is_pending i.status ≡ true
      → (i.submitted_at ≡ none) × (i.broker_order_id ≡ none)
  pending-Columns i h p = ground arith

  settled-IsSound :
      (now : ℕ) (i : LiveIntent F) (r : Result Text BrokerSubmitResult)
      → IsSound i
      → is_pending i.status ≡ true
      → IsSound (settled now i r)
  unfolding settled mark_failed mark_submitted
  settled-IsSound now i (err m) h pending =
      let (s, b) = pending-Columns i h.columns pending in
      record { side = h.side; quantity = h.quantity; columns = (refl, s, b) }
  settled-IsSound now i (ok a) h pending =
      let (s, b) = pending-Columns i h.columns pending in
      record { side = ground arith; quantity = ground arith; columns = ground arith }

module _ {F B : Type 0} (port : BrokerPort F B) where
  created-IsSound :
      (id now : ℕ) (d : Draft F)
      → is_side (clean_side d.side) ≡ true
      → leb_ℤ d.quantity (pos 0) ≡ false
      → IsSound (created port id now d)
  unfolding new_intent
  created-IsSound id now d good some_shares = record {
    side = good;
    quantity = ground arith;
    columns = (refl, refl, refl);
  }

  handle-IsSound :
      (r : Request F) (s : Session F B)
      → All IsSound s.intents
      → All IsSound (handle port r s).1.intents
  unfolding handle
  handle-IsSound (create id now d) s h =
      create_intent-cases port id now d s (λ t. All IsSound t.intents) h
        (λ good some_shares.
          All-append_one IsSound s.intents (created port id now d) h
            (created-IsSound id now d good some_shares))
  handle-IsSound (confirm_intent now id) s h =
      unfold confirm in
      check_pending-All s (submit port now) (confirmed_row port now s) (intents-submit port now s)
        (λ j. id-settled now j (port.submit_order (order_of j) s.broker).0) IsSound
        (λ j hj p. settled-IsSound now j (port.submit_order (order_of j) s.broker).0 hj p) id
        (get_intent id s.intents) refl h
  handle-IsSound (reject_intent now id reason) s h =
      unfold reject in
      check_pending-All s _ (λ j. mark_rejected now j reason) (λ j. refl) (λ j. refl) IsSound
        (λ j hj p.
          let (s, b) = pending-Columns j hj.columns p in
          record { side = hj.side; quantity = hj.quantity; columns = (refl, s, b) })
        id (get_intent id s.intents) refl h
  handle-IsSound (cancel_intent now id reason) s h =
      unfold cancel in
      check_pending-All s _ (λ j. mark_cancelled now j reason) (λ j. refl) (λ j. refl) IsSound
        (λ j hj p.
          let (s, b) = pending-Columns j hj.columns p in
          record { side = hj.side; quantity = hj.quantity; columns = (refl, s, b) })
        id (get_intent id s.intents) refl h

  -- Whatever the broker answers and in whatever order the requests come, every row keeps a side
  -- that is buy or sell, a quantity of at least one, and the columns of its status: times and a
  -- broker's order number exactly where that status fills them in. No row is ever `confirmed`.
  pub serve-IsSound :
      (rs : List (Request F)) (s : Session F B)
      → All IsSound s.intents
      → All IsSound (serve port rs s).intents
  unfolding serve
  serve-IsSound [] s h = h
  serve-IsSound (r ∷ rs) s h = serve-IsSound rs (handle port r s).1 (handle-IsSound r s h)
