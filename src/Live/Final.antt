-- ===== src/Live/Final.antt =====
-- The life of an intent (signal_live/service.py): which rows a request may change.
use signal_lab.Common.{
  ℕ, ◌≡◌, refl, true, false, inl, inr, some, Bool-cases, List, [], ◌∷◌, ◌++◌, ◌||◌,
}
use signal_lab.Common.Int.{pos, leb_ℤ}
use signal_lab.Common.Text.{codes, text_eq}
use signal_lab.Live.Models.{LiveIntent}
use signal_lab.Live.Repo.{Draft, new_intent, get_intent, flush, mark_rejected, mark_cancelled}
use signal_lab.Live.Broker.{BrokerPort}
use signal_lab.Live.Service.{
  Session, is_pending, clean_side, submit, create_intent, confirm, reject, cancel, Request, create,
  confirm_intent, reject_intent, cancel_intent, handle, serve,
}
use signal_lab.Live.Table.{get_intent-append}
use signal_lab.Live.Writes.{settled, id-settled, intents-settle, order_of, check_pending_final}

module _ {F B : Type 0} (port : BrokerPort F B) where
  -- The row that `confirm` writes for an intent.
  abbrev pub confirmed_row : ℕ → Session F B → LiveIntent F → LiveIntent F
  confirmed_row now s i = settled now i (port.submit_order (order_of i) s.broker).0

  pub intents-submit :
      (now : ℕ) (s : Session F B) (i : LiveIntent F)
      → (submit port now i s).1.intents ≡ flush (confirmed_row now s i) s.intents
  unfolding submit
  intents-submit now s i =
      let (answer, b) = port.submit_order (order_of i) s.broker in
      intents-settle now i (record s { broker = b }) answer

  -- The row that `create_intent` adds.
  abbrev pub created : ℕ → ℕ → Draft F → LiveIntent F
  created id now d = new_intent id now port.name (record d { side = clean_side d.side })

  -- `create_intent` leaves the session alone or adds one row.
  pub create_intent-cases :
      (id now : ℕ) (d : Draft F) (s : Session F B) (P : Session F B → Type 0)
      → P s
      → (text_eq (clean_side d.side) (codes "buy") || text_eq (clean_side d.side) (codes "sell")
            ≡ true
          → leb_ℤ d.quantity (pos 0) ≡ false
          → P (record s { intents = s.intents ++ created id now d ∷ [] }))
      → P (create_intent port id now d s).1
  unfolding create_intent
  create_intent-cases id now d s P kept added =
      elim (Bool-cases
        (text_eq (clean_side d.side) (codes "buy") || text_eq (clean_side d.side) (codes "sell"))) [
          | inr bad ↦ rw bad kept
          | inl good ↦ rw good (elim (Bool-cases (leb_ℤ d.quantity (pos 0))) [
            | inl empty ↦ rw empty kept
            | inr some_shares ↦ rw some_shares (added good some_shares)
          ])
        ]

  create_intent_final :
      (id now : ℕ) (d : Draft F) (s : Session F B) (k : ℕ) (i : LiveIntent F)
      → get_intent k s.intents ≡ some i
      → get_intent k (create_intent port id now d s).1.intents ≡ some i
  create_intent_final id now d s k i h =
      create_intent-cases id now d s (λ t. get_intent k t.intents ≡ some i) h
        (λ _ _. get_intent-append k i s.intents (created id now d ∷ []) h)

  pub handle_final :
      (r : Request F) (s : Session F B) (k : ℕ) (i : LiveIntent F)
      → get_intent k s.intents ≡ some i
      → is_pending i.status ≡ false
      → get_intent k (handle port r s).1.intents ≡ some i
  unfolding handle
  handle_final (create id now d) s k i h done = create_intent_final id now d s k i h
  handle_final (confirm_intent now id) s k i h done =
      unfold confirm in
      check_pending_final s (submit port now) (confirmed_row now s) (intents-submit now s)
        (λ j. id-settled now j (port.submit_order (order_of j) s.broker).0) id k i
        (get_intent id s.intents) refl h done
  handle_final (reject_intent now id reason) s k i h done =
      unfold reject in
      check_pending_final s _ (λ j. mark_rejected now j reason) (λ j. refl) (λ j. refl) id k i
        (get_intent id s.intents) refl h done
  handle_final (cancel_intent now id reason) s k i h done =
      unfold cancel in
      check_pending_final s _ (λ j. mark_cancelled now j reason) (λ j. refl) (λ j. refl) id k i
        (get_intent id s.intents) refl h done

  -- Whatever requests follow, the row of an intent that is no longer pending never changes again:
  -- it cannot be confirmed, rejected or cancelled a second time, and none of its columns moves.
  pub decided_is_final :
      (rs : List (Request F)) (s : Session F B) (k : ℕ) (i : LiveIntent F)
      → get_intent k s.intents ≡ some i
      → is_pending i.status ≡ false
      → get_intent k (serve port rs s).intents ≡ some i
  unfolding serve
  decided_is_final [] s k i h done = h
  decided_is_final (r ∷ rs) s k i h done =
      decided_is_final rs (handle port r s).1 k i (handle_final r s k i h done) done
