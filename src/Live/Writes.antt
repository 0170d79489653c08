-- ===== src/Live/Writes.antt =====
-- What `confirm`, `reject` and `cancel` have in common: each writes one row, that of an intent
-- which is pending. A property of the table that such a write keeps is kept by all three.
use signal_lab.Common.{
  ℕ, ◌≡◌, ◌≢◌, refl, ◌∙◌, true, false, inl, inr, Option, none, some, Bool-cases, arith, All, Result,
  ok, err, Exec,
}
use signal_lab.Common.Text.{Text, codes, or_default}
use signal_lab.Live.Models.{LiveIntent}
use signal_lab.Live.Repo.{get_intent, flush, mark_failed, mark_submitted}
use signal_lab.Live.Broker.{BrokerSubmitResult, BrokerOrder, BrokerPort}
use signal_lab.Live.Broker
use signal_lab.Live.Service.{Session, Error, is_pending, settle, check_pending}
use signal_lab.Live.Table.{id-get_intent, get_intent-flush_ne, All-flush, All-get_intent}

module _ {F : Type 0} where
  -- The row that `confirm` writes on the broker's answer.
  unfoldable pub settled : ℕ → LiveIntent F → Result Text BrokerSubmitResult → LiveIntent F
  settled now i (err message) = mark_failed now i message
  settled now i (ok answer) = elim answer.status [
    | Broker.rejected ↦ mark_failed now i (or_default answer.message (codes "broker rejected"))
    | Broker.submitted ↦ mark_submitted now i answer.broker_order_id
  ]

  pub id-settled :
      (now : ℕ) (i : LiveIntent F) (r : Result Text BrokerSubmitResult)
      → (settled now i r).id ≡ i.id
  unfolding settled mark_failed mark_submitted
  id-settled now i (err m) = refl
  id-settled now i (ok a) = ground arith

  -- The order that `confirm` sends for an intent.
  abbrev pub order_of : LiveIntent F → BrokerOrder F
  order_of i = record {
    symbol = i.symbol;
    side = i.side;
    quantity = i.quantity;
    limit_price = i.limit_price;
  }

module _ {F B : Type 0} where
  pub intents-settle :
      (now : ℕ) (i : LiveIntent F) (s : Session F B) (r : Result Text BrokerSubmitResult)
      → (settle now i s r).1.intents ≡ flush (settled now i r) s.intents
  unfolding settle settled
  intents-settle now i s (err m) = refl
  intents-settle now i s (ok a) = ground arith

  pub broker-settle :
      (now : ℕ) (i : LiveIntent F) (s : Session F B) (r : Result Text BrokerSubmitResult)
      → (settle now i s r).1.broker ≡ s.broker
  unfolding settle
  broker-settle now i s (err m) = refl
  broker-settle now i s (ok a) = ground arith

  module _ (s : Session F B) (act : LiveIntent F → Exec (Session F B) Error (LiveIntent F))
      (w : LiveIntent F → LiveIntent F)
      (writes : (i : LiveIntent F) → (act i s).1.intents ≡ flush (w i) s.intents)
      (same : (i : LiveIntent F) → (w i).id ≡ i.id) where
    pub check_pending_final :
        (id k : ℕ) (i : LiveIntent F) (o : Option (LiveIntent F))
        → get_intent id s.intents ≡ o
        → get_intent k s.intents ≡ some i
        → is_pending i.status ≡ false
        → get_intent k (check_pending id act o s).1.intents ≡ some i
    unfolding check_pending
    check_pending_final id k i none found h done = h
    check_pending_final id k i (some j) found h done = elim (Bool-cases (is_pending j.status)) [
      | inr closed ↦ rw closed h
      | inl pending ↦
          let other : (w j).id ≢ k = λ e.
            let p : id ≡ k = omega (arith, same j, id-get_intent id j s.intents found) in
            let q : j ≡ i = cc in cc in
          rw (pending, writes) (get_intent-flush_ne k (w j) s.intents other ∙ h)
    ]

    pub check_pending-All :
        (P : LiveIntent F → Type 0)
        → ((i : LiveIntent F) → P i → is_pending i.status ≡ true → P (w i))
        → (id : ℕ) (o : Option (LiveIntent F)) → get_intent id s.intents ≡ o
        → All P s.intents
        → All P (check_pending id act o s).1.intents
    unfolding check_pending
    check_pending-All P keeps id none found h = h
    check_pending-All P keeps id (some j) found h = elim (Bool-cases (is_pending j.status)) [
      | inr closed ↦ rw closed h
      | inl pending ↦
          rw (pending, writes)
            (All-flush P (w j) s.intents h
              (keeps j (All-get_intent P id j s.intents h found) pending))
    ]
