-- ===== src/Paper/Decided.antt =====
-- Which orders are still pending after `match_pending` (signal_papertrade/service.py).
use signal_lab.Common.{
  ◌≤◌, ℕ, ◌==◌, ◌≡◌, ◌≢◌, ◌⊎◌, refl, sym, ap, ◌∙◌, Bool, true, inl, inr, none, some, Bool-cases,
  ◌&&◌, ◌||◌, List, [], ◌∷◌, leb, arith, All, any, select, insert_by, sort_by,
}
use mathlib.Core.Path.{subst}
use signal_lab.Common.Float.{Floats}
use signal_lab.Paper.Models.{Account, Order, pending, rejected, Db}
use signal_lab.Paper.Repo.{
  get_account, flush_account, get_order, flush_order, pending_orders, is_pending, is_for,
}
use signal_lab.Paper.Ports.{PriceReader}
use signal_lab.Paper.Service.{
  cn_day, reject_order, fill_order, filled_order, match_one, match_all, match_pending, Counts,
  count, no_counts, cash_after,
}
use signal_lab.Paper.Table.{get_order-flush_ne, get_order-flush_self}
use signal_lab.Paper.Rounds.{match_one-cases}
use signal_lab.Paper.Reconcile.{IsOpen}
use signal_lab.Paper.Distinct.{
  DistinctIds, match_one-IsOpen, pending_orders_distinct, pending_orders-IsOpen,
}

module _ {F : Type 0} where
  -- Why an order waits: it is not older than the day, or its account is not there.
  abbrev pub Waits : ℕ → Order F → Db F → Type 0
  Waits date o db =
      (leb date (cn_day o.submitted_at) ≡ true) ⊎ (get_account o.account_id db.accounts ≡ none)

  abbrev has_id : ℕ → List (Order F) → Bool
  has_id k os = any (λ o. o.id == k) os

  -- A pending order waits, or the loop has not come to it yet.
  abbrev Left : ℕ → List (Order F) → Db F → Type 0
  Left date os db =
      (k : ℕ) (o : Order F)
      → get_order k db.orders ≡ some o
      → o.status ≡ pending
      → (has_id k os ≡ true) ⊎ Waits date o db

  has_id-insert_by :
      (key : Order F → ℕ) (k : ℕ) (o : Order F) (os : List (Order F))
      → has_id k (insert_by key o os) ≡ ((o.id == k) || has_id k os)
  unfolding insert_by any
  has_id-insert_by key k o [] = refl
  has_id-insert_by key k o (p ∷ os) = ground (arith, has_id-insert_by key k o os)

  has_id-sort_by :
      (key : Order F → ℕ) (k : ℕ) (os : List (Order F)) → has_id k (sort_by key os) ≡ has_id k os
  unfolding sort_by any
  has_id-sort_by key k [] = refl
  has_id-sort_by key k (o ∷ os) =
      has_id-insert_by key k o (sort_by key os)
      ∙ ap (λ b. (o.id == k) || b) (has_id-sort_by key k os)

  has_id-select :
      (p : Order F → Bool) (k : ℕ) (o : Order F) (os : List (Order F))
      → get_order k os ≡ some o
      → p o ≡ true
      → has_id k (select p os) ≡ true
  unfolding select any get_order
  has_id-select p k o [] h t = ground arith
  has_id-select p k o (q ∷ os) h t = elim (Bool-cases (q.id == k)) [
    | inl found ↦
        let e : q ≡ o = ground arith in let t' : p q ≡ true = ap p e ∙ t in rw t' (rw found)
    | inr other ↦ let ih = has_id-select p k o os (ground arith) t in ground arith
  ]

  Left-start : (date : ℕ) (db : Db F) → Left date (pending_orders none db.orders) db
  unfolding pending_orders
  Left-start date db k o found waits = inl (
      has_id-sort_by (λ p. p.submitted_at) k _
      ∙ has_id-select (λ p. is_pending p.status && is_for none p.account_id) k o db.orders found
          (ground arith))

  no_account-flush :
      (k : ℕ) (a : Account F) (rows : List (Account F))
      → get_account k rows ≡ none
      → get_account k (flush_account a rows) ≡ none
  unfolding get_account flush_account
  no_account-flush k a [] h = refl
  no_account-flush k a (b ∷ rows) h = ground (arith, no_account-flush k a rows)

  -- A write of the row of `o` that is no longer pending.
  Left-write :
      (date : ℕ) (o o' : Order F) (os : List (Order F)) (db db' : Db F)
      → IsOpen db o
      → o'.id ≡ o.id
      → o'.status ≢ pending
      → db'.orders ≡ flush_order o' db.orders
      → ((k : ℕ) → get_account k db.accounts ≡ none → get_account k db'.accounts ≡ none)
      → Left date (o ∷ os) db
      → Left date os db'
  unfolding any
  Left-write date o o' os db db' w same decided e gone left k p found waits =
      elim (Bool-cases (o.id == k)) [
        | inl this ↦
            let k_o : o'.id ≡ k = ground arith in
            let at_o : get_order o'.id db.orders ≡ some o =
              ap (λ i. get_order i db.orders) same ∙ w.0 in
            let now : get_order k db'.orders ≡ some o' = rw e (
              ap (λ i. get_order i (flush_order o' db.orders)) (sym k_o)
              ∙ get_order-flush_self o' o db.orders at_o) in
            absurd (decided (ground arith))
        | inr other ↦
            let before : get_order k db.orders ≡ some p =
              sym (get_order-flush_ne k o' db.orders (ground arith))
              ∙ sym (ap (get_order k) e)
              ∙ found in
            elim (left k p before waits) [
              | inl later ↦ inl (ground arith)
              | inr (inl young) ↦ inr (inl young)
              | inr (inr missing) ↦ inr (inr (gone p.account_id missing))
            ]
      ]

  Left-same :
      (date : ℕ) (o : Order F) (os : List (Order F)) (db : Db F)
      → IsOpen db o
      → Waits date o db
      → Left date (o ∷ os) db
      → Left date os db
  unfolding any
  Left-same date o os db w why left k p found waits = elim (Bool-cases (o.id == k)) [
    | inl this ↦
        let k_o : o.id ≡ k = ground arith in
        let at_k : some o ≡ some p = sym w.0 ∙ ap (λ i. get_order i db.orders) k_o ∙ found in
        let e : o ≡ p = cc in inr (subst (λ q. Waits date q db) e why)
    | inr other ↦ elim (left k p found waits) [
      | inl later ↦ inl (ground arith)
      | inr waiting ↦ inr waiting
    ]
  ]

module _ {F : Type 0} ⦃fl : Floats F⦄ (prices : PriceReader F) (date : ℕ) where
  match_one-Left :
      (o : Order F) (os : List (Order F)) (db : Db F)
      → IsOpen db o
      → Left date (o ∷ os) db
      → Left date os (match_one prices date o db).1
  match_one-Left o os db w left =
      match_one-cases prices date o db (Left date os) (λ why. Left-same date o os db w why left)
        (λ why.
          let o' : Order F = record o { status = rejected; reject_reason = some why } in
          unfold reject_order in
          Left-write date o o' os db (reject_order why o db) w refl (λ e. cc) refl (λ k h. h) left)
        (λ a px f _ _.
          unfold fill_order in
          Left-write date o (filled_order date f o) os db (fill_order date o a f db) w refl
            (λ e. cc) refl
            (λ k h. no_account-flush k (record a { cash = cash_after o f a.cash }) db.accounts h)
            left)

  match_all-Left :
      (os : List (Order F)) (c : Counts) (db : Db F)
      → DistinctIds os
      → All (IsOpen db) os
      → Left date os db
      → Left date [] (match_all prices date os (c, db)).1
  unfolding match_all
  match_all-Left [] c db d w left = left
  match_all-Left (o ∷ os) c db d w left =
      let (r, db') = match_one prices date o db in
      match_all-Left os (count r c) db' d.1 (match_one-IsOpen prices date o db os d.0 w.1)
        (match_one-Left o os db w.0 left)

  -- After `match_pending` over all accounts, an order of the table is still pending only if it was
  -- submitted on the trading day or later, Chinese time, or its account is not there: every other
  -- pending order has been filled or rejected.
  pub match_pending_decides :
      (db : Db F)
      → DistinctIds db.orders
      → (k : ℕ) (o : Order F)
      → let db' = (match_pending prices date none db).1 in
        get_order k db'.orders ≡ some o
        → o.status ≡ pending
        → (date ≤ cn_day o.submitted_at) ⊎ (get_account o.account_id db'.accounts ≡ none)
  unfolding match_pending any
  match_pending_decides db d k o found waits =
      elim (match_all-Left (pending_orders none db.orders) no_counts db
        (pending_orders_distinct none db.orders d) (pending_orders-IsOpen none db d)
        (Left-start date db) k o found waits) [
          | inl nothing_left ↦ absurd (cc)
          | inr (inl young) ↦ inl (ground arith)
          | inr (inr missing) ↦ inr missing
        ]
