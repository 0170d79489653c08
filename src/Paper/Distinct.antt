-- ===== src/Paper/Distinct.antt =====
-- Orders have distinct identifiers (the primary key of `orders`, signal_papertrade/models.py), and
-- so the orders that `pending_orders` loads are rows that stay open until their own round.
use signal_lab.Common.{
  Differs, Distinct, Distinct-select, Distinct-sort_by, ℕ, ◌==◌, ◌≡◌, ◌≢◌, refl, ◌∙◌, inl, inr,
  Option, some, Bool-cases, ◌&&◌, List, [], ◌∷◌, arith, All, All-select, All-sort_by,
  All-select_test, All-map, All-map₂,
}
use signal_lab.Common.Float.{Floats}
use signal_lab.Paper.Models.{Order, rejected, Db}
use signal_lab.Paper.Repo.{get_order, flush_order, pending_orders, is_pending, is_for}
use signal_lab.Paper.Ports.{PriceReader}
use signal_lab.Paper.Service.{reject_order, fill_order, filled_order, match_one}
use signal_lab.Paper.Table.{get_order-flush_ne}
use signal_lab.Paper.Rounds.{match_one-cases}
use signal_lab.Paper.Reconcile.{IsOpen}

module _ {F : Type 0} where
  abbrev pub order_id : Order F → ℕ
  order_id o = o.id

  abbrev pub DistinctIds : List (Order F) → Type 0
  DistinctIds rows = Distinct order_id rows

  DistinctIds-get :
      (rows : List (Order F)) → DistinctIds rows → All (λ o. get_order o.id rows ≡ some o) rows
  unfolding get_order
  DistinctIds-get [] h = tt
  DistinctIds-get (o ∷ rows) h =
      (ground arith, All-map₂ rows (λ p differs found. ground arith) h.0 (DistinctIds-get rows h.1))

  pub pending_orders_distinct :
      (account : Option ℕ) (rows : List (Order F))
      → DistinctIds rows
      → DistinctIds (pending_orders account rows)
  unfolding pending_orders
  pending_orders_distinct account rows h =
      Distinct-sort_by order_id _ _ (Distinct-select order_id _ rows h)

  pub pending_orders-IsOpen :
      (account : Option ℕ) (db : Db F)
      → DistinctIds db.orders
      → All (IsOpen db) (pending_orders account db.orders)
  unfolding pending_orders
  pending_orders-IsOpen account db h =
      All-sort_by (IsOpen db) (λ o. o.submitted_at) _
        (All-map₂ _ (λ o test found. (found, ground arith))
          (All-select_test (λ o. is_pending o.status && is_for account o.account_id) db.orders)
          (All-select _ _ db.orders (DistinctIds-get db.orders h)))

  flush-Differs :
      (q o : Order F) (rows : List (Order F))
      → All (Differs order_id q) rows
      → Differs order_id q o
      → All (Differs order_id q) (flush_order o rows)
  unfolding flush_order
  flush-Differs q o [] h d = tt
  flush-Differs q o (p ∷ rows) h d = ground (arith, flush-Differs q o rows h.1 d)

  pub DistinctIds-flush :
      (o : Order F) (rows : List (Order F)) → DistinctIds rows → DistinctIds (flush_order o rows)
  unfolding flush_order
  DistinctIds-flush o [] h = tt
  DistinctIds-flush o (p ∷ rows) h = elim (Bool-cases (p.id == o.id)) [
    | inl found ↦ rw found (All-map rows (λ q d. ground arith) h.0, h.1)
    | inr other ↦ rw other (flush-Differs p o rows h.0 (ground arith), DistinctIds-flush o rows h.1)
  ]

  IsOpen-flush :
      (o p : Order F) (db db' : Db F)
      → db'.orders ≡ flush_order o db.orders
      → o.id ≢ p.id
      → IsOpen db p
      → IsOpen db' p
  IsOpen-flush o p db db' e d h = (rw e (get_order-flush_ne p.id o db.orders d ∙ h.0), h.1)

module _ {F : Type 0} ⦃fl : Floats F⦄ (prices : PriceReader F) (date : ℕ) where
  -- A round leaves the other orders open.
  pub match_one-IsOpen :
      (o : Order F) (db : Db F) (rest : List (Order F))
      → All (Differs order_id o) rest
      → All (IsOpen db) rest
      → All (IsOpen (match_one prices date o db).1) rest
  unfolding reject_order fill_order
  match_one-IsOpen o db rest d h =
      match_one-cases prices date o db (λ db'. All (IsOpen db') rest) (λ _. h)
        (λ why.
          All-map₂ rest
            (λ p ne.
              IsOpen-flush (record o { status = rejected; reject_reason = some why }) p db
                (reject_order why o db) refl ne)
            d h)
        (λ a px f _ _.
          All-map₂ rest
            (λ p ne. IsOpen-flush (filled_order date f o) p db (fill_order date o a f db) refl ne) d
            h)
