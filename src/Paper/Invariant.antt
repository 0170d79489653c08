-- ===== src/Paper/Invariant.antt =====
-- The state of the tables that every operation of packages/papertrade keeps.
use signal_lab.Common.{
  ℕ, ◌≡◌, refl, true, false, inl, inr, Option, none, some, is_some, Bool-cases, ◌||◌, List, [], ◌∷◌,
  arith, All, ok,
}
use signal_lab.Common.Int.{ℤ, pos, ◌≤ℤ◌, int_laws}
use signal_lab.Common.Text.{Text}
use signal_lab.Common.Float.{Floats}
use signal_lab.Paper.Models.{
  Account, Order, OrderStatus, pending, filled, rejected, cancelled, Reason, Position, Db,
}
use signal_lab.Paper.Engine.{Fill, is_buy, is_sell, try_fill, try_fill_with_limits}
use signal_lab.Paper.Repo.{get_position, pending_orders}
use signal_lab.Paper.Ports.{PriceReader}
use signal_lab.Paper.Service.{
  quantity_of, quantity_after, attempt, reject_order, fill_order, filled_order, match_one,
  match_all, match_pending, Counts, count, no_counts,
}
use signal_lab.Paper.Table.{All-upsert, All-flush_order, All-get_order, All-get_position}
use signal_lab.Paper.Rounds.{match_one-cases}
use signal_lab.Paper.Reconcile.{
  IsReconciled, IsOpen, reject_order-IsReconciled, fill_order-IsReconciled,
}
use signal_lab.Paper.Distinct.{
  DistinctIds, DistinctIds-flush, match_one-IsOpen, pending_orders_distinct, pending_orders-IsOpen,
}

-- The columns that each status fills in. No order is ever `cancelled`.
abbrev pub Columns : {F : Type 0} → OrderStatus → Order F → Type 0
Columns pending o = (o.fill_date ≡ none) × (o.reject_reason ≡ none)
Columns filled o =
    (is_some o.fill_date ≡ true)
    × (is_some o.fill_price ≡ true)
    × (is_some o.fill_amount ≡ true)
    × (is_some o.commission ≡ true)
    × (o.reject_reason ≡ none)
Columns rejected o = (o.fill_date ≡ none) × (is_some o.reject_reason ≡ true)
Columns cancelled o = ⊥

pub record IsOrder {F : Type 0} (o : Order F) : Type 0 where
  pub side : is_buy o.side || is_sell o.side ≡ true
  pub quantity : pos 1 ≤ℤ o.quantity
  pub columns : Columns o.status o

-- No position is short.
abbrev pub IsLong : {F : Type 0} → Position F → Type 0
IsLong p = pos 0 ≤ℤ p.quantity

pub record IsSound {F : Type 0} (db : Db F) : Type 0 where
  pub distinct : DistinctIds db.orders
  pub orders : All IsOrder db.orders
  pub positions : All IsLong db.positions
  pub reconciled : IsReconciled db

module _ {F : Type 0} where
  open_columns :
      (o : Order F)
      → IsOrder o
      → o.status ≡ pending
      → (o.fill_date ≡ none) × (o.reject_reason ≡ none)
  open_columns o h e = let c = h.columns in ground arith

  reject_order-IsSound :
      (why : Reason) (o : Order F) (db : Db F)
      → IsSound db
      → IsOpen db o
      → IsSound (reject_order why o db)
  reject_order-IsSound why o db h w =
      let o' : Order F = record o { status = rejected; reject_reason = some why } in
      let ho = All-get_order IsOrder o.id o db.orders h.orders w.0 in
      let ho' : IsOrder o' = record {
        side = ho.side;
        quantity = ho.quantity;
        columns = ((open_columns o ho w.1).0, refl);
      } in
      record {
        distinct = unfold reject_order in DistinctIds-flush o' db.orders h.distinct;
        orders = unfold reject_order in All-flush_order IsOrder o' db.orders h.orders ho';
        positions = unfold reject_order in h.positions;
        reconciled = reject_order-IsReconciled why o db h.reconciled w;
      }

  held_long :
      (a : ℕ) (s : Text) (m : Option (Position F)) (rows : List (Position F))
      → get_position a s rows ≡ m
      → All IsLong rows
      → pos 0 ≤ℤ quantity_of m
  held_long a s none rows e h = omega arith
  held_long a s (some p) rows e h = All-get_position IsLong a s p rows h e

module _ {F : Type 0} ⦃fl : Floats F⦄ where
  -- A sale that the engine accepts is covered by the position.
  sale_covered :
      (prices : PriceReader F) (date : ℕ) (o : Order F) (a : Account F) (px : F) (f : Fill F)
      (db : Db F)
      → attempt prices date o a px db ≡ ok f
      → is_buy o.side ≡ false
      → o.quantity ≤ℤ quantity_of (get_position o.account_id o.symbol db.positions)
  unfolding attempt try_fill_with_limits try_fill
  sale_covered prices date o a px f db e s = ground arith

  quantity_after_long :
      (o : Order F) (held : ℤ)
      → pos 0 ≤ℤ held
      → pos 1 ≤ℤ o.quantity
      → (is_buy o.side ≡ false → o.quantity ≤ℤ held)
      → pos 0 ≤ℤ quantity_after o held
  unfolding quantity_after
  quantity_after_long o held h q covered = elim (Bool-cases (is_buy o.side)) [
    | inl buys ↦ rw buys (omega int_laws)
    | inr sells ↦ let c = covered sells in rw sells (omega int_laws)
  ]

  fill_order-IsSound :
      (prices : PriceReader F) (date : ℕ) (o : Order F) (a : Account F) (px : F) (f : Fill F)
      (db : Db F)
      → IsSound db
      → IsOpen db o
      → attempt prices date o a px db ≡ ok f
      → IsSound (fill_order date o a f db)
  fill_order-IsSound prices date o a px f db h w e =
      let o' = filled_order date f o in
      let ho = All-get_order IsOrder o.id o db.orders h.orders w.0 in
      let ho' : IsOrder o' = record {
        side = ho.side;
        quantity = ho.quantity;
        columns = (refl, refl, refl, refl, (open_columns o ho w.1).1);
      } in
      let p = get_position o.account_id o.symbol db.positions in
      let long : pos 0 ≤ℤ quantity_after o (quantity_of p) =
        quantity_after_long o (quantity_of p)
          (held_long o.account_id o.symbol p db.positions refl h.positions) ho.quantity
          (sale_covered prices date o a px f db e) in
      record {
        distinct = unfold fill_order in DistinctIds-flush o' db.orders h.distinct;
        orders = unfold fill_order in All-flush_order IsOrder o' db.orders h.orders ho';
        positions =
            unfold fill_order in
            All-upsert IsLong o.account_id o.symbol _ _ db.positions h.positions
              (λ q _ same. rw same long);
        reconciled = fill_order-IsReconciled date o a f db h.reconciled w;
      }

  pub match_one-IsSound :
      (prices : PriceReader F) (date : ℕ) (o : Order F) (db : Db F)
      → IsSound db
      → IsOpen db o
      → IsSound (match_one prices date o db).1
  match_one-IsSound prices date o db h w =
      match_one-cases prices date o db IsSound (λ _. h) (λ why. reject_order-IsSound why o db h w)
        (λ a px f _ e. fill_order-IsSound prices date o a px f db h w e)

  match_all-IsSound :
      (prices : PriceReader F) (date : ℕ) (os : List (Order F)) (c : Counts) (db : Db F)
      → IsSound db
      → DistinctIds os
      → All (IsOpen db) os
      → IsSound (match_all prices date os (c, db)).1
  unfolding match_all
  match_all-IsSound prices date [] c db h d w = h
  match_all-IsSound prices date (o ∷ os) c db h d w =
      let (r, db') = match_one prices date o db in
      match_all-IsSound prices date os (count r c) db' (match_one-IsSound prices date o db h w.0)
        d.1 (match_one-IsOpen prices date o db os d.0 w.1)

  pub match_pending-IsSound :
      (prices : PriceReader F) (date : ℕ) (account : Option ℕ) (db : Db F)
      → IsSound db
      → IsSound (match_pending prices date account db).1
  unfolding match_pending
  match_pending-IsSound prices date account db h =
      match_all-IsSound prices date (pending_orders account db.orders) no_counts db h
        (pending_orders_distinct account db.orders h.distinct)
        (pending_orders-IsOpen account db h.distinct)
