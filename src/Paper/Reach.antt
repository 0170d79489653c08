-- ===== src/Paper/Reach.antt =====
-- Every sequence of calls of `PaperService` (signal_papertrade/service.py) from empty tables. The
-- ids of new rows are uuids, so a new order's id differs from those of the table.
use signal_lab.Common.{
  Distinct-append_one, ℕ, ◌+◌, ◌==◌, ◌≡◌, ◌≢◌, refl, true, false, inl, inr, Option, none, some,
  Bool-cases, ◌||◌, List, [], ◌∷◌, ◌++◌, arith, All, All-append_one, any,
}
use signal_lab.Common.Int.{pos, leb_ℤ, int_laws}
use signal_lab.Common.Text.{Text, text_eq}
use signal_lab.Common.Float.{Floats}
use signal_lab.Paper.Models.{Account, Fees, Order, NavPoint, Db}
use signal_lab.Paper.Engine.{is_buy, is_sell}
use signal_lab.Paper.Repo.{
  Draft, get_account, create_account, new_account, new_order, place_with, place_for, place_order,
  is_odd_lot, get_position, upsert_nav,
}
use signal_lab.Paper.Ports.{PriceReader}
use signal_lab.Paper.Service.{
  match_pending, settle_all, settle, to_settle, run_day, run_days, auto_run_through, nav_point,
}
use signal_lab.Paper.Table.{total, total-append_one}
use signal_lab.Paper.Reconcile.{shares}
use signal_lab.Paper.Distinct.{order_id}
use signal_lab.Paper.Invariant.{IsSound, IsOrder, match_pending-IsSound}

abbrev pub empty : {F : Type 0} → Db F
empty = record { accounts = []; orders = []; positions = []; navs = [] }

-- No order of the table has the id.
abbrev pub IsFresh : {F : Type 0} → ℕ → Db F → Type 0
IsFresh id db = All (λ o. o.id ≢ id) db.orders

module _ {F : Type 0} ⦃fl : Floats F⦄ (prices : PriceReader F) where
  pub data Step : Db F → Db F → Type 0 where
    create :
        (id now : ℕ) (name : Text) (cash : F) (fees : Fees F) (db : Db F)
        → Step db (create_account id now name cash fees db).1
    place :
        (id now account : ℕ) (d : Draft) (db : Db F)
        → IsFresh id db
        → Step db (place_order id now account d db).1
    matched :
        (date : ℕ) (account : Option ℕ) (db : Db F)
        → Step db (match_pending prices date account db).1
    settled :
        (date : ℕ) (account : Option ℕ) (db : Db F) → Step db (settle prices date account db).1
    day : (date : ℕ) (account : Option ℕ) (db : Db F) → Step db (run_day prices date account db).2
    days :
        (account start end : ℕ) (db : Db F)
        → Step db (auto_run_through prices account start end db).3

  pub data Reach (s : Db F) : Db F → Type 0 where
    here : Reach s s
    next : {t u : Db F} → Reach s t → Step t u → Reach s u

module _ {F : Type 0} where
  empty-IsSound : IsSound (empty {F = F})
  empty-IsSound = record {
    distinct = tt;
    orders = tt;
    positions = tt;
    reconciled = record { at = λ a s. unfold get_position total in refl };
  }

  -- The invariant reads only the orders and the positions.
  other_tables-IsSound :
      (accounts : List (Account F)) (navs : List (NavPoint F)) (db : Db F)
      → IsSound db
      → IsSound (record db { accounts = accounts; navs = navs })
  other_tables-IsSound accounts navs db h = record {
    distinct = h.distinct;
    orders = h.orders;
    positions = h.positions;
    reconciled = record { at = h.reconciled.at };
  }

  create_account-IsSound :
      (id now : ℕ) (name : Text) (cash : F) (fees : Fees F) (db : Db F)
      → IsSound db
      → IsSound (create_account id now name cash fees db).1
  unfolding create_account
  create_account-IsSound id now name cash fees db h =
      elim (Bool-cases (any (λ b. text_eq b.name name) db.accounts)) [
        | inl taken ↦ rw taken h
        | inr free ↦
            let a = new_account id now name cash fees in
            rw free (other_tables-IsSound (db.accounts ++ a ∷ []) db.navs db h)
      ]

  module _ (id now account : ℕ) (d : Draft) (db : Db F) (P : Db F → Type 0) (same : P db) where
    place_with-cases :
        (a : Account F)
        → P (record db { orders = db.orders ++ new_order id now account d ∷ [] })
        → P (place_with id now account d a db).1
    unfolding place_with
    place_with-cases a added = elim (Bool-cases (a.lot_size == 0)) [
      | inl zero_lot ↦ rw zero_lot same
      | inr lot ↦ rw lot (elim (Bool-cases (is_odd_lot account d a db)) [
        | inl odd ↦ rw odd same
        | inr whole ↦ rw whole added
      ])
    ]

    place_for-cases :
        (m : Option (Account F))
        → P (record db { orders = db.orders ++ new_order id now account d ∷ [] })
        → P (place_for id now account d m db).1
    unfolding place_for
    place_for-cases none added = same
    place_for-cases (some a) added = place_with-cases a added

    -- `place_order` leaves the tables alone or adds one order, which has passed the checks.
    pub place_order-cases :
        (is_buy d.side || is_sell d.side ≡ true
          → leb_ℤ d.quantity (pos 0) ≡ false
          → P (record db { orders = db.orders ++ new_order id now account d ∷ [] }))
        → P (place_order id now account d db).1
    unfolding place_order
    place_order-cases added = elim (Bool-cases (is_buy d.side || is_sell d.side)) [
      | inr bad ↦ rw bad same
      | inl good ↦ rw good (elim (Bool-cases (leb_ℤ d.quantity (pos 0))) [
        | inl none_asked ↦ rw none_asked same
        | inr some_asked ↦
            rw some_asked
              (place_for-cases (get_account account db.accounts) (added good some_asked))
      ])
    ]

  place_order-IsSound :
      (id now account : ℕ) (d : Draft) (db : Db F)
      → IsFresh id db
      → IsSound db
      → IsSound (place_order id now account d db).1
  place_order-IsSound id now account d db fresh h =
      let o : Order F = new_order id now account d in
      place_order-cases id now account d db IsSound h (λ good some_asked. record {
        distinct = Distinct-append_one order_id db.orders o h.distinct fresh;
        orders =
            All-append_one IsOrder db.orders o h.orders
              (record { side = good; quantity = ground arith; columns = (refl, refl) });
        positions = h.positions;
        reconciled = record {
          at = λ a s.
              let t = total-append_one (shares a s) db.orders o in
              rw t (grind (int_laws, h.reconciled.at a s));
        };
      })

module _ {F : Type 0} ⦃fl : Floats F⦄ (prices : PriceReader F) where
  settle_all-IsSound :
      (date : ℕ) (as' : List (Account F)) (n : ℕ) (db : Db F)
      → IsSound db
      → IsSound (settle_all prices date as' (n, db)).1
  unfolding settle_all
  settle_all-IsSound date [] n db h = h
  settle_all-IsSound date (a ∷ rest) n db h =
      settle_all-IsSound date rest (n + 1) _
        (other_tables-IsSound db.accounts (upsert_nav (nav_point prices date db a) db.navs) db h)

  settle-IsSound :
      (date : ℕ) (account : Option ℕ) (db : Db F)
      → IsSound db
      → IsSound (settle prices date account db).1
  unfolding settle
  settle-IsSound date account db h = settle_all-IsSound date (to_settle account db) 0 db h

  run_day-IsSound :
      (date : ℕ) (account : Option ℕ) (db : Db F)
      → IsSound db
      → IsSound (run_day prices date account db).2
  unfolding run_day
  run_day-IsSound date account db h =
      settle-IsSound date account (match_pending prices date account db).1
        (match_pending-IsSound prices date account db h)

  run_days-IsSound :
      (account : ℕ) (ds : List ℕ) (n fills rejects : ℕ) (db : Db F)
      → IsSound db
      → IsSound (run_days prices account ds (n, fills, rejects, db)).3
  unfolding run_days
  run_days-IsSound account [] n fills rejects db h = h
  run_days-IsSound account (d ∷ ds) n fills rejects db h =
      let (c, k, db') = run_day prices d (some account) db in
      run_days-IsSound account ds (n + 1) (fills + c.filled) (rejects + c.rejected) db'
        (run_day-IsSound d (some account) db h)

  Step-IsSound : {s t : Db F} → Step prices s t → IsSound s → IsSound t
  Step-IsSound (create id now name cash fees db) h =
      create_account-IsSound id now name cash fees db h
  Step-IsSound (place id now account d db fresh) h = place_order-IsSound id now account d db fresh h
  Step-IsSound (matched date account db) h = match_pending-IsSound prices date account db h
  Step-IsSound (settled date account db) h = settle-IsSound date account db h
  Step-IsSound (day date account db) h = run_day-IsSound date account db h
  Step-IsSound (days account start end db) h =
      unfold auto_run_through in
      run_days-IsSound account (prices.list_trade_dates start end) 0 0 0 db h

  -- In all tables that calls of the service can reach, whatever the prices: order ids are distinct;
  -- each order has a side of buy or sell, at least one share, and the columns of its status; no
  -- position is short; and each holding is the shares of its filled buys less those of its sales.
  pub Reach-IsSound : {db : Db F} → Reach prices empty db → IsSound db
  Reach-IsSound here = empty-IsSound
  Reach-IsSound (next r st) = Step-IsSound st (Reach-IsSound r)
