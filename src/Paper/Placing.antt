-- ===== src/Paper/Placing.antt =====
-- Which orders `place_order` takes (signal_papertrade/repo.py).
use signal_lab.Common.{
  ℕ, ◌==◌, ◌≡◌, ◌≢◌, ◌⊎◌, refl, true, false, inl, inr, Option, none, some, Bool-cases, ◌||◌, arith,
  ok, [], ◌∷◌, ◌++◌, ap,
}
use signal_lab.Common.Int.{pos, ◌≤ℤ◌, mod_ℤ}
use signal_lab.Paper.Models.{pending, Account, Order, Position, Db}
use signal_lab.Paper.Engine.{is_buy, is_sell}
use signal_lab.Paper.Repo.{
  Draft, get_account, get_position, place_with, place_for, place_order, is_odd_lot, is_full_exit,
  new_order,
}

module _ {F : Type 0} where
  -- Whole lots, or a sale of exactly what the account holds.
  abbrev pub LotRule : ℕ → Draft → Account F → Db F → Type 0
  LotRule account d a db =
      (mod_ℤ d.quantity a.lot_size ≡ 0)
      ⊎ ((is_sell d.side ≡ true)
          × ((p : Position F) × (get_position account d.symbol db.positions ≡ some p)
              × (p.quantity ≡ d.quantity)))

  full_exit :
      (d : Draft) (m : Option (Position F))
      → is_full_exit d m ≡ true
      → (is_sell d.side ≡ true) × ((p : Position F) × (m ≡ some p) × (p.quantity ≡ d.quantity))
  unfolding is_full_exit
  full_exit d none h = absurd (cc)
  full_exit d (some p) h = (ground arith, (p, refl, ground arith))

  lot_rule :
      (account : ℕ) (d : Draft) (a : Account F) (db : Db F)
      → is_odd_lot account d a db ≡ false
      → LotRule account d a db
  lot_rule account d a db h = elim (Bool-cases (mod_ℤ d.quantity a.lot_size == 0)) [
    | inl whole ↦ inl (ground arith)
    | inr odd ↦ inr (full_exit d (get_position account d.symbol db.positions) (ground arith))
  ]

  place_for_ok :
      (id now account : ℕ) (d : Draft) (m : Option (Account F)) (db : Db F) (o : Order F)
      → (place_for id now account d m db).0 ≡ ok o
      → (a : Account F) × (m ≡ some a)
        × (a.lot_size ≢ 0)
        × LotRule account d a db
        × (o ≡ new_order id now account d)
        × ((place_for id now account d m db).1 ≡ record db { orders = db.orders ++ o ∷ [] })
  unfolding place_for place_with
  place_for_ok id now account d none db o h = absurd (cc)
  place_for_ok id now account d (some a) db o h =
      let taken : o ≡ new_order id now account d = ground arith in
      (
        a,
        refl,
        ground arith,
        lot_rule account d a db (ground arith),
        taken,
        rw taken (ground (arith, h)),
      )

  -- An order that is taken buys or sells at least one share, for a known account, in whole lots
  -- unless it sells exactly the holding. Its row is pending, has what was asked for, and is added at
  -- the end of the table of orders, and nothing else changes.
  pub place_order_ok :
      (id now account : ℕ) (d : Draft) (db : Db F) (o : Order F)
      → (place_order id now account d db).0 ≡ ok o
      → (is_buy d.side || is_sell d.side ≡ true)
        × (pos 1 ≤ℤ d.quantity)
        × ((a : Account F) × (get_account account db.accounts ≡ some a)
            × (a.lot_size ≢ 0)
            × LotRule account d a db
            × (o ≡ new_order id now account d))
        × ((place_order id now account d db).1 ≡ record db { orders = db.orders ++ o ∷ [] })
        × (o.status ≡ pending)
  unfolding place_order
  place_order_ok id now account d db o h =
      let (a, known, lot, rule, taken, stored) =
        place_for_ok id now account d (get_account account db.accounts) db o (ground arith) in
      (
        ground arith,
        ground arith,
        (a, known, lot, rule, taken),
        ground (arith, stored),
        ap (λ x. x.status) taken,
      )
