-- ===== src/Paper/Filled.antt =====
-- What a fill changes (signal_papertrade/service.py, the end of the loop of `match_pending`), and
-- when the engine grants one (engine.py).
use signal_lab.Common.{
  ℕ, ◌==◌, ◌≡◌, ◌≢◌, ap, ◌∙◌, true, false, Option, some, ◌&&◌, List, [], ◌∷◌, arith, if◌then◌else◌,
  ok,
}
use signal_lab.Common.Int.{ℤ, ◌≤ℤ◌, ◌+ℤ◌, ◌-ℤ◌}
use signal_lab.Common.Text.{Text, text_eq}
use signal_lab.Common.Float.{Floats, IsOrdered}
use signal_lab.Paper.Models.{Account, Order, Db}
use signal_lab.Paper.Engine.{
  Fill, is_buy, is_sell, limit_band, calc_commission, try_fill, try_fill_with_limits, at_upper,
  at_lower, is_known,
}
use signal_lab.Paper.Repo.{get_account, flush_account, get_order}
use signal_lab.Paper.Service.{quantity_after, cash_after, filled_order, fill_order}
use signal_lab.Paper.Table.{get_order-flush_self, get_order-flush_ne, quantity-upsert}
use signal_lab.Paper.Reconcile.{held, IsOpen}

module _ {F : Type 0} where
  get_account-flush :
      (k : ℕ) (a old : Account F) (rows : List (Account F))
      → get_account a.id rows ≡ some old
      → get_account k (flush_account a rows) ≡ (if a.id == k then some a else get_account k rows)
  unfolding get_account flush_account
  get_account-flush k a old [] h = ground arith
  get_account-flush k a old (b ∷ rows) h = ground (arith, get_account-flush k a old rows)

  id-get_account :
      (k : ℕ) (a : Account F) (rows : List (Account F)) → get_account k rows ≡ some a → a.id ≡ k
  unfolding get_account
  id-get_account k a [] h = ground arith
  id-get_account k a (b ∷ rows) h = ground (arith, id-get_account k a rows)

module _ {F : Type 0} ⦃fl : Floats F⦄ where
  -- A fill of an open order writes the fill into its row and no other; moves the money of its
  -- account, and of no other, by the amount and the commission; and moves the holding of its
  -- account in its symbol, and no other holding, by its quantity.
  pub fill_order_effect :
      (date : ℕ) (o : Order F) (a : Account F) (f : Fill F) (db : Db F)
      → IsOpen db o
      → get_account o.account_id db.accounts ≡ some a
      → let db' = fill_order date o a f db in
        (get_order o.id db'.orders ≡ some (filled_order date f o))
        × ((k : ℕ) → o.id ≢ k → get_order k db'.orders ≡ get_order k db.orders)
        × ((k : ℕ)
            → get_account k db'.accounts ≡ (
                if o.account_id == k
                then some (record a {
                  cash =
                      if is_buy o.side
                      then fl.sub (fl.sub a.cash f.amount) f.commission
                      else fl.sub (fl.add a.cash f.amount) f.commission;
                })
                else get_account k db.accounts))
        × ((k : ℕ) (s : Text)
            → held k s db' ≡ (
                if (o.account_id == k) && text_eq o.symbol s
                then (if is_buy o.side
                    then held o.account_id o.symbol db +ℤ o.quantity
                    else held o.account_id o.symbol db -ℤ o.quantity)
                else held k s db))
  unfolding fill_order cash_after quantity_after
  fill_order_effect date o a f db w found =
      let same = id-get_account o.account_id a db.accounts found in
      let at_a : get_account a.id db.accounts ≡ some a =
        ap (λ k. get_account k db.accounts) same ∙ found in
      (
        get_order-flush_self (filled_order date f o) o db.orders w.0,
        λ k ne. get_order-flush_ne k (filled_order date f o) db.orders ne,
        λ k.
            get_account-flush k (record a { cash = cash_after o f a.cash }) a db.accounts at_a
            ∙ ground arith,
        λ k s. quantity-upsert o.account_id k o.symbol s _ _ db.positions,
      )

  -- What an accepted order satisfies.
  pub record IsCovered (a : Account F) (symbol side : Text) (q : ℤ) (px : F) (prev : Option F)
      (cash : F) (held : ℤ) (f : Fill F) : Type 0 where
    pub open_price : fl.le px (fl.lit 0 0) ≡ false
    pub amount : f.amount ≡ fl.mul f.price (fl.of_int q)
    pub money :
        is_buy side ≡ true → fl.lt (fl.add cash (fl.lit 1 6)) (fl.add f.amount f.commission) ≡ false
    pub shares : is_buy side ≡ false → q ≤ℤ held
    pub fee : is_buy side ≡ true → fl.le a.commission_min f.commission ≡ true
    pub below_upper :
        is_buy side ≡ true
        → (p : F) → prev ≡ some p
        → is_known (some p) ≡ true
        → fl.le (fl.mul (limit_band p symbol).1 (fl.lit 999 3)) px ≡ false
    pub above_lower :
        is_sell side ≡ true
        → is_buy side ≡ false
        → (p : F) → prev ≡ some p
        → is_known (some p) ≡ true
        → fl.le px (fl.mul (limit_band p symbol).0 (fl.lit 1001 3)) ≡ false

  commission-ge-minimum :
      IsOrdered F fl
      → (amount rate minimum : F) → fl.le minimum (calc_commission amount rate minimum) ≡ true
  unfolding calc_commission
  commission-ge-minimum h amount rate minimum =
      let r = h.le_refl minimum in let t = h.lt_le (fl.mul amount rate) minimum in ground arith

  -- For floats that compare as numbers do: an order that the engine accepts has a positive open,
  -- the amount of its price and quantity, money for amount and commission if it buys, shares if it
  -- sells, at least the minimum commission if it buys, and an open inside the limits of the last
  -- close where that is known.
  pub fill-IsCovered :
      IsOrdered F fl
      → (a : Account F) (symbol side : Text) (q : ℤ) (px : F) (prev : Option F) (cash : F)
        (held : ℤ) (f : Fill F)
      → try_fill_with_limits a symbol side q px prev cash held ≡ ok f
      → IsCovered a symbol side q px prev cash held f
  unfolding try_fill_with_limits
  fill-IsCovered ord a symbol side q px prev cash held f e = record {
    open_price = unfold try_fill in ground arith;
    amount = unfold try_fill in ground arith;
    money = λ b. unfold try_fill in ground arith;
    shares = λ b. unfold try_fill in ground arith;
    fee = λ b.
        let c : f.commission ≡ calc_commission f.amount a.commission_rate a.commission_min =
          unfold try_fill in ground arith in
        rw c (commission-ge-minimum ord f.amount a.commission_rate a.commission_min);
    below_upper = λ b p is known. unfold at_upper in ground arith;
    above_lower = λ s b p is known. unfold at_lower in ground arith;
  }
