-- ===== src/Paper/Repo.antt =====
-- packages/papertrade/src/signal_papertrade/repo.py: the tables and what may enter them. A fresh id
-- and `utcnow()` are arguments. What a method raises leaves the tables as they were.
use signal_lab.Common.{
  ℕ, ◌==◌, Bool, true, false, not, ◌&&◌, ◌||◌, Option, none, some, List, [], ◌∷◌, ◌++◌,
  if◌then◌else◌, any, select, take, sort_by, ok, err, Exec,
}
use mathlib.Core.List.{reverse}
use signal_lab.Common.Int.{ℤ, pos, leb_ℤ, ltb_ℤ, eqb_ℤ, mod_ℤ}
use signal_lab.Common.Text.{Text, codes, text_eq}
use signal_lab.Paper.Models.{
  Account, Fees, Order, OrderStatus, pending, filled, rejected, cancelled, Position, NavPoint, Db,
}
use signal_lab.Paper.Engine.{is_buy, is_sell}

pub data PaperError : Type 0 where
  -- ValueError
  duplicate_account : Text → PaperError
  bad_side bad_quantity : PaperError
  odd_lot : ℕ → PaperError
  -- KeyError
  unknown_account : ℕ → PaperError
  -- ZeroDivisionError
  zero_lot : PaperError

abbrev pub is_pending : OrderStatus → Bool
is_pending pending = true
is_pending _ = false

-- Python's `account_id: str | None` as a filter.
abbrev pub is_for : Option ℕ → ℕ → Bool
is_for none id = true
is_for (some a) id = a == id

abbrev status_text : OrderStatus → Text
status_text pending = codes "pending"
status_text filled = codes "filled"
status_text rejected = codes "rejected"
status_text cancelled = codes "cancelled"

module _ {F : Type 0} where
  unfoldable pub get_account : ℕ → List (Account F) → Option (Account F)
  get_account id [] = none
  get_account id (a ∷ rows) = if a.id == id then some a else get_account id rows

  unfoldable pub flush_account : Account F → List (Account F) → List (Account F)
  flush_account a [] = []
  flush_account a (b ∷ rows) = if b.id == a.id then a ∷ rows else b ∷ flush_account a rows

  abbrev pub list_accounts : List (Account F) → List (Account F)
  list_accounts rows = sort_by (λ a. a.created_at) rows

  unfoldable pub get_order : ℕ → List (Order F) → Option (Order F)
  get_order id [] = none
  get_order id (o ∷ rows) = if o.id == id then some o else get_order id rows

  unfoldable pub flush_order : Order F → List (Order F) → List (Order F)
  flush_order o [] = []
  flush_order o (p ∷ rows) = if p.id == o.id then o ∷ rows else p ∷ flush_order o rows

  unfoldable pub pending_orders : Option ℕ → List (Order F) → List (Order F)
  pending_orders account rows =
      sort_by (λ o. o.submitted_at)
        (select (λ o. is_pending o.status && is_for account o.account_id) rows)

  abbrev pub holds : ℕ → Text → Position F → Bool
  holds account symbol p = (p.account_id == account) && text_eq p.symbol symbol

  unfoldable pub get_position : ℕ → Text → List (Position F) → Option (Position F)
  get_position account symbol [] = none
  get_position account symbol (p ∷ rows) =
      if holds account symbol p then some p else get_position account symbol rows

  unfoldable pub list_positions : ℕ → List (Position F) → List (Position F)
  list_positions account rows =
      select (λ p. (p.account_id == account) && ltb_ℤ (pos 0) p.quantity) rows

  -- The row of the key is changed, or added at the end.
  unfoldable pub upsert_position : ℕ → Text → ℤ → F → List (Position F) → List (Position F)
  upsert_position account symbol quantity avg_cost [] =
      record { account_id = account; symbol = symbol; quantity = quantity; avg_cost = avg_cost }
      ∷ []
  upsert_position account symbol quantity avg_cost (p ∷ rows) =
      if holds account symbol p
      then record p { quantity = quantity; avg_cost = avg_cost } ∷ rows
      else p ∷ upsert_position account symbol quantity avg_cost rows

  abbrev pub dated : ℕ → ℕ → NavPoint F → Bool
  dated account date p = (p.account_id == account) && (p.trade_date == date)

  unfoldable pub get_nav : ℕ → ℕ → List (NavPoint F) → Option (NavPoint F)
  get_nav account date [] = none
  get_nav account date (p ∷ rows) =
      if dated account date p then some p else get_nav account date rows

  unfoldable pub upsert_nav : NavPoint F → List (NavPoint F) → List (NavPoint F)
  upsert_nav n [] = n ∷ []
  upsert_nav n (p ∷ rows) =
      if dated n.account_id n.trade_date p then n ∷ rows else p ∷ upsert_nav n rows

  unfoldable pub list_nav : ℕ → List (NavPoint F) → List (NavPoint F)
  list_nav account rows = sort_by (λ n. n.trade_date) (select (λ n. n.account_id == account) rows)

-- What the caller of `place_order` chooses.
pub record Draft : Type 0 where
  pub symbol : Text
  pub side : Text
  pub quantity : ℤ
  pub source : Text
  pub note : Text

module _ {F : Type 0} where
  -- A new row of `accounts`: the cash it starts with, and the columns of `fee_kwargs`.
  abbrev pub new_account : ℕ → ℕ → Text → F → Fees F → Account F
  new_account id now name initial_cash fees = record {
    id = id;
    name = name;
    cash = initial_cash;
    initial_cash = initial_cash;
    commission_rate = fees.commission_rate;
    commission_min = fees.commission_min;
    stamp_tax_rate = fees.stamp_tax_rate;
    slippage_bps = fees.slippage_bps;
    lot_size = fees.lot_size;
    status = codes "active";
    created_at = now;
  }

  unfoldable pub create_account : ℕ → ℕ → Text → F → Fees F → Exec (Db F) PaperError (Account F)
  create_account id now name initial_cash fees db =
      if any (λ b. text_eq b.name name) db.accounts then (err (duplicate_account name), db) else (
        ok (new_account id now name initial_cash fees),
        record db { accounts = db.accounts ++ new_account id now name initial_cash fees ∷ [] },
      )

  abbrev pub new_order : ℕ → ℕ → ℕ → Draft → Order F
  new_order id now account d = record {
    id = id;
    account_id = account;
    symbol = d.symbol;
    side = d.side;
    quantity = d.quantity;
    status = pending;
    source = d.source;
    note = d.note;
    submitted_at = now;
    fill_date = none;
    fill_price = none;
    fill_amount = none;
    commission = none;
    reject_reason = none;
  }

  -- A sale of exactly what is held may be an odd lot.
  unfoldable pub is_full_exit : Draft → Option (Position F) → Bool
  is_full_exit d none = false
  is_full_exit d (some p) = is_sell d.side && eqb_ℤ p.quantity d.quantity

  -- An odd lot that is no full exit.
  abbrev pub is_odd_lot : ℕ → Draft → Account F → Db F → Bool
  is_odd_lot account d a db =
      not (mod_ℤ d.quantity a.lot_size == 0)
      && not (is_full_exit d (get_position account d.symbol db.positions))

  unfoldable pub place_with : ℕ → ℕ → ℕ → Draft → Account F → Exec (Db F) PaperError (Order F)
  place_with id now account d a db =
      if a.lot_size == 0
      then (err zero_lot, db)
      else if is_odd_lot account d a db
      then (err (odd_lot a.lot_size), db)
      else (
        ok (new_order id now account d),
        record db { orders = db.orders ++ new_order id now account d ∷ [] },
      )

  unfoldable pub place_for :
      ℕ → ℕ → ℕ → Draft → Option (Account F) → Exec (Db F) PaperError (Order F)
  place_for id now account d none db = (err (unknown_account account), db)
  place_for id now account d (some a) db = place_with id now account d a db

  unfoldable pub place_order : ℕ → ℕ → ℕ → Draft → Exec (Db F) PaperError (Order F)
  place_order id now account d db =
      if not (is_buy d.side || is_sell d.side)
      then (err bad_side, db)
      else if leb_ℤ d.quantity (pos 0)
      then (err bad_quantity, db)
      else place_for id now account d (get_account account db.accounts) db

  -- Newest first; an empty status is no filter.
  unfoldable pub list_orders : ℕ → Option Text → ℕ → List (Order F) → List (Order F)
  list_orders account status limit rows =
      let newest =
        reverse (sort_by (λ o. o.submitted_at) (select (λ o. o.account_id == account) rows)) in
      elim status [
        | none ↦ take limit newest
        | some [] ↦ take limit newest
        | some (c ∷ s) ↦ take limit (select (λ o. text_eq (status_text o.status) (c ∷ s)) newest)
      ]
