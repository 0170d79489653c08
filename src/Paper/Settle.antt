-- ===== src/Paper/Settle.antt =====
-- The settlement (signal_papertrade/service.py, `settle`): one net value for each account and day.
use signal_lab.Common.{
  ℕ, ◌+◌, ◌==◌, ◌≡◌, ◌≢◌, refl, ◌∙◌, true, false, none, some, ◌&&◌, List, [], ◌∷◌, arith, All,
  All-map, if◌then◌else◌, Distinct, Distinct-sort_by,
}
use signal_lab.Common.Float.{Floats}
use signal_lab.Paper.Models.{Account, NavPoint, Db}
use signal_lab.Paper.Repo.{get_nav, upsert_nav, list_accounts}
use signal_lab.Paper.Ports.{PriceReader}
use signal_lab.Paper.Valued.{Values, nav_point-Values}
use signal_lab.Paper.Service.{nav_point, settle_all, settle}

module _ {F : Type 0} where
  get_nav-upsert :
      (k d : ℕ) (n : NavPoint F) (rows : List (NavPoint F))
      → get_nav k d (upsert_nav n rows)
        ≡ (if (n.account_id == k) && (n.trade_date == d) then some n else get_nav k d rows)
  unfolding get_nav upsert_nav
  get_nav-upsert k d n [] = ground arith
  get_nav-upsert k d n (p ∷ rows) = ground (arith, get_nav-upsert k d n rows)

  abbrev pub account_id : Account F → ℕ
  account_id a = a.id

key_off : (a k date d : ℕ) → (d ≡ date → k ≢ a) → ((a == k) && (date == d)) ≡ false
key_off a k date d h = ground arith

key_on : (a date : ℕ) → ((a == a) && (date == date)) ≡ true
key_on a date = ground arith

module _ {F : Type 0} ⦃fl : Floats F⦄ (prices : PriceReader F) (date : ℕ) where
  -- The navs after the accounts of a list.
  abbrev after : List (Account F) → ℕ → Db F → List (NavPoint F)
  after as' n db = (settle_all prices date as' (n, db)).1.navs

  settle-All_others :
      (k d : ℕ) (as' : List (Account F)) (n : ℕ) (db : Db F)
      → ((d ≡ date) → All (λ b. k ≢ b.id) as')
      → get_nav k d (after as' n db) ≡ get_nav k d db.navs
  unfolding settle_all nav_point
  settle-All_others k d [] n db h = refl
  settle-All_others k d (b ∷ rest) n db h =
      settle-All_others k d rest (n + 1) _ (λ e. (h e).1)
      ∙ get_nav-upsert k d (nav_point prices date db b) db.navs
      ∙ rw (key_off b.id k date d (λ e. (h e).0))

  settle_all_keeps :
      (as' : List (Account F)) (n : ℕ) (db : Db F)
      → let db' = (settle_all prices date as' (n, db)).1 in
        (db'.accounts ≡ db.accounts) × (db'.orders ≡ db.orders) × (db'.positions ≡ db.positions)
  unfolding settle_all
  settle_all_keeps [] n db = (refl, refl, refl)
  settle_all_keeps (a ∷ rest) n db = settle_all_keeps rest (n + 1) _

  settle-All_points :
      (as' : List (Account F)) (n : ℕ) (db : Db F)
      → Distinct account_id as'
      → All (λ a. get_nav a.id date (after as' n db) ≡ some (nav_point prices date db a)) as'
  unfolding settle_all nav_point
  settle-All_points [] n db h = tt
  settle-All_points (a ∷ rest) n db h = (
    settle-All_others a.id date rest (n + 1) _ (λ _. h.0)
        ∙ get_nav-upsert a.id date (nav_point prices date db a) db.navs
        ∙ rw (key_on a.id date),
    settle-All_points rest (n + 1) _ h.1,
  )

  -- A settlement of all accounts on a day leaves for each of them its point, whatever was stored for
  -- that day: the cash, the sum of its holdings at the close of the day (or the last close before, and
  -- without those that have neither), the two added, and the benchmark. It
  -- leaves all other days, the accounts, the orders and the positions alone.
  pub settle_points :
      (db : Db F)
      → Distinct account_id db.accounts
      → let db' = (settle prices date none db).1 in
        All
          (λ a.
            (n : NavPoint F) × (get_nav a.id date db'.navs ≡ some n) × Values prices date db a n)
          (list_accounts db.accounts)
        × ((k d : ℕ) → d ≢ date → get_nav k d db'.navs ≡ get_nav k d db.navs)
        × (db'.accounts ≡ db.accounts)
        × (db'.orders ≡ db.orders)
        × (db'.positions ≡ db.positions)
  unfolding settle
  settle_points db h =
      let as' = list_accounts db.accounts in
      let same = settle_all_keeps as' 0 db in
      (
        All-map as'
            (λ a stored. (nav_point prices date db a, stored, nav_point-Values prices date db a))
            (settle-All_points as' 0 db
              (Distinct-sort_by account_id (λ a. a.created_at) db.accounts h)),
        λ k d ne. settle-All_others k d as' 0 db (λ e. absurd (ne e)),
        same.0,
        same.1,
        same.2,
      )
