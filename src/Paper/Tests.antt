-- ===== src/Paper/Tests.antt =====
-- Runs of the simulated account over ten-thousandths, and the theorems at such inputs.
use signal_lab.Common.{
  ◌++◌, ℕ, ◌+◌, ◌*◌, ◌<◌, ◌≤◌, ◌==◌, ◌≡◌, ◌≢◌, ◌⊎◌, refl, Bool, true, false, Distinct, Option, none,
  some, List, [], ◌∷◌, arith, All, Result, ok, err, if◌then◌else◌, ◌||◌, ◌&&◌,
}
use signal_lab.Common.Int.{ℤ, pos, negsuc, ◌+ℤ◌, ◌-ℤ◌, ◌≤ℤ◌}
use signal_lab.Common.Text.{codes, text_eq, Text}
use signal_lab.Common.Fixed.{fixed, fixed-IsOrdered}
use signal_lab.Paper.Models.{pending, NavPoint, Account, Fees, default_fees, Order, Db}
use signal_lab.Paper.Engine.{
  Fill, try_fill, try_fill_with_limits, performance_metrics, drawdown, next_trading_day, is_buy,
  is_sell, at_upper, at_lower,
}
use signal_lab.Paper.Repo.{
  Draft, place_order, create_account, new_account, get_order, get_account, get_nav, new_order,
  place_for, place_with, list_accounts,
}
use signal_lab.Paper.Ports.{PriceReader}
use signal_lab.Paper.Service.{match_pending, cn_day, settle, nav_point, fill_order, filled_order}
use signal_lab.Paper.Reach.{empty, Step, Reach, Reach-IsSound}
use signal_lab.Paper.Invariant.{IsSound}
use signal_lab.Paper.Reconcile.{held}
use signal_lab.Paper.Decided.{match_pending_decides}
use signal_lab.Paper.Filled.{fill_order_effect, fill-IsCovered, IsCovered}
use signal_lab.Paper.Measures.{Bounds, Attains, max_drawdown_exact}
use signal_lab.Paper.Valued.{Values}
use signal_lab.Paper.Settle.{settle_points, account_id}
use signal_lab.Paper.Placing.{LotRule, place_order_ok}

-- Every symbol opens at 10 and closes at 11.
abbrev prices : PriceReader ℤ
prices = record {
  get_open_close = λ symbol date. some (pos 100000, pos 110000);
  get_prev_close = λ symbol date. some (pos 100000);
  list_trade_dates = λ start end. [];
}

abbrev fees : Fees ℤ
fees = record default_fees { slippage_bps = pos 0 }

abbrev account : Account ℤ
account = new_account 1 0 (codes "main") (pos 1000000000) fees

abbrev draft : Draft
draft = record {
  symbol = codes "600519.SH";
  side = codes "buy";
  quantity = pos 200;
  source = codes "manual";
  note = [];
}

abbrev opened : Db ℤ
opened = (create_account 1 0 (codes "main") (pos 1000000000) fees empty).1

abbrev placed : Db ℤ
placed = (place_order 7 0 1 draft opened).1

abbrev matched_db : Db ℤ
matched_db = (match_pending prices 3 none placed).1

abbrev order : Order ℤ
order = new_order 7 0 1 draft

Reach-IsSound_example : IsSound matched_db
unfolding create_account signal_lab.Common.any
Reach-IsSound_example = Reach-IsSound prices (
    Reach.next
      (Reach.next
        (Reach.next Reach.here (Step.create 1 0 (codes "main") (pos 1000000000) fees empty))
        (Step.place 7 0 1 draft opened tt))
      (Step.matched 3 none placed))

abbrev bought : Fill ℤ
bought = record { price = pos 100000; amount = pos 20000000; commission = pos 50000 }

-- The order of 200 shares at 10 is filled for 2000 and the minimum commission of 5.
filled_run : get_order 7 matched_db.orders ≡ some (filled_order 3 bought order)
unfolding place_order text_eq place_for get_account create_account signal_lab.Common.any place_with
    get_order match_pending signal_lab.Paper.Service.match_all signal_lab.Common.sort_by
    signal_lab.Common.select signal_lab.Paper.Service.match_one signal_lab.Paper.Service.match_known
    signal_lab.Paper.Service.match_quoted signal_lab.Paper.Service.conclude
    signal_lab.Paper.Service.attempt ◌+ℤ◌ ◌-ℤ◌ signal_lab.Common.insert_by
    signal_lab.Common.Text.before signal_lab.Common.Text.starts_with
    signal_lab.Paper.Engine.apply_slippage at_lower at_upper signal_lab.Paper.Engine.calc_commission
    signal_lab.Paper.Engine.limit_band signal_lab.Paper.Engine.new_avg_cost try_fill
    try_fill_with_limits signal_lab.Paper.Repo.flush_account signal_lab.Paper.Repo.flush_order
    signal_lab.Paper.Repo.get_position signal_lab.Paper.Repo.is_full_exit
    signal_lab.Paper.Repo.pending_orders signal_lab.Paper.Repo.upsert_position
    signal_lab.Paper.Service.cash_after signal_lab.Paper.Service.cost_after fill_order
    signal_lab.Paper.Service.quantity_after signal_lab.Paper.Service.reject_order
filled_run = refl

held_run : held 1 (codes "600519.SH") matched_db ≡ pos 200
unfolding place_order text_eq place_for get_account create_account signal_lab.Common.any place_with
    get_order match_pending signal_lab.Paper.Service.match_all signal_lab.Common.sort_by
    signal_lab.Common.select signal_lab.Paper.Service.match_one signal_lab.Paper.Service.match_known
    signal_lab.Paper.Service.match_quoted signal_lab.Paper.Service.conclude
    signal_lab.Paper.Service.attempt ◌+ℤ◌ ◌-ℤ◌ signal_lab.Common.insert_by
    signal_lab.Common.Text.before signal_lab.Common.Text.starts_with
    signal_lab.Paper.Engine.apply_slippage at_lower at_upper signal_lab.Paper.Engine.calc_commission
    signal_lab.Paper.Engine.limit_band signal_lab.Paper.Engine.new_avg_cost try_fill
    try_fill_with_limits signal_lab.Paper.Repo.flush_account signal_lab.Paper.Repo.flush_order
    signal_lab.Paper.Repo.get_position signal_lab.Paper.Repo.is_full_exit
    signal_lab.Paper.Repo.pending_orders signal_lab.Paper.Repo.upsert_position
    signal_lab.Paper.Service.cash_after signal_lab.Paper.Service.cost_after fill_order
    signal_lab.Paper.Service.quantity_after signal_lab.Paper.Service.reject_order
held_run = refl

-- On the day of its submission the order stays pending.
abbrev waiting : Db ℤ
waiting = (match_pending prices 0 none placed).1

match_pending_decides_example : (0 ≤ cn_day 0) ⊎ (get_account 1 waiting.accounts ≡ none)
unfolding place_order text_eq place_for get_account create_account signal_lab.Common.any place_with
    get_order match_pending signal_lab.Paper.Service.match_all signal_lab.Common.sort_by
    signal_lab.Common.select signal_lab.Paper.Service.match_one
match_pending_decides_example = match_pending_decides prices 0 placed (tt, tt) 7 order refl refl

abbrev after_fill : Db ℤ
after_fill = fill_order 3 order account bought placed

fill_order_effect_example :
    (get_order 7 after_fill.orders ≡ some (filled_order 3 bought order))
    × ((k : ℕ) → 7 ≢ k → get_order k after_fill.orders ≡ get_order k placed.orders)
    × ((k : ℕ)
        → get_account k after_fill.accounts ≡ (
            if 1 == k
            then some (record account { cash = pos 979950000 })
            else get_account k placed.accounts))
    × ((k : ℕ) (s : Text)
        → held k s after_fill
          ≡ (if (1 == k) && text_eq (codes "600519.SH") s then pos 200 else held k s placed))
unfolding get_order place_order text_eq place_for get_account create_account signal_lab.Common.any
    place_with ◌-ℤ◌ ◌+ℤ◌ signal_lab.Paper.Repo.get_position
fill_order_effect_example = fill_order_effect 3 order account bought placed (refl, refl) refl

fill-IsCovered_example :
    IsCovered account
      (codes "600519.SH")
      (codes "buy")
      (pos 200)
      (pos 100000)
      (some (pos 100000))
      (pos 1000000000)
      (pos 0)
      bought
unfolding try_fill_with_limits text_eq at_upper ◌+ℤ◌ ◌-ℤ◌ signal_lab.Common.Text.starts_with
    signal_lab.Common.Text.before signal_lab.Paper.Engine.limit_band try_fill
    signal_lab.Paper.Engine.apply_slippage signal_lab.Paper.Engine.calc_commission at_lower
fill-IsCovered_example =
    fill-IsCovered fixed-IsOrdered account (codes "600519.SH") (codes "buy") (pos 200) (pos 100000)
      (some (pos 100000)) (pos 1000000000) (pos 0) bought refl

abbrev series : List ℤ
series = pos 8 ∷ pos 12 ∷ pos 6 ∷ []

max_drawdown_exact_example :
    (fixed.le (negsuc 4999) (fixed.lit 0 0) ≡ true)
    × Bounds (negsuc 4999) (pos 8) series
    × ((negsuc 4999 ≡ fixed.lit 0 0) ⊎ Attains (negsuc 4999) (pos 8) series)
unfolding performance_metrics drawdown ◌-ℤ◌
max_drawdown_exact_example =
    max_drawdown_exact fixed-IsOrdered (pos 8) (pos 12 ∷ pos 6 ∷ []) none 242 (negsuc 4999) refl

abbrev calendar : List ℕ
calendar = 3 ∷ 4 ∷ 7 ∷ []

one_account : Distinct account_id matched_db.accounts
unfolding place_order text_eq place_for get_account create_account signal_lab.Common.any place_with
    get_order match_pending signal_lab.Paper.Service.match_all signal_lab.Common.sort_by
    signal_lab.Common.select signal_lab.Paper.Service.match_one signal_lab.Paper.Service.match_known
    signal_lab.Paper.Service.match_quoted signal_lab.Paper.Service.conclude
    signal_lab.Paper.Service.attempt ◌+ℤ◌ ◌-ℤ◌ signal_lab.Common.insert_by
    signal_lab.Common.Text.before signal_lab.Common.Text.starts_with
    signal_lab.Paper.Engine.apply_slippage at_lower at_upper signal_lab.Paper.Engine.calc_commission
    signal_lab.Paper.Engine.limit_band signal_lab.Paper.Engine.new_avg_cost try_fill
    try_fill_with_limits signal_lab.Paper.Repo.flush_account signal_lab.Paper.Repo.flush_order
    signal_lab.Paper.Repo.get_position signal_lab.Paper.Repo.is_full_exit
    signal_lab.Paper.Repo.pending_orders signal_lab.Paper.Repo.upsert_position
    signal_lab.Paper.Service.cash_after signal_lab.Paper.Service.cost_after fill_order
    signal_lab.Paper.Service.quantity_after signal_lab.Paper.Service.reject_order
one_account = (tt, tt)

settle_points_example :
    let db' = (settle prices 3 none matched_db).1 in
    All
      (λ a. (n : NavPoint ℤ) × (get_nav a.id 3 db'.navs ≡ some n) × Values prices 3 matched_db a n)
      (list_accounts matched_db.accounts)
    × ((k d : ℕ) → d ≢ 3 → get_nav k d db'.navs ≡ get_nav k d matched_db.navs)
    × (db'.accounts ≡ matched_db.accounts)
    × (db'.orders ≡ matched_db.orders)
    × (db'.positions ≡ matched_db.positions)
settle_points_example = settle_points prices 3 matched_db one_account

place_order_ok_example :
    (is_buy draft.side || is_sell draft.side ≡ true)
    × (pos 1 ≤ℤ pos 200)
    × ((a : Account ℤ) × (get_account 1 opened.accounts ≡ some a)
        × (a.lot_size ≢ 0)
        × LotRule 1 draft a opened
        × (order ≡ new_order 7 0 1 draft))
    × ((place_order 7 0 1 draft opened).1 ≡ record opened { orders = opened.orders ++ order ∷ [] })
    × (order.status ≡ pending)
unfolding place_order text_eq place_for get_account create_account signal_lab.Common.any place_with
    signal_lab.Paper.Repo.is_full_exit signal_lab.Paper.Repo.get_position
place_order_ok_example = place_order_ok 7 0 1 draft opened order refl
