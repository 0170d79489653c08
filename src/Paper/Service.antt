-- ===== src/Paper/Service.antt =====
-- packages/papertrade/src/signal_papertrade/service.py, in one session: matching, settlement, days.
-- The objects of a session are the rows themselves, so each step reads and writes the tables.
use signal_lab.Common.{
  ℕ, ◌+◌, ◌/◌, ◌&&◌, Option, none, some, is_some, List, [], ◌∷◌, leb, map, if◌then◌else◌, Result,
  ok, err,
}
use signal_lab.Common.Int.{ℤ, pos, ◌+ℤ◌, ◌-ℤ◌, ltb_ℤ}
use signal_lab.Common.Text.{Text, codes}
use signal_lab.Common.Float.{Floats}
use signal_lab.Paper.Models.{
  Account, Order, filled, rejected, Reason, no_quote, Position, NavPoint, Db,
}
use signal_lab.Paper.Engine.{
  Fill, is_buy, try_fill_with_limits, new_avg_cost, Metrics, performance_metrics,
}
use signal_lab.Paper.Repo.{
  get_account, flush_account, list_accounts, flush_order, pending_orders, get_position,
  list_positions, upsert_position, upsert_nav, list_nav,
}
use signal_lab.Paper.Ports.{PriceReader}

-- `submitted_at.astimezone(CN).date()`: China keeps one offset, eight hours ahead of UTC.
abbrev pub cn_day : ℕ → ℕ
cn_day seconds = (seconds + 28800) / 86400

-- 000300.SH
abbrev pub benchmark : Text
benchmark = codes "000300.SH"

-- How one round of the matching loop ends; `ignored` is an order with no account.
pub data Round : Type 0 where
  was_filled was_rejected was_skipped was_ignored : Round

pub record Counts : Type 0 where
  pub filled : ℕ
  pub rejected : ℕ
  pub skipped : ℕ

abbrev pub count : Round → Counts → Counts
count was_filled c = record c { filled = c.filled + 1 }
count was_rejected c = record c { rejected = c.rejected + 1 }
count was_skipped c = record c { skipped = c.skipped + 1 }
count was_ignored c = c

abbrev pub no_counts : Counts
no_counts = record { filled = 0; rejected = 0; skipped = 0 }

module _ {F : Type 0} where
  -- `pos.quantity if pos else 0`
  abbrev pub quantity_of : Option (Position F) → ℤ
  quantity_of none = pos 0
  quantity_of (some p) = p.quantity

  unfoldable pub reject_order : Reason → Order F → Db F → Db F
  reject_order why o db = record db {
    orders = flush_order (record o { status = rejected; reject_reason = some why }) db.orders;
  }

  abbrev pub filled_order : ℕ → Fill F → Order F → Order F
  filled_order date f o = record o {
    status = filled;
    fill_date = some date;
    fill_price = some f.price;
    fill_amount = some f.amount;
    commission = some f.commission;
  }

module _ {F : Type 0} ⦃fl : Floats F⦄ where
  abbrev pub cost_of : Option (Position F) → F
  cost_of none = fl.lit 0 0
  cost_of (some p) = p.avg_cost

  unfoldable pub cash_after : Order F → Fill F → F → F
  cash_after o f cash =
      if is_buy o.side
      then fl.sub (fl.sub cash f.amount) f.commission
      else fl.sub (fl.add cash f.amount) f.commission

  unfoldable pub quantity_after : Order F → ℤ → ℤ
  quantity_after o held = if is_buy o.side then held +ℤ o.quantity else held -ℤ o.quantity

  unfoldable pub cost_after : Order F → Fill F → Option (Position F) → F
  cost_after o f p =
      if is_buy o.side
      then new_avg_cost (quantity_of p) (cost_of p) o.quantity f.price f.commission
      else if is_some p && ltb_ℤ (pos 0) (quantity_of p -ℤ o.quantity)
      then cost_of p
      else fl.lit 0 0

  unfoldable pub fill_order : ℕ → Order F → Account F → Fill F → Db F → Db F
  fill_order date o a f db =
      let p = get_position o.account_id o.symbol db.positions in
      record db {
        accounts = flush_account (record a { cash = cash_after o f a.cash }) db.accounts;
        positions =
            upsert_position o.account_id o.symbol (quantity_after o (quantity_of p))
              (cost_after o f p) db.positions;
        orders = flush_order (filled_order date f o) db.orders;
      }

  -- The result of `try_fill_with_limits` for an order, at the tables as they stand.
  unfoldable pub attempt :
      PriceReader F → ℕ → Order F → Account F → F → Db F → Result Reason (Fill F)
  attempt prices date o a open_price db =
      try_fill_with_limits a o.symbol o.side o.quantity open_price
        (prices.get_prev_close o.symbol date) a.cash
        (quantity_of (get_position o.account_id o.symbol db.positions))

  unfoldable pub conclude : ℕ → Order F → Account F → Result Reason (Fill F) → Db F → Round × Db F
  conclude date o a (err why) db = (was_rejected, reject_order why o db)
  conclude date o a (ok f) db = (was_filled, fill_order date o a f db)

  unfoldable pub match_quoted :
      PriceReader F → ℕ → Order F → Account F → Option (F × F) → Db F → Round × Db F
  match_quoted prices date o a none db = (was_rejected, reject_order no_quote o db)
  match_quoted prices date o a (some (open_price, close_price)) db =
      conclude date o a (attempt prices date o a open_price db) db

  unfoldable pub match_known :
      PriceReader F → ℕ → Order F → Option (Account F) → Db F → Round × Db F
  match_known prices date o none db = (was_ignored, db)
  match_known prices date o (some a) db =
      match_quoted prices date o a (prices.get_open_close o.symbol date) db

  -- One round of the loop of `match_pending`.
  unfoldable pub match_one : PriceReader F → ℕ → Order F → Db F → Round × Db F
  match_one prices date o db =
      if leb date (cn_day o.submitted_at)
      then (was_skipped, db)
      else match_known prices date o (get_account o.account_id db.accounts) db

  unfoldable pub match_all : PriceReader F → ℕ → List (Order F) → Counts × Db F → Counts × Db F
  match_all prices date [] (c, db) = (c, db)
  match_all prices date (o ∷ os) (c, db) =
      let (r, db') = match_one prices date o db in match_all prices date os (count r c, db')

  unfoldable pub match_pending : PriceReader F → ℕ → Option ℕ → Db F → Counts × Db F
  unfolding pending_orders
  match_pending prices date account db =
      match_all prices date (pending_orders account db.orders) (no_counts, db)

  -- The close of the day, or the last close before it; a symbol with neither is passed over.
  unfoldable pub mark_price : PriceReader F → Text → ℕ → Option F
  mark_price prices symbol date = elim (prices.get_open_close symbol date) [
    | some (open_price, close_price) ↦ some close_price
    | none ↦ prices.get_prev_close symbol date
  ]

  unfoldable pub market_value : PriceReader F → ℕ → List (Position F) → F → F
  unfolding mark_price
  market_value prices date [] mv = mv
  market_value prices date (p ∷ ps) mv =
      market_value prices date ps (elim (mark_price prices p.symbol date) [
        | none ↦ mv
        | some px ↦ fl.add mv (fl.mul (fl.of_int p.quantity) px)
      ])

  unfoldable pub nav_point : PriceReader F → ℕ → Db F → Account F → NavPoint F
  unfolding list_positions
  nav_point prices date db a =
      let mv = market_value prices date (list_positions a.id db.positions) (fl.lit 0 0) in
      record {
        account_id = a.id;
        trade_date = date;
        cash = a.cash;
        market_value = mv;
        nav = fl.add a.cash mv;
        bench_nav = mark_price prices benchmark date;
      }

  unfoldable pub settle_all : PriceReader F → ℕ → List (Account F) → ℕ × Db F → ℕ × Db F
  settle_all prices date [] (n, db) = (n, db)
  settle_all prices date (a ∷ rest) (n, db) =
      settle_all prices date rest
        (n + 1, record db { navs = upsert_nav (nav_point prices date db a) db.navs })

  -- The accounts that `settle` goes over.
  abbrev pub to_settle : Option ℕ → Db F → List (Account F)
  to_settle none db = list_accounts db.accounts
  to_settle (some id) db = elim (get_account id db.accounts) [ none ↦ [] | some a ↦ a ∷ [] ]

  unfoldable pub settle : PriceReader F → ℕ → Option ℕ → Db F → ℕ × Db F
  settle prices date account db = settle_all prices date (to_settle account db) (0, db)

  unfoldable pub run_day : PriceReader F → ℕ → Option ℕ → Db F → Counts × ℕ × Db F
  run_day prices date account db =
      let (c, db') = match_pending prices date account db in
      let (n, db'') = settle prices date account db' in (c, n, db'')

  unfoldable pub run_days : PriceReader F → ℕ → List ℕ → ℕ × ℕ × ℕ × Db F → ℕ × ℕ × ℕ × Db F
  run_days prices account [] acc = acc
  run_days prices account (d ∷ ds) (days, fills, rejects, db) =
      let (c, _, db') = run_day prices d (some account) db in
      run_days prices account ds (days + 1, fills + c.filled, rejects + c.rejected, db')

  -- days, filled, rejected
  unfoldable pub auto_run_through : PriceReader F → ℕ → ℕ → ℕ → Db F → ℕ × ℕ × ℕ × Db F
  auto_run_through prices account start end db =
      run_days prices account (prices.list_trade_dates start end) (0, 0, 0, db)

  -- The benchmark's values, if every point has one.
  abbrev benches_of : List (NavPoint F) → Option (List F)
  benches_of [] = some []
  benches_of (p ∷ ps) = elim p.bench_nav [
    | none ↦ none
    | some b ↦ elim (benches_of ps) [ none ↦ none | some bs ↦ some (b ∷ bs) ]
  ]

  -- The benchmark scaled to start at the first value of the account.
  abbrev rebase : F → Option (List F) → Option (List F)
  rebase n0 none = none
  rebase n0 (some []) = none
  rebase n0 (some (b0 ∷ bs)) =
      if fl.eq b0 (fl.lit 0 0) then none else some (map (λ b. fl.mul n0 (fl.div b b0)) (b0 ∷ bs))

  abbrev performance_of : List (NavPoint F) → Metrics F
  performance_of [] = performance_metrics [] none 242
  performance_of (p ∷ ps) =
      performance_metrics (map (λ q. q.nav) (p ∷ ps)) (rebase p.nav (benches_of (p ∷ ps))) 242

  unfoldable pub account_performance : ℕ → Db F → Metrics F
  account_performance account db = performance_of (list_nav account db.navs)
