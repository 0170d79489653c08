-- ===== src/Tracker/EventStudy.antt =====
-- packages/tracker/src/signal_tracker/event_study.py: the price that a recommendation starts from,
-- and the returns of the windows after it. A table of bars is the list of its rows, in ascending
-- order; a date is a number of days, and a time a number of seconds on the clock of the market.
use signal_lab.Common.{
  ℕ, ◌+◌, ◌*◌, ◌/◌, ◌%◌, ◌==◌, Bool, true, false, ltb, leb, Option, none, some, List, [], ◌∷◌, map,
  select, take, length, last_or, if◌then◌else◌,
}
use signal_lab.Common.Float.{Floats, fmax, fmin}
use signal_lab.Tracker.Models.{Rule, close_same_day, open_next_day, WindowPerf}

pub record Bar (F : Type 0) : Type 0 where
  pub trade_date : ℕ
  pub open_price : F
  pub high : F
  pub low : F
  pub close : F

pub record Baseline (F : Type 0) : Type 0 where
  pub date : ℕ
  pub price : F
  pub rule : Rule

abbrev pub windows : List ℕ
windows = 1 ∷ 3 ∷ 5 ∷ 10 ∷ 20 ∷ 60 ∷ []

-- `datetime.date` and `datetime.time`
abbrev pub day_of : ℕ → ℕ
day_of t = t / 86400

abbrev pub second_of : ℕ → ℕ
second_of t = t % 86400

-- MARKET_CLOSE, 15:00
abbrev pub is_after_close : ℕ → Bool
is_after_close t = leb 54000 (second_of t)

abbrev pub first_day : List ℕ → Option ℕ
first_day [] = none
first_day (d ∷ days) = some d

module _ {F : Type 0} where
  -- Whether a recommendation of that time may start at a day.
  abbrev pub may_start : ℕ → Bar F → Bool
  may_start t bar =
      if is_after_close t then ltb (day_of t) bar.trade_date else leb (day_of t) bar.trade_date

  abbrev pub price_at : ℕ → Bar F → Baseline F
  price_at t bar =
      if is_after_close t
      then record { date = bar.trade_date; price = bar.open_price; rule = open_next_day }
      else record { date = bar.trade_date; price = bar.close; rule = close_same_day }

  -- `bars.loc[bars["trade_date"] == d].iloc[0]`, for the first candidate day.
  abbrev pub first_at : ℕ → List (Bar F) → Option (Bar F)
  first_at d [] = none
  first_at d (bar ∷ bars) = if bar.trade_date == d then some bar else first_at d bars

  abbrev pub start_at : ℕ → List (Bar F) → Option (Bar F) → Option (Baseline F)
  start_at t bars none = none
  start_at t bars (some bar) = some (price_at t bar)

  abbrev pub at_first : List (Bar F) → Option ℕ → Option (Bar F)
  at_first bars none = none
  at_first bars (some d) = first_at d bars

  unfoldable pub anchor_baseline : ℕ → List (Bar F) → Option (Baseline F)
  anchor_baseline t bars =
      start_at t bars
        (at_first bars (first_day (map (λ b. b.trade_date) (select (may_start t) bars))))

  -- `bars[bars["trade_date"] >= date]`
  abbrev pub since : ℕ → List (Bar F) → List (Bar F)
  since date bars = select (λ b. leb date b.trade_date) bars

  -- The entry of a dictionary that is filled in the order of the rows.
  unfoldable pub last_at : ℕ → List (Bar F) → Option (Bar F)
  last_at d [] = none
  last_at d (bar ∷ bars) = elim (last_at d bars) [
    | some b ↦ some b
    | none ↦ if bar.trade_date == d then some bar else none
  ]

  abbrev no_perf : ℕ → Option ℕ → WindowPerf F
  no_perf w as_of = record {
    window_days = w;
    abs_return = none;
    excess_return = none;
    max_drawdown = none;
    max_runup = none;
    hit_target_first = none;
    hit_stop_first = none;
    as_of_date = as_of;
  }

-- The first of the two prices that was met, in `_hit_flags`.
pub data Hit : Type 0 where
  unmet on_target on_stop : Hit

abbrev pub is_on_target : Hit → Bool
is_on_target on_target = true
is_on_target _ = false

abbrev pub is_on_stop : Hit → Bool
is_on_stop on_stop = true
is_on_stop _ = false

module _ {F : Type 0} ⦃fl : Floats F⦄ where
  abbrev pub reaches : Option F → Bar F → Bool
  reaches none bar = false
  reaches (some target) bar = fl.le target bar.high

  abbrev pub falls_to : Option F → Bar F → Bool
  falls_to none bar = false
  falls_to (some stop) bar = fl.le bar.low stop

  -- The body of the loop: a hit that was made stays.
  abbrev pub next_hit : Option F → Option F → Hit → Bar F → Hit
  next_hit target stop unmet bar =
      if reaches target bar then on_target else if falls_to stop bar then on_stop else unmet
  next_hit target stop first bar = first

  unfoldable pub first_hit : Option F → Option F → Hit → List (Bar F) → Hit
  first_hit target stop first [] = first
  first_hit target stop first (bar ∷ bars) =
      first_hit target stop (next_hit target stop first bar) bars

  abbrev pub flag_for : Option F → Bool → Option Bool
  flag_for none b = none
  flag_for (some x) b = some b

  unfoldable pub hit_flags : List (Bar F) → Option F → Option F → Option Bool × Option Bool
  unfolding first_hit
  hit_flags bars target stop =
      let first = first_hit target stop unmet bars in
      (flag_for target (is_on_target first), flag_for stop (is_on_stop first))

  -- `close / base - 1.0`
  abbrev pub return_of : F → Bar F → F
  return_of base bar = fl.sub (fl.div bar.close base) (fl.lit 1 0)

  -- `rets.max()`
  unfoldable pub highest : F → List F → F
  highest m [] = m
  highest m (r ∷ rets) = highest (fmax m r) rets

  -- `(rets - rets.cummax()).min()`, from the running peak and minimum.
  unfoldable pub lowest_fall : F → F → List F → F
  lowest_fall peak m [] = m
  lowest_fall peak m (r ∷ rets) =
      let peak' = fmax peak r in lowest_fall peak' (fmin m (fl.sub r peak')) rets

  -- The return of the benchmark at a day: none without bars, or if its first close is zero.
  abbrev pub bench_return : ℕ → F → Option (Bar F) → Option F
  bench_return d b0 none = none
  bench_return d b0 (some bar) = if fl.eq b0 (fl.lit 0 0) then none else some (return_of b0 bar)

  unfoldable pub bench_at : ℕ → List (Bar F) → Option F
  unfolding last_at
  bench_at d [] = none
  bench_at d (b ∷ bars) = bench_return d b.close (last_at d (b ∷ bars))

  abbrev pub minus_bench : F → Option F → Option F
  minus_bench r none = none
  minus_bench r (some b) = some (fl.sub r b)

  -- The results of a window whose bars are all there, the first of them the day of the baseline.
  unfoldable pub full_perf :
      ℕ → F → List (Bar F) → Option F → Option F → Bar F → List (Bar F) → WindowPerf F
  unfolding highest lowest_fall hit_flags bench_at
  full_perf w base bench target stop bar window =
      let r0 = return_of base bar in
      let rets = map (return_of base) window in
      let last = last_or bar window in
      let r = return_of base last in
      let flags = hit_flags (bar ∷ window) target stop in
      record {
        window_days = w;
        abs_return = some r;
        excess_return = minus_bench r (bench_at last.trade_date bench);
        max_drawdown = some (lowest_fall r0 (fl.sub r0 r0) rets);
        max_runup = some (highest r0 rets);
        hit_target_first = flags.0;
        hit_stop_first = flags.1;
        as_of_date = some last.trade_date;
      }

  -- One round of the loop over WINDOWS; T+w is the w-th day after that of the baseline.
  unfoldable pub window_perf :
      ℕ → F → List (Bar F) → Option F → Option F → Bar F → List (Bar F) → WindowPerf F
  unfolding full_perf
  window_perf w base bench target stop bar path =
      if ltb (length path) w
      then no_perf w (some (last_or bar path).trade_date)
      else full_perf w base bench target stop bar (take w path)

  abbrev pub perfs_from :
      Baseline F → List (Bar F) → Option F → Option F → List (Bar F) → ℕ → WindowPerf F
  perfs_from start bench target stop [] w = no_perf w none
  perfs_from start bench target stop (bar ∷ path) w =
      if fl.eq bar.close (fl.lit 0 0)
      then no_perf w none
      else window_perf w start.price (since start.date bench) target stop bar path

  unfoldable pub compute_windows :
      List (Bar F) → Baseline F → List (Bar F) → Option F → Option F → List (WindowPerf F)
  unfolding window_perf
  compute_windows bars start bench target stop =
      map (perfs_from start bench target stop (since start.date bars)) windows

-- `int(n * 1.7) + 5` days later, for the n of the calls.
abbrev pub trading_days_ahead : ℕ → ℕ → ℕ
trading_days_ahead date n = date + n * 17 / 10 + 5
