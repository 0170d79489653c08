-- ===== src/Tracker/Stats.antt =====
-- packages/tracker/src/signal_tracker/repo.py, `source_stats`: how often each source was right.
use signal_lab.Common.{
  ℕ, ◌+◌, ◌==◌, Bool, true, false, ◌&&◌, Option, none, some, is_some, List, [], ◌∷◌, ◌++◌, map,
  if◌then◌else◌,
}
use signal_lab.Common.Int.{pos}
use signal_lab.Common.Float.{Floats}
use signal_lab.Common.Text.{Text}
use signal_lab.Tracker.Models.{
  Action, buy, sell, Confidence, explicit, Status, active, Source, Recommendation, RecPerformance,
}
use signal_lab.Tracker.Repo.{Db}

-- A row of the join: a buy or sell recommendation of a source with a result for the window.
pub record Outcome (F : Type 0) : Type 0 where
  pub source_id : ℕ
  pub name : Text
  pub is_buy : Bool
  pub abs_return : F
  pub excess_return : Option F

abbrev pub side_of : Action → Option Bool
side_of buy = some true
side_of sell = some false
side_of _ = none

abbrev pub counts_in : Confidence → Status → Bool
counts_in explicit active = true
counts_in _ _ = false

module _ {F : Type 0} where
  abbrev pub outcome : Source → Option Bool → Option F → Option F → List (Outcome F)
  outcome src (some is_buy) (some r) excess =
      record {
        source_id = src.id;
        name = src.name;
        is_buy = is_buy;
        abs_return = r;
        excess_return = excess;
      }
      ∷ []
  outcome src _ _ excess = []

  unfoldable pub outcomes_of_rec :
      ℕ → Source → Recommendation F → List (RecPerformance F) → List (Outcome F)
  outcomes_of_rec w src rec [] = []
  outcomes_of_rec w src rec (p ∷ perfs) =
      (if (p.recommendation_id == rec.id)
          && (p.perf.window_days == w)
          && counts_in rec.confidence rec.status
        then outcome src (side_of rec.action) p.perf.abs_return p.perf.excess_return
        else [])
      ++ outcomes_of_rec w src rec perfs

  unfoldable pub outcomes_of_source :
      ℕ → List (RecPerformance F) → Source → List (Recommendation F) → List (Outcome F)
  unfolding outcomes_of_rec
  outcomes_of_source w perfs src [] = []
  outcomes_of_source w perfs src (rec ∷ recs) =
      (if rec.source_id == src.id then outcomes_of_rec w src rec perfs else [])
      ++ outcomes_of_source w perfs src recs

  -- The rows of the query, which has no order of its own.
  unfoldable pub join :
      ℕ → List (RecPerformance F) → List (Recommendation F) → List Source → List (Outcome F)
  unfolding outcomes_of_source
  join w perfs recs [] = []
  join w perfs recs (src ∷ sources) =
      outcomes_of_source w perfs src recs ++ join w perfs recs sources

pub record Bucket (F : Type 0) : Type 0 where
  pub source_id : ℕ
  pub name : Text
  pub n : ℕ
  pub wins : ℕ
  pub sum_abs : F
  pub sum_excess : F
  pub excess_n : ℕ

pub record SourceStats (F : Type 0) : Type 0 where
  pub source_id : ℕ
  pub name : Text
  pub n : ℕ
  pub avg_abs : Option F
  pub avg_excess : Option F
  pub win_rate : Option F

module _ {F : Type 0} ⦃fl : Floats F⦄ where
  -- A rise after a sell counts as a fall.
  abbrev pub signed : Bool → F → F
  signed true r = r
  signed false r = fl.neg r

  abbrev pub is_win : Outcome F → Bool
  is_win o = fl.lt (fl.lit 0 0) (signed o.is_buy o.abs_return)

  abbrev pub with_excess : Bool → Option F → Bucket F → Bucket F
  with_excess is_buy none b = b
  with_excess is_buy (some e) b = record b {
    sum_excess = fl.add b.sum_excess (signed is_buy e);
    excess_n = b.excess_n + 1;
  }

  -- The body of the loop.
  unfoldable pub count_in : Outcome F → Bucket F → Bucket F
  count_in o b = with_excess o.is_buy o.excess_return (record b {
    name = o.name;
    n = b.n + 1;
    sum_abs = fl.add b.sum_abs (signed o.is_buy o.abs_return);
    wins = if is_win o then b.wins + 1 else b.wins;
  })

  abbrev pub empty_bucket : ℕ → Bucket F
  empty_bucket id = record {
    source_id = id;
    name = [];
    n = 0;
    wins = 0;
    sum_abs = fl.lit 0 0;
    sum_excess = fl.lit 0 0;
    excess_n = 0;
  }

  -- `buckets[sid]` of a defaultdict.
  unfoldable pub add_outcome : Outcome F → List (Bucket F) → List (Bucket F)
  unfolding count_in
  add_outcome o [] = count_in o (empty_bucket o.source_id) ∷ []
  add_outcome o (b ∷ buckets) =
      if b.source_id == o.source_id then count_in o b ∷ buckets else b ∷ add_outcome o buckets

  unfoldable pub fill_buckets : List (Outcome F) → List (Bucket F) → List (Bucket F)
  unfolding add_outcome
  fill_buckets [] buckets = buckets
  fill_buckets (o ∷ outcomes) buckets = fill_buckets outcomes (add_outcome o buckets)

  abbrev pub average : F → ℕ → Option F
  average sum n = if n == 0 then none else some (fl.div sum (fl.of_int (pos n)))

  unfoldable pub stats_of : Bucket F → SourceStats F
  stats_of b = record {
    source_id = b.source_id;
    name = b.name;
    n = b.n;
    avg_abs = average b.sum_abs b.n;
    avg_excess = average b.sum_excess b.excess_n;
    win_rate = average (fl.of_int (pos b.wins)) b.n;
  }

  -- `x["avg_excess"] or -999`
  abbrev pub rank_of : Option F → F
  rank_of none = fl.neg (fl.lit 999 0)
  rank_of (some v) = if fl.eq v (fl.lit 0 0) then fl.neg (fl.lit 999 0) else v

  -- The order of the keys `(avg_excess is not None, avg_excess or -999)`.
  abbrev pub ranks_below : SourceStats F → SourceStats F → Bool
  ranks_below a b =
      if is_some b.avg_excess
      then (if is_some a.avg_excess
          then fl.lt (rank_of a.avg_excess) (rank_of b.avg_excess)
          else true)
      else false

  -- `sort(..., reverse=True)`, which keeps the order of equal keys.
  unfoldable pub insert_rank : SourceStats F → List (SourceStats F) → List (SourceStats F)
  insert_rank x [] = x ∷ []
  insert_rank x (y ∷ ys) = if ranks_below x y then y ∷ insert_rank x ys else x ∷ y ∷ ys

  unfoldable pub sort_rank : List (SourceStats F) → List (SourceStats F)
  unfolding insert_rank
  sort_rank [] = []
  sort_rank (x ∷ xs) = insert_rank x (sort_rank xs)

  unfoldable pub source_stats : ℕ → Db F → List (SourceStats F)
  unfolding fill_buckets join stats_of sort_rank
  source_stats w db =
      sort_rank (map stats_of (fill_buckets (join w db.perfs db.recs db.sources) []))
