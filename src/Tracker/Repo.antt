-- ===== src/Tracker/Repo.antt =====
-- packages/tracker/src/signal_tracker/repo.py. A table is the list of its rows, oldest first; a
-- fresh uuid is the next number that no row has had, and `utcnow()` the argument `now`.
use signal_lab.Common.{
  ℕ, ◌+◌, ◌==◌, Bool, true, false, ◌&&◌, Option, none, some, List, [], ◌∷◌, ◌++◌, map, any, select,
  sort_by, take, if◌then◌else◌,
}
use mathlib.Core.List.{reverse}
use signal_lab.Common.Text.{Text, text_eq}
use signal_lab.Tracker.Models.{
  Status, Source, ExtractedRec, Recommendation, WindowPerf, RecPerformance, pending, active,
  ignored,
}

pub record Db (F : Type 0) : Type 0 where
  pub sources : List Source
  pub recs : List (Recommendation F)
  pub perfs : List (RecPerformance F)
  pub fresh : ℕ
  -- How far the clock of the market is ahead of the zone of the session, in seconds: eight hours on a
  -- PostgreSQL in UTC. A time without a zone is read in that of the session.
  pub lag : ℕ

unfoldable pub source_named : Text → List Source → Option Source
source_named name [] = none
source_named name (src ∷ sources) =
    if text_eq src.name name then some src else source_named name sources

abbrev pub new_source : ℕ → ℕ → Text → Text → Source
new_source id now name channel = record {
  id = id;
  name = name;
  channel = channel;
  notes = [];
  created_at = now;
}

module _ {F : Type 0} where
  abbrev pub or_create : Text → Text → ℕ → Db F → Option Source → Source × Db F
  or_create name channel now db (some src) = (src, db)
  or_create name channel now db none =
      let src = new_source db.fresh now name channel in
      (src, record db { sources = db.sources ++ src ∷ []; fresh = db.fresh + 1 })

  unfoldable pub get_or_create_source : Text → Text → ℕ → Db F → Source × Db F
  unfolding source_named
  get_or_create_source name channel now db =
      or_create name channel now db (source_named name db.sources)

-- The arguments of `insert_recommendation`.
pub record Draft (F : Type 0) : Type 0 where
  pub source_id : ℕ
  pub message_time : ℕ
  pub symbol : Option Text
  pub item : ExtractedRec F
  pub raw_text : Text
  pub status : Status

module _ {F : Type 0} where
  abbrev pub new_rec : ℕ → ℕ → Draft F → Recommendation F
  new_rec id now d = record {
    id = id;
    source_id = d.source_id;
    message_time = d.message_time;
    symbol = d.symbol;
    symbol_name = d.item.symbol_name;
    action = d.item.action;
    target_price = d.item.target_price;
    stop_loss = d.item.stop_loss;
    horizon = d.item.horizon;
    confidence = d.item.confidence;
    reason = d.item.reason;
    raw_text = d.raw_text;
    status = d.status;
    baseline_date = none;
    baseline_price = none;
    baseline_rule = none;
    created_at = now;
  }

  unfoldable pub insert_recommendation : ℕ → Draft F → Db F → Db F
  insert_recommendation now d db = record db {
    recs = db.recs ++ new_rec db.fresh now d ∷ [];
    fresh = db.fresh + 1;
  }

  abbrev pub at_time : Option ℕ → Recommendation F → Bool
  at_time none r = true
  at_time (some t) r = r.message_time == t

  abbrev pub is_duplicate : ℕ → Option ℕ → Text → Recommendation F → Bool
  is_duplicate source_id time raw r =
      (r.source_id == source_id) && text_eq r.raw_text raw && at_time time r

  -- Whether `find_duplicate` finds a row.
  unfoldable pub find_duplicate : ℕ → Option ℕ → Text → List (Recommendation F) → Bool
  find_duplicate source_id time raw recs = any (is_duplicate source_id time raw) recs

  unfoldable pub get_recommendation : ℕ → List (Recommendation F) → Option (Recommendation F)
  get_recommendation id [] = none
  get_recommendation id (r ∷ recs) = if r.id == id then some r else get_recommendation id recs

  -- A write to the object of a row.
  unfoldable pub update_rec :
      ℕ → (Recommendation F → Recommendation F) → List (Recommendation F) → List (Recommendation F)
  update_rec id f recs = map (λ r. if r.id == id then f r else r) recs

abbrev pub status_eq : Status → Status → Bool
status_eq pending pending = true
status_eq active active = true
status_eq ignored ignored = true
status_eq _ _ = false

module _ {F : Type 0} where
  abbrev pub of_source : Option ℕ → Recommendation F → Bool
  of_source none r = true
  of_source (some id) r = r.source_id == id

  abbrev pub with_status : Option Status → Recommendation F → Bool
  with_status none r = true
  with_status (some st) r = status_eq r.status st

  -- Newest message first; of one time, in either order.
  unfoldable pub list_recommendations :
      Option ℕ → Option Status → ℕ → List (Recommendation F) → List (Recommendation F)
  unfolding sort_by select
  list_recommendations source_id status limit recs = take limit (
      reverse (
        sort_by (λ r. r.message_time)
          (select (λ r. of_source source_id r && with_status status r) recs)))

  -- The unique index of the table.
  abbrev pub is_window : ℕ → ℕ → RecPerformance F → Bool
  is_window rec_id w p = (p.recommendation_id == rec_id) && (p.perf.window_days == w)

  -- INSERT ... ON CONFLICT (recommendation_id, window_days) DO UPDATE
  unfoldable pub upsert_one :
      ℕ → ℕ → ℕ → WindowPerf F → List (RecPerformance F) → List (RecPerformance F)
  upsert_one id now rec_id p [] =
      record { id = id; recommendation_id = rec_id; perf = p; updated_at = now } ∷ []
  upsert_one id now rec_id p (q ∷ perfs) =
      if is_window rec_id p.window_days q
      then record q { perf = p; updated_at = now } ∷ perfs
      else q ∷ upsert_one id now rec_id p perfs

  unfoldable pub upsert_performance : ℕ → ℕ → List (WindowPerf F) → Db F → Db F
  unfolding upsert_one
  upsert_performance now rec_id [] db = db
  upsert_performance now rec_id (p ∷ rows) db =
      upsert_performance now rec_id rows
        (record db { perfs = upsert_one db.fresh now rec_id p db.perfs; fresh = db.fresh + 1 })

  unfoldable pub get_performances : ℕ → List (RecPerformance F) → List (RecPerformance F)
  unfolding sort_by select
  get_performances rec_id perfs =
      sort_by (λ p. p.perf.window_days) (select (λ p. p.recommendation_id == rec_id) perfs)
