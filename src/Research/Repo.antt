-- ===== src/Research/Repo.antt =====
-- packages/research/src/signal_research/repo.py. A write to the row of a job is `flush_job` of the
-- changed row; `utcnow()` is the argument `now`, a fresh uuid the argument `id`.
use signal_lab.Common.{
  ℕ, ◌+◌, ◌==◌, Bool, true, false, ◌&&◌, Option, none, some, List, [], ◌∷◌, ◌++◌, if◌then◌else◌,
  any, select, take, sort_by,
}
use mathlib.Core.List.{reverse}
use signal_lab.Common.Int.{ℤ}
use signal_lab.Common.Text.{Text, text_eq, or_default}
use signal_lab.Contracts.Events.{RunnerEvent}
use signal_lab.Research.Models.{
  JobStatus, provisioning, running, Runtime, ResearchJob, ResearchEvent, Strategy, StrategySignal,
}

-- `runtime.update(fields)`: a known key keeps its place.
unfoldable pub put : Text → Text → Runtime → Runtime
put key value [] = (key, value) ∷ []
put key value ((k, v) ∷ rows) =
    if text_eq k key then (k, value) ∷ rows else (k, v) ∷ put key value rows

unfoldable pub update : Runtime → Runtime → Runtime
unfolding put
update runtime [] = runtime
update runtime ((k, v) ∷ fields) = update (put k v runtime) fields

-- `runtime.get(key)`
unfoldable pub get : Text → Runtime → Option Text
get key [] = none
get key ((k, v) ∷ rows) = if text_eq k key then some v else get key rows

-- `if x is not None: d = x`
abbrev pub value_or {ℓ} : {A : Type ℓ} → A → Option A → A
value_or d none = d
value_or d (some x) = x

abbrev pub is_open : JobStatus → Bool
is_open provisioning = true
is_open running = true
is_open _ = false

module _ {F : Type 0} where
  unfoldable pub get_job : ℕ → List (ResearchJob F) → Option (ResearchJob F)
  get_job id [] = none
  get_job id (j ∷ rows) = if j.id == id then some j else get_job id rows

  unfoldable pub flush_job : ResearchJob F → List (ResearchJob F) → List (ResearchJob F)
  flush_job j [] = []
  flush_job j (i ∷ rows) = if i.id == j.id then j ∷ rows else i ∷ flush_job j rows

  unfoldable pub list_jobs : ℕ → List (ResearchJob F) → List (ResearchJob F)
  list_jobs limit rows = take limit (reverse (sort_by (λ j. j.created_at) rows))

  unfoldable pub list_running_jobs : List (ResearchJob F) → List (ResearchJob F)
  list_running_jobs rows = select (λ j. is_open j.status) rows

  -- `finished_at` is written when `finished` is given, `error` unless it is empty.
  unfoldable pub set_status : ℕ → JobStatus → Text → Bool → ResearchJob F → ResearchJob F
  set_status now status error finished j = record j {
    status = status;
    updated_at = now;
    error = or_default error j.error;
    finished_at = if finished then some now else j.finished_at;
  }

  unfoldable pub update_runtime : ℕ → Runtime → ResearchJob F → ResearchJob F
  unfolding update
  update_runtime now fields j = record j { runtime = update j.runtime fields; updated_at = now }

  abbrev pub is_stored : ℕ → ℕ → List (ResearchEvent F) → Bool
  is_stored job seq rows = any (λ e. (e.job_id == job) && (e.seq == seq)) rows

  -- The new table, and whether the event was already there.
  unfoldable pub append_event :
      ℕ → RunnerEvent F → List (ResearchEvent F) → Bool × List (ResearchEvent F)
  append_event job e rows =
      if is_stored job e.seq rows
      then (true, rows)
      else (false, rows ++ record { job_id = job; seq = e.seq; payload = e } ∷ [])

  unfoldable pub list_events : ℕ → ℕ → List (ResearchEvent F) → List (ResearchEvent F)
  list_events job limit rows =
      take limit (sort_by (λ e. e.seq) (select (λ e. e.job_id == job) rows))

  abbrev or_else : Option F → Option F → Option F
  or_else none d = d
  or_else (some x) d = some x

  unfoldable pub touch_heartbeat :
      ℕ → Option ℤ → Option F → Option F → Option ℕ → ResearchJob F → ResearchJob F
  touch_heartbeat now loop best_ic cost at j = record j {
    last_heartbeat_at = some (value_or now at);
    last_loop = value_or j.last_loop loop;
    best_ic = or_else best_ic j.best_ic;
    llm_cost_usd = value_or j.llm_cost_usd cost;
    updated_at = now;
  }

  -- `select(Strategy).where(Strategy.package_id == package_id)`
  unfoldable pub get_package : ℕ → List (Strategy F) → Option (Strategy F)
  get_package pkg [] = none
  get_package pkg (s ∷ rows) = if s.package_id == pkg then some s else get_package pkg rows

  abbrev add_unless :
      Option (Strategy F) → Strategy F → List (Strategy F) → Strategy F × List (Strategy F)
  add_unless (some old) s rows = (old, rows)
  add_unless none s rows = (s, rows ++ s ∷ [])

  -- The row of the package: the stored one, or the new one `s`.
  unfoldable pub insert_strategy : Strategy F → List (Strategy F) → Strategy F × List (Strategy F)
  insert_strategy s rows = add_unless (get_package s.package_id rows) s rows

  unfoldable pub get_strategy : ℕ → List (Strategy F) → Option (Strategy F)
  get_strategy id [] = none
  get_strategy id (s ∷ rows) = if s.id == id then some s else get_strategy id rows

  abbrev pub is_signal : ℕ → ℕ → Text → StrategySignal F → Bool
  is_signal strategy date symbol s =
      (s.strategy_id == strategy) && (s.trade_date == date) && text_eq s.symbol symbol

  unfoldable pub upsert_signal :
      StrategySignal F → List (StrategySignal F) → List (StrategySignal F)
  upsert_signal n [] = n ∷ []
  upsert_signal n (s ∷ rows) =
      if is_signal n.strategy_id n.trade_date n.symbol s
      then record s { score = n.score; action = n.action } ∷ rows
      else s ∷ upsert_signal n rows

  -- The number of the rows written, and the table.
  unfoldable pub upsert_strategy_signals :
      List (StrategySignal F) → List (StrategySignal F) → ℕ × List (StrategySignal F)
  upsert_strategy_signals [] rows = (0, rows)
  upsert_strategy_signals (n ∷ ns) rows =
      let (k, rows') = upsert_strategy_signals ns (upsert_signal n rows) in (k + 1, rows')

  unfoldable pub get_signal : ℕ → ℕ → Text → List (StrategySignal F) → Option (StrategySignal F)
  get_signal strategy date symbol [] = none
  get_signal strategy date symbol (s ∷ rows) =
      if is_signal strategy date symbol s then some s else get_signal strategy date symbol rows
