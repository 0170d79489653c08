-- ===== src/Agents/Repo.antt =====
-- packages/agents/src/signal_agents/models.py and repo.py.
use signal_lab.Common.{
  ℕ, Bool, true, ◌==◌, Option, none, some, List, [], ◌∷◌, ◌++◌, if◌then◌else◌, select, sort_by,
  take, map,
}
use mathlib.Core.List.{reverse}
use signal_lab.Common.Int.{ℤ}
use signal_lab.Common.Text.{Text}
use signal_lab.Agents.Rules.{Action, Decision}

pub data RunStatus : Type 0 where
  running succeeded failed : RunStatus

pub record AgentRun (F : Type 0) : Type 0 where
  pub id : ℕ
  pub status : RunStatus
  pub candidate_count : ℕ
  pub model : Text
  pub llm_cost_usd : F
  pub error : Text
  pub started_at : ℕ
  pub finished_at : Option ℕ

-- Without `reason`, the texts of the roles.
pub record Signal (F : Type 0) : Type 0 where
  pub id : ℕ
  pub run_id : ℕ
  pub symbol : Text
  pub action : Action
  pub confidence : F
  pub suggested_qty : ℤ
  pub created_at : ℕ

pub record Db (F : Type 0) : Type 0 where
  pub runs : List (AgentRun F)
  pub signals : List (Signal F)

-- The first row with a property.
abbrev pub find : {A : Type 0} → (A → Bool) → List A → Option A
find p [] = none
find p (x ∷ xs) = if p x then some x else find p xs

module _ {F : Type 0} where
  abbrev pub add_run : AgentRun F → Db F → Db F
  add_run r db = record db { runs = db.runs ++ r ∷ [] }

  unfoldable pub create_run : F → ℕ → ℕ → Text → ℕ → Db F → Db F
  create_run zero_cost id now model candidate_count = add_run (record {
    id = id;
    status = running;
    candidate_count = candidate_count;
    model = model;
    llm_cost_usd = zero_cost;
    error = [];
    started_at = now;
    finished_at = none;
  })

  abbrev pub finished : RunStatus → F → Text → ℕ → AgentRun F → AgentRun F
  finished status cost error now r = record r {
    status = status;
    llm_cost_usd = cost;
    error = error;
    finished_at = some now;
  }

  -- A write to the object of the run is a write to the row of its id.
  unfoldable pub finish_run : ℕ → RunStatus → F → Text → ℕ → Db F → Db F
  finish_run id status cost error now db = record db {
    runs = map (λ r. if r.id == id then finished status cost error now r else r) db.runs;
  }

  abbrev pub signal_of : ℕ → ℕ → ℕ → Text → Decision F → Signal F
  signal_of id run_id now symbol d = record {
    id = id;
    run_id = run_id;
    symbol = symbol;
    action = d.action;
    confidence = d.confidence;
    suggested_qty = d.suggested_qty;
    created_at = now;
  }

  unfoldable pub insert_signal : Signal F → Db F → Db F
  insert_signal g db = record db { signals = db.signals ++ g ∷ [] }

  unfoldable pub get_run : ℕ → Db F → Option (AgentRun F)
  get_run id db = find (λ r. r.id == id) db.runs

  unfoldable pub get_signal : ℕ → Db F → Option (Signal F)
  get_signal id db = find (λ g. g.id == id) db.signals

  -- The newest first.
  unfoldable pub list_runs : ℕ → Db F → List (AgentRun F)
  list_runs limit db = take limit (reverse (sort_by (λ r. r.started_at) db.runs))

  abbrev pub of_run : Option ℕ → Signal F → Bool
  of_run none g = true
  of_run (some id) g = g.run_id == id

  unfoldable pub list_signals : Option ℕ → ℕ → Db F → List (Signal F)
  list_signals run_id limit db =
      take limit (select (of_run run_id) (reverse (sort_by (λ g. g.created_at) db.signals)))
