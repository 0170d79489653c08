-- ===== src/Research/Models.antt =====
-- packages/research/src/signal_research/models.py. Identifiers are only compared and printed, so
-- they are numbers; times are in seconds and dates in days.
use signal_lab.Common.{ℕ, Option, List}
use signal_lab.Common.Int.{ℤ}
use signal_lab.Common.Text.{Text}
use signal_lab.Contracts.Events.{RunnerEvent}
use signal_lab.Contracts.Job.{JobSpec}
use signal_lab.Contracts.Package.{Manifest, MetricsSummary, SignalProtocol}

-- JOB_STATUSES
pub data JobStatus : Type 0 where
  draft provisioning running succeeded failed budget_exceeded lost : JobStatus

-- `runtime`, a dict of texts: what the provisioner wrote of the runner.
abbrev pub Runtime : Type 0
Runtime = List (Text × Text)

pub record ResearchJob (F : Type 0) : Type 0 where
  pub id : ℕ
  pub status : JobStatus
  pub producer : Text
  pub scenario : Text
  pub data_snapshot : Text
  pub spec : JobSpec F
  pub runtime : Runtime
  pub last_heartbeat_at : Option ℕ
  pub last_loop : ℤ
  pub best_ic : Option F
  pub llm_cost_usd : F
  pub error : Text
  pub strategy_id : Option ℕ
  pub created_at : ℕ
  pub updated_at : ℕ
  pub finished_at : Option ℕ

-- The row of an event: its columns `job_id`, `type` and `seq` are those of the payload.
pub record ResearchEvent (F : Type 0) : Type 0 where
  pub job_id : ℕ
  pub seq : ℕ
  pub payload : RunnerEvent F

-- What the recomputation found: `sample_ic`, with `none` where there was nothing to compute on,
-- `sample_n_symbols`, and the claim of the package.
pub record VerifiedMetrics (F : Type 0) : Type 0 where
  pub sample_ic : Option F
  pub sample_n_symbols : ℕ
  pub claimed_ic : F

pub record Strategy (F : Type 0) : Type 0 where
  pub id : ℕ
  pub package_id : ℕ
  pub job_id : Option ℕ
  pub producer : Text
  pub name : Text
  pub universe : Text
  pub data_snapshot : Text
  pub signal_protocol : SignalProtocol
  pub manifest : Manifest F
  pub metrics : MetricsSummary F
  pub verified_metrics : VerifiedMetrics F
  pub created_at : ℕ

pub data SignalAction : Type 0 where
  buy sell hold : SignalAction

pub record StrategySignal (F : Type 0) : Type 0 where
  pub strategy_id : ℕ
  pub trade_date : ℕ
  pub symbol : Text
  pub score : F
  pub action : SignalAction

-- The tables, each in the order of insertion.
pub record Db (F : Type 0) : Type 0 where
  pub jobs : List (ResearchJob F)
  pub events : List (ResearchEvent F)
  pub strategies : List (Strategy F)
  pub signals : List (StrategySignal F)
