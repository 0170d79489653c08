-- ===== src/Research/Session.antt =====
-- The state of the research service between two calls (signal_research/service.py), and what its
-- methods raise. A call reads the clock once.
use signal_lab.Common.{ℕ, List, [], ◌∷◌, ◌++◌}
use signal_lab.Common.Text.{Text}
use signal_lab.Research.Models.{JobStatus, ResearchJob, Db}
use signal_lab.Research.Repo.{flush_job}

pub data Error : Type 0 where
  -- ValueError, of which ValidationError is one
  bad_producer bad_target bad_llm bad_budget bad_callback : Error
  not_startable : JobStatus → Error
  not_lost bad_body job_mismatch bad_package : Error
  not_verified : Text → Error
  -- KeyError
  unknown_job unknown_strategy : ℕ → Error
  -- PermissionError
  bad_signature : Error
  -- whatever a provisioner or a decoder raises
  raised : Text → Error

-- The tables, the directory of artifacts by job, and the world of the runners.
pub record Session (F E : Type 0) : Type 0 where
  pub db : Db F
  pub artifacts : List (ℕ × Text)
  pub world : E

module _ {F E : Type 0} where
  -- The tables with the row of a job written, or with it added.
  abbrev pub save : ResearchJob F → Session F E → Session F E
  save j s = record s { db = record (s.db) { jobs = flush_job j s.db.jobs } }

  abbrev pub add : ResearchJob F → Session F E → Session F E
  add j s = record s { db = record (s.db) { jobs = s.db.jobs ++ j ∷ [] } }
