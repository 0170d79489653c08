-- ===== src/Research/Calls.antt =====
-- The calls of `ResearchService` (signal_research/service.py), as the routes make them one after
-- another; what a call raises ends that call only.
use signal_lab.Common.{ℕ, Bool, Option, List, [], ◌∷◌}
use signal_lab.Common.Text.{Text}
use signal_lab.Common.Float.{Floats}
use signal_lab.Research.Ports.{Provisioners, MarketBarsPort, Decoders, ResearchSettings}
use signal_lab.Research.Session.{Session}
use signal_lab.Research.Create.{JobRequest, create_job}
use signal_lab.Research.Jobs.{start_job, retry_job, cleanup_job}
use signal_lab.Research.Reports.{handle_event, handle_complete}
use signal_lab.Research.Probe.{probe_lost_jobs}
use signal_lab.Research.Validator.{Statistics}
use signal_lab.Research.Strategies.{handle_artifact, generate_signals}

-- Each with its reading of the clock, and its fresh id where it needs one.
pub data Call : Type 0 where
  create : ℕ → ℕ → JobRequest → Call
  start : ℕ → ℕ → Bool → Option Bool → Call
  retry : ℕ → ℕ → Call
  cleanup : ℕ → Call
  event : ℕ → ℕ → Text → Text → Text → Call
  complete : ℕ → ℕ → Text → Text → Text → Call
  artifact : ℕ → ℕ → ℕ → ℕ → Text → Option Text → Text → Call
  probe : ℕ → Call
  signals : ℕ → ℕ → Call

module _ {F E J : Type 0} ⦃fl : Floats F⦄ (st : ResearchSettings F) (ps : Provisioners F E)
    (d : Decoders F J) (market : MarketBarsPort F) (stats : Statistics F) where
  unfoldable pub handle : Call → Session F E → Session F E
  handle (create now id r) s = (create_job st now id r s).1
  handle (start now id use_docker use_remote) s = (start_job ps now id use_docker use_remote s).1
  handle (retry now id) s = (retry_job ps now id s).1
  handle (cleanup id) s = (cleanup_job ps id s).1
  handle (event now id body signature secret) s = (handle_event d now id body signature secret s).1
  handle (complete now id body signature secret) s =
      (handle_complete d ps st now id body signature secret s).1
  handle (artifact id now today job bytes signature secret) s =
      (handle_artifact d market stats id now today job bytes signature secret s).1
  handle (probe now) s = (probe_lost_jobs d ps now st.heartbeat_timeout_sec s).1
  handle (signals strategy date) s = (generate_signals d market stats strategy date s).1

  unfoldable pub serve : List Call → Session F E → Session F E
  serve [] s = s
  serve (c ∷ cs) s = serve cs (handle c s)
