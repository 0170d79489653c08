-- ===== src/Research/Reports.antt =====
-- packages/research/src/signal_research/service.py: the reports of the runners.
use signal_lab.Common.{
  ℕ, ◌+◌, ◌==◌, Bool, true, false, ◌&&◌, Option, none, some, List, [], ◌∷◌, if◌then◌else◌, Result,
  ok, err, Exec,
}
use signal_lab.Common.Text.{Text, codes, text_eq, splitlines}
use signal_lab.Contracts.Events.{RunnerEvent, CompletionStatus, CompletionReport, verify_signature}
use signal_lab.Contracts.Events
use signal_lab.Research.Models.{
  JobStatus, provisioning, running, ResearchJob, ResearchEvent, Strategy, Db,
}
use signal_lab.Research.Models
use signal_lab.Research.Repo.{
  get, get_job, flush_job, set_status, touch_heartbeat, append_event, get_package,
}
use signal_lab.Research.Ports.{Provisioners, Decoders, ResearchSettings}
use signal_lab.Research.Decode.{event_of_line}
use signal_lab.Research.Session.{
  Error, Session, save, unknown_job, bad_signature, bad_body, job_mismatch, raised,
}

abbrev is_provisioning : JobStatus → Bool
is_provisioning provisioning = true
is_provisioning _ = false

abbrev pub status_of : CompletionStatus → JobStatus
status_of Events.succeeded = Models.succeeded
status_of Events.failed = Models.failed
status_of Events.budget_exceeded = Models.budget_exceeded

-- The statuses whose report may name a strategy.
abbrev is_linked : CompletionStatus → Bool
is_linked Events.succeeded = true
is_linked Events.budget_exceeded = true
is_linked Events.failed = false

module _ {F : Type 0} where
  -- The row of a job after an event of it.
  unfoldable pub touched : ℕ → RunnerEvent F → ResearchJob F → ResearchJob F
  unfolding touch_heartbeat set_status
  touched now e j =
      let j' = touch_heartbeat now e.loop e.best_ic e.llm_cost_usd (some e.ts) j in
      if is_provisioning j'.status then set_status now running [] false j' else j'

  -- The row of a job after its completion report.
  unfoldable pub completed :
      ℕ → CompletionReport F → List (Strategy F) → ResearchJob F → ResearchJob F
  unfolding set_status
  completed now r strategies j =
      let j' = record (set_status now (status_of r.status) [] true j) {
        llm_cost_usd = r.total_llm_cost_usd;
        last_loop = r.total_loops;
      } in
      if is_linked r.status
      then elim r.package_id [
        | none ↦ j'
        | some p ↦ elim (get_package p strategies) [
          | none ↦ j'
          | some strat ↦ record j' { strategy_id = some strat.id }
        ]
      ]
      else j'

module _ {F E : Type 0} where
  unfoldable pub ingest_found :
      ℕ → ℕ → RunnerEvent F → Option (ResearchJob F) → Exec (Session F E) Error Bool
  unfolding append_event
  ingest_found now id e none s = (err (unknown_job id), s)
  ingest_found now id e (some j) s =
      let (duplicate, events) = append_event id e s.db.events in
      (
        ok duplicate,
        record s {
          db = record (s.db) { jobs = flush_job (touched now e j) s.db.jobs; events = events };
        },
      )

  -- `_ingest_event`; the answer is `duplicate`.
  unfoldable pub ingest_event : ℕ → ℕ → RunnerEvent F → Exec (Session F E) Error Bool
  ingest_event now id e s = ingest_found now id e (get_job id s.db.jobs) s

  unfoldable pub ingest_for : ℕ → ℕ → Option (RunnerEvent F) → Exec (Session F E) Error Bool
  ingest_for now id none s = (err bad_body, s)
  ingest_for now id (some e) s =
      if e.job_id == id then ingest_event now id e s else (err job_mismatch, s)

  -- `_maybe_cleanup_remote`: an exception is only logged.
  unfoldable pub maybe_cleanup_remote : Provisioners F E → Bool → ResearchJob F → E → E
  maybe_cleanup_remote ps wanted j world =
      if wanted
        && text_eq (elim (get (codes "type") j.runtime) [ none ↦ [] | some t ↦ t ])
            (codes "remote_ssh")
      then (ps.remote.cleanup j.runtime world).1
      else world

  unfoldable pub complete_found :
      Provisioners F E
      → Bool
      → ℕ
      → ℕ
      → CompletionReport F
      → Option (ResearchJob F)
      → Exec (Session F E) Error JobStatus
  unfolding maybe_cleanup_remote
  complete_found ps wanted now id r none s = (err (unknown_job id), s)
  complete_found ps wanted now id r (some j) s =
      let j' = completed now r s.db.strategies j in
      (
        ok (status_of r.status),
        record (save j' s) { world = maybe_cleanup_remote ps wanted j' s.world },
      )

  unfoldable pub complete_for :
      Provisioners F E
      → Bool
      → ℕ
      → ℕ
      → Option (CompletionReport F)
      → Exec (Session F E) Error JobStatus
  complete_for ps wanted now id none s = (err bad_body, s)
  complete_for ps wanted now id (some r) s =
      if r.job_id == id
      then complete_found ps wanted now id r (get_job id s.db.jobs) s
      else (err job_mismatch, s)

  module _ {J : Type 0} (d : Decoders F J) where
    unfoldable pub handle_event : ℕ → ℕ → Text → Text → Text → Exec (Session F E) Error Bool
    unfolding ingest_for
    handle_event now id body signature secret s =
        if verify_signature d.hmac secret body signature
        then ingest_for now id (d.event_of_body body) s
        else (err bad_signature, s)

    unfoldable pub handle_complete :
        Provisioners F E
        → ResearchSettings F
        → ℕ
        → ℕ
        → Text
        → Text
        → Text
        → Exec (Session F E) Error JobStatus
    unfolding complete_for
    handle_complete ps st now id body signature secret s =
        if verify_signature d.hmac secret body signature
        then complete_for ps st.cleanup_remote_on_complete now id (d.report_of_body body) s
        else (err bad_signature, s)

    -- One round of the loop: 1 if the event was new.
    unfoldable pub replay_event :
        ℕ → ℕ → Result Text (Option (RunnerEvent F)) → Exec (Session F E) Error ℕ
    replay_event now id (err e) s = (err (raised e), s)
    replay_event now id (ok none) s = (ok 0, s)
    replay_event now id (ok (some e)) s =
        let (answer, s') = ingest_event now id e s in
        (elim answer [ err x ↦ err x | ok duplicate ↦ ok (if duplicate then 0 else 1) ], s')

    unfoldable pub replay_lines : ℕ → ℕ → List Text → ℕ → Exec (Session F E) Error ℕ
    replay_lines now id [] n s = (ok n, s)
    replay_lines now id (line ∷ lines) n s =
        let (answer, s') = replay_event now id (event_of_line d id line) s in
        elim answer [ err x ↦ (err x, s') | ok k ↦ replay_lines now id lines (n + k) s' ]

    unfoldable pub replay_events_jsonl : ℕ → ℕ → Text → Exec (Session F E) Error ℕ
    replay_events_jsonl now id text = replay_lines now id (splitlines text) 0
