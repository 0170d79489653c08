-- ===== src/Research/Reach.antt =====
-- Every sequence of calls of `ResearchService` (signal_research/service.py) whose new jobs have new
-- ids, as uuids have.
use signal_lab.Common.{
  Result-cases, ℕ, ◌==◌, ◌≢◌, sym, Bool, true, false, inl, inr, Option, none, some, Bool-cases,
  Option-cases, Result-cases, List, [], ◌∷◌, All, Distinct-append_one, Result, ok, err,
}
use mathlib.Core.Path.{subst}
use signal_lab.Common.Text.{Text, codes}
use signal_lab.Common.Float.{Floats}
use signal_lab.Contracts.Events.{RunnerEvent, CompletionReport, verify_signature}
use signal_lab.Contracts.Package.{Manifest}
use signal_lab.Research.Models.{Db, lost, ResearchJob, VerifiedMetrics, SignalAction}
use signal_lab.Research.Repo.{get_job, get_strategy, set_status, insert_strategy, list_running_jobs}
use signal_lab.Research.Ports.{Provisioners, MarketBarsPort, Decoders, ResearchSettings}
use signal_lab.Research.Session.{Session, save}
use signal_lab.Research.Create.{JobRequest, build_spec, create_job, new_job}
use signal_lab.Research.Jobs.{retry_job, retry_found, is_lost, cleanup_job, cleanup_found}
use signal_lab.Research.Reports.{
  completed, complete_found, complete_for, handle_complete, handle_event, ingest_for,
}
use signal_lab.Research.Probe.{probe_one, saved_one, probe_all, probe_lost_jobs}
use signal_lab.Research.Validator.{PackageError, load_package, VerifyError, Statistics}
use signal_lab.Research.Strategies.{
  store_strategy, import_package, artifact_found, handle_artifact, new_strategy, is_forged,
  write_artifact, generate_signals, signals_found, store_signals,
}
use signal_lab.Research.Calls.{
  Call, create, start, retry, cleanup, event, complete, artifact, probe, signals, handle,
}
use signal_lab.Research.Table.{job_id}
use signal_lab.Research.Induct.{ingest_event-induct, probe_one-induct, saved_one-induct}
use signal_lab.Research.Specs.{build_spec-IsSpec}
use signal_lab.Research.Unique.{
  IsSound, insert_strategy-Distinct, save-IsSound, aside-IsSound, ingested-IsSound,
  start_job-IsSound,
}

module _ {F E J : Type 0} ⦃fl : Floats F⦄ (st : ResearchSettings F) (ps : Provisioners F E)
    (d : Decoders F J) (market : MarketBarsPort F) (stats : Statistics F) where
  create_job-IsSound :
      (now id : ℕ) (r : JobRequest) (s : Session F E)
      → All (λ j. j.id ≢ id) s.db.jobs
      → IsSound s
      → IsSound (create_job st now id r s).1
  unfolding create_job
  create_job-IsSound now id r s fresh h = elim (Result-cases (build_spec st id r)) [
    | inr (x, e) ↦ rw (e, create_job) h
    | inl (spec, e) ↦
        let same = (build_spec-IsSpec st id r spec e).same_id in
        rw (e, create_job)
          (record {
            jobs =
                Distinct-append_one job_id s.db.jobs (new_job now spec) h.jobs
                  (subst (λ n. All (λ j. j.id ≢ n) s.db.jobs) (sym same) fresh);
            events = h.events;
            packages = h.packages;
          })
  ]

  retry_job-IsSound : (now id : ℕ) (s : Session F E) → IsSound s → IsSound (retry_job ps now id s).1
  unfolding retry_job retry_found
  retry_job-IsSound now id s h = elim (Option-cases (get_job id s.db.jobs)) [
    | inl missing ↦ rw missing h
    | inr (j, found) ↦ rw found (elim (Bool-cases (is_lost j.status)) [
      | inl gone ↦ rw gone (start_job-IsSound ps now id false none s h)
      | inr other ↦ rw other h
    ])
  ]

  cleanup_job-IsSound : (id : ℕ) (s : Session F E) → IsSound s → IsSound (cleanup_job ps id s).1
  unfolding cleanup_job cleanup_found
  cleanup_job-IsSound id s h = elim (Option-cases (get_job id s.db.jobs)) [
    | inl missing ↦ rw missing h
    | inr (j, found) ↦ rw found (aside-IsSound s.artifacts _ s h)
  ]

  ingest_for-IsSound :
      (now id : ℕ) (m : Option (RunnerEvent F)) (s : Session F E)
      → IsSound s
      → IsSound (ingest_for now id m s).1
  unfolding ingest_for
  ingest_for-IsSound now id none s h = h
  ingest_for-IsSound now id (some e) s h = elim (Bool-cases (e.job_id == id)) [
    | inr other ↦ rw other h
    | inl own ↦ rw own (
        ingest_event-induct now id IsSound
          (λ e j events t adds _ k. ingested-IsSound now id e j events t adds k) e s h)
  ]

  handle_event-IsSound :
      (now id : ℕ) (body signature secret : Text) (s : Session F E)
      → IsSound s
      → IsSound (handle_event d now id body signature secret s).1
  unfolding handle_event
  handle_event-IsSound now id body signature secret s h =
      elim (Bool-cases (verify_signature d.hmac secret body signature)) [
        | inr forged ↦ rw forged h
        | inl signed ↦ rw signed (ingest_for-IsSound now id (d.event_of_body body) s h)
      ]

  complete_for-IsSound :
      (wanted : Bool) (now id : ℕ) (m : Option (CompletionReport F)) (s : Session F E)
      → IsSound s
      → IsSound (complete_for ps wanted now id m s).1
  unfolding complete_for complete_found
  complete_for-IsSound wanted now id none s h = h
  complete_for-IsSound wanted now id (some r) s h = elim (Bool-cases (r.job_id == id)) [
    | inr other ↦ rw other h
    | inl own ↦ rw own (elim (Option-cases (get_job id s.db.jobs)) [
      | inl missing ↦ rw missing h
      | inr (j, found) ↦
          let j' = completed now r s.db.strategies j in
          rw found (aside-IsSound s.artifacts _ (save j' s) (save-IsSound j' s h))
    ])
  ]

  handle_complete-IsSound :
      (now id : ℕ) (body signature secret : Text) (s : Session F E)
      → IsSound s
      → IsSound (handle_complete d ps st now id body signature secret s).1
  unfolding handle_complete
  handle_complete-IsSound now id body signature secret s h =
      elim (Bool-cases (verify_signature d.hmac secret body signature)) [
        | inr forged ↦ rw forged h
        | inl signed ↦
            rw signed (
              complete_for-IsSound st.cleanup_remote_on_complete now id (d.report_of_body body) s h)
      ]

  probe_one-IsSound :
      (now timeout id : ℕ) (s : Session F E)
      → IsSound s
      → IsSound (probe_one d ps now timeout id s).1
  probe_one-IsSound now timeout id s h =
      probe_one-induct now id IsSound
        (λ e j events t adds _ k. ingested-IsSound now id e j events t adds k) d timeout
        (λ w t k. aside-IsSound t.artifacts w t k) (λ b t. IsSound t) (λ t k. k) (λ e t k. k)
        (λ j t _ k. save-IsSound (set_status now lost (codes "heartbeat timeout") true j) t k) ps s
        h

  saved_one-IsSound :
      (now timeout id : ℕ) (saved : Db F) (s₀ s : Session F E)
      → IsSound (record s₀ { db = saved })
      → IsSound s
      → IsSound (record s₀ { db = saved_one d ps now timeout id saved s })
  saved_one-IsSound now timeout id saved s₀ s r h =
      saved_one-induct now id IsSound
        (λ e j events t adds _ k. ingested-IsSound now id e j events t adds k) d timeout ps
        (λ db. IsSound (record s₀ { db = db })) (λ w t k. aside-IsSound t.artifacts w t k)
        (λ t k. aside-IsSound s₀.artifacts s₀.world t k) saved s r h

  probe_all-IsSound :
      (now timeout : ℕ) (js : List (ResearchJob F)) (saved : Db F) (s : Session F E)
      → IsSound (record s { db = saved })
      → IsSound s
      → IsSound (probe_all d ps now timeout js saved s).1
  unfolding probe_all
  probe_all-IsSound now timeout [] saved s r h = h
  probe_all-IsSound now timeout (j ∷ js) saved s r h =
      let t = (probe_one d ps now timeout j.id s).1 in
      let saved' = saved_one d ps now timeout j.id saved s in
      let k = saved_one-IsSound now timeout j.id saved s s r h in
      let r' = aside-IsSound t.artifacts t.world (record s { db = saved' }) k in
      elim (Result-cases (probe_one d ps now timeout j.id s).0) [
        | inr (e, threw) ↦ rw (threw, probe_all) r'
        | inl (gone, went) ↦
            rw (went, probe_all)
              (probe_all-IsSound now timeout js saved' t r'
                (probe_one-IsSound now timeout j.id s h))
      ]

  store_strategy-IsSound :
      (new now : ℕ) (j : ResearchJob F) (m : Manifest F)
      (r : Result VerifyError (VerifiedMetrics F)) (s : Session F E)
      → IsSound s
      → IsSound (store_strategy d market stats new now j m r s).1
  unfolding store_strategy
  store_strategy-IsSound new now j m (err e) s h = h
  store_strategy-IsSound new now j m (ok v) s h =
      let row = new_strategy new now j.id m v in
      let (strat, rows) = insert_strategy row s.db.strategies in
      save-IsSound (record j { strategy_id = some strat.id })
        (record s { db = record (s.db) { strategies = rows } })
        (record {
          jobs = h.jobs;
          events = h.events;
          packages = insert_strategy-Distinct row s.db.strategies h.packages;
        })

  import_package-IsSound :
      (new now today : ℕ) (j : ResearchJob F) (r : Result PackageError (Manifest F))
      (s : Session F E)
      → IsSound s
      → IsSound (import_package d market stats new now today j r s).1
  unfolding import_package
  import_package-IsSound new now today j (err e) s h = h
  import_package-IsSound new now today j (ok m) s h = store_strategy-IsSound new now j m _ s h

  handle_artifact-IsSound :
      (new now today id : ℕ) (bytes : Text) (signature : Option Text) (secret : Text)
      (s : Session F E)
      → IsSound s
      → IsSound (handle_artifact d market stats new now today id bytes signature secret s).1
  unfolding handle_artifact artifact_found
  handle_artifact-IsSound new now today id bytes signature secret s h =
      elim (Bool-cases (is_forged signature (verify_signature d.hmac secret bytes))) [
        | inl forged ↦ rw forged h
        | inr signed ↦ rw signed (elim (Option-cases (get_job id s.db.jobs)) [
          | inl missing ↦ rw missing h
          | inr (j, found) ↦
              let files = write_artifact id bytes s.artifacts in
              rw found (
                import_package-IsSound new now today j (load_package d bytes)
                  (record s { artifacts = files }) (aside-IsSound files s.world s h))
        ])
      ]

  store_signals-IsSound :
      (strategy date : ℕ) (r : Result Text (List (Text × SignalAction × F))) (s : Session F E)
      → IsSound s
      → IsSound (store_signals d market stats strategy date r s).1
  unfolding store_signals
  store_signals-IsSound strategy date (err e) s h = h
  store_signals-IsSound strategy date (ok rows) s h = record {
    jobs = h.jobs;
    events = h.events;
    packages = h.packages;
  }

  generate_signals-IsSound :
      (strategy date : ℕ) (s : Session F E)
      → IsSound s
      → IsSound (generate_signals d market stats strategy date s).1
  unfolding generate_signals signals_found
  generate_signals-IsSound strategy date s h =
      elim (Option-cases (get_strategy strategy s.db.strategies)) [
        | inl missing ↦ rw missing h
        | inr (strat, e) ↦ rw e (store_signals-IsSound strategy date _ s h)
      ]

  -- A new job has a new id.
  abbrev pub IsFresh : Call → Session F E → Type 0
  IsFresh (create now id r) s = All (λ j. j.id ≢ id) s.db.jobs
  IsFresh _ s = Unit

  pub handle-IsSound :
      (c : Call) (s : Session F E)
      → IsFresh c s
      → IsSound s
      → IsSound (handle st ps d market stats c s)
  unfolding handle probe_lost_jobs
  handle-IsSound (create now id r) s f h = create_job-IsSound now id r s f h
  handle-IsSound (start now id docker remote) s f h = start_job-IsSound ps now id docker remote s h
  handle-IsSound (retry now id) s f h = retry_job-IsSound now id s h
  handle-IsSound (cleanup id) s f h = cleanup_job-IsSound id s h
  handle-IsSound (event now id body sig secret) s f h =
      handle_event-IsSound now id body sig secret s h
  handle-IsSound (complete now id body sig secret) s f h =
      handle_complete-IsSound now id body sig secret s h
  handle-IsSound (artifact id now today job bytes sig secret) s f h =
      handle_artifact-IsSound id now today job bytes sig secret s h
  handle-IsSound (probe now) s f h =
      probe_all-IsSound now st.heartbeat_timeout_sec (list_running_jobs s.db.jobs) s.db s h h
  handle-IsSound (signals strategy date) s f h = generate_signals-IsSound strategy date s h

  pub data Runs (s : Session F E) : Session F E → Type 0 where
    here : Runs s s
    next :
        {t : Session F E} (c : Call)
        → Runs s t
        → IsFresh c t
        → Runs s (handle st ps d market stats c t)

  -- Whatever calls are made, the ids of jobs stay unique, no event is stored twice for a job and a
  -- number, and no package becomes two strategies.
  pub Runs-IsSound : {s t : Session F E} → IsSound s → Runs s t → IsSound t
  Runs-IsSound h here = h
  Runs-IsSound h (next {t = t} c r f) = handle-IsSound c t f (Runs-IsSound h r)
