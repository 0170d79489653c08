-- ===== src/Research/Fate.antt =====
-- What any call does to any job (signal_research/service.py).
use signal_lab.Common.{
  Result-cases, ℕ, ◌==◌, ◌≡◌, refl, ap, ◌∙◌, Bool, false, inl, inr, Option, none, some,
  Option-cases, Result-cases, List, [], ◌∷◌, All, All-map₂, All-map, All-select, All-select_test,
  Distinct, Result, ok, err,
}
use mathlib.Core.Path.{subst}
use signal_lab.Common.Float.{Floats}
use signal_lab.Common.Text.{Text}
use signal_lab.Research.Models.{Db, SignalAction, ResearchJob}
use signal_lab.Research.Repo.{get_strategy, get_job, is_open, list_running_jobs}
use signal_lab.Research.Ports.{Provisioners, MarketBarsPort, Decoders, ResearchSettings}
use signal_lab.Research.Session.{Session}
use signal_lab.Research.Create.{JobRequest, build_spec, create_job, new_job}
use signal_lab.Research.Jobs.{cleanup_job, cleanup_found}
use signal_lab.Research.Probe.{probe_one, saved_one, probe_all, probe_lost_jobs}
use signal_lab.Research.Validator.{Statistics}
use signal_lab.Research.Strategies.{generate_signals, signals_found, store_signals}
use signal_lab.Research.Calls.{
  Call, create, start, retry, cleanup, event, complete, artifact, probe, signals, handle,
}
use signal_lab.Research.Table.{get_job-own, get_job-append, job_id}
use signal_lab.Research.Moves.{Related, Keeps, Keeps-refl, Keeps-trans, IsWatched, Drift-IsWatched}
use signal_lab.Research.Life.{Move, Move-refl, Move-Drift, start_job-Turns, retry_job-Turns}
use signal_lab.Research.Course.{
  handle_event-Keeps, handle_complete-Turns, probe_one-Keeps, saved_one-Keeps,
  handle_artifact-Turns,
}

module _ {F E J : Type 0} (d : Decoders F J) (ps : Provisioners F E) where
  probe_all-Keeps :
      (k now timeout : ℕ) (js : List (ResearchJob F)) (saved : Db F) (s₀ s : Session F E)
      → All (λ j. IsWatched (get_job j.id s.db.jobs)) js
      → Keeps k s₀ s
      → Keeps k s₀ (record s₀ { db = saved })
      → Keeps k s₀ (probe_all d ps now timeout js saved s).1
  unfolding probe_all
  probe_all-Keeps k now timeout [] saved s₀ s h here r = here
  probe_all-Keeps k now timeout (j ∷ js) saved s₀ s h here r =
      let t = (probe_one d ps now timeout j.id s).1 in
      let saved' = saved_one d ps now timeout j.id saved s in
      let r' = saved_one-Keeps k d ps now timeout j.id s₀ s saved h.0 here r in
      elim (Result-cases (probe_one d ps now timeout j.id s).0) [
        | inr (e, threw) ↦ rw (threw, probe_all) r'
        | inl (gone, went) ↦
            rw (went, probe_all)
              (probe_all-Keeps k now timeout js saved' s₀ t
                (All-map js
                  (λ i w.
                    Drift-IsWatched (get_job i.id s.db.jobs) (get_job i.id t.db.jobs)
                      (probe_one-Keeps i.id d ps now timeout j.id s h.0) w)
                  h.1)
                (Keeps-trans k s₀ s t here (probe_one-Keeps k d ps now timeout j.id s h.0)) r')
      ]

  probe_lost_jobs-Keeps :
      (k now timeout : ℕ) (s : Session F E)
      → Distinct job_id s.db.jobs
      → Keeps k s (probe_lost_jobs d ps now timeout s).1
  unfolding probe_lost_jobs list_running_jobs
  probe_lost_jobs-Keeps k now timeout s u =
      probe_all-Keeps k now timeout (list_running_jobs s.db.jobs) s.db s s
        (All-map₂ _ (λ j found open_. rw found (inl open_))
          (All-select (λ j. get_job j.id s.db.jobs ≡ some j) _ s.db.jobs (get_job-own s.db.jobs u))
          (All-select_test (λ j. is_open j.status) s.db.jobs))
        (Keeps-refl k s) (Keeps-refl k s)

-- A completion report about the job `k`.
abbrev pub is_report : ℕ → Call → Bool
is_report k (complete now id body signature secret) = id == k
is_report k _ = false

module _ {F E J : Type 0} ⦃fl : Floats F⦄ (st : ResearchSettings F) (ps : Provisioners F E)
    (d : Decoders F J) (market : MarketBarsPort F) (stats : Statistics F) where
  -- The row of `k` after a call, for a row `j` before it.
  abbrev pub Goes : ℕ → Bool → ResearchJob F → Session F E → Type 0
  Goes k b j t = (i : ResearchJob F) × (get_job k t.db.jobs ≡ some i) × Move b j i

  Goes-Related :
      (k : ℕ) (b : Bool) (j : ResearchJob F) (m : Option (ResearchJob F)) (t : Session F E)
      → m ≡ some j
      → Related (Move b) m (get_job k t.db.jobs)
      → Goes k b j t
  Goes-Related k b j m t e h =
      go (get_job k t.db.jobs) refl (subst (λ x. Related (Move b) x (get_job k t.db.jobs)) e h)
    where
      go :
          (n : Option (ResearchJob F))
          → get_job k t.db.jobs ≡ n
          → Related (Move b) (some j) n
          → Goes k b j t
      go none f r = absurd r
      go (some i) f r = (i, f, r)

  create_job-Goes :
      (now id : ℕ) (r : JobRequest) (k : ℕ) (j : ResearchJob F) (s : Session F E)
      → get_job k s.db.jobs ≡ some j
      → Goes k false j (create_job st now id r s).1
  unfolding create_job
  create_job-Goes now id r k j s found = elim (Result-cases (build_spec st id r)) [
    | inl (spec, e) ↦
        let more = get_job-append k j s.db.jobs (new_job now spec ∷ []) found in
        rw (e, create_job) (j, more, Move-refl false j)
    | inr (x, e) ↦ rw (e, create_job) (j, found, Move-refl false j)
  ]

  jobs-cleanup_job : (id : ℕ) (s : Session F E) → (cleanup_job ps id s).1.db.jobs ≡ s.db.jobs
  unfolding cleanup_job cleanup_found
  jobs-cleanup_job id s = elim (Option-cases (get_job id s.db.jobs)) [
    | inl missing ↦ rw missing refl
    | inr (i, e) ↦ rw e refl
  ]

  jobs-store_signals :
      (strategy date : ℕ) (r : Result Text (List (Text × SignalAction × F))) (s : Session F E)
      → (store_signals d market stats strategy date r s).1.db.jobs ≡ s.db.jobs
  unfolding store_signals
  jobs-store_signals strategy date (err e) s = refl
  jobs-store_signals strategy date (ok rows) s = refl

  jobs-generate_signals :
      (strategy date : ℕ) (s : Session F E)
      → (generate_signals d market stats strategy date s).1.db.jobs ≡ s.db.jobs
  unfolding generate_signals signals_found
  jobs-generate_signals strategy date s =
      elim (Option-cases (get_strategy strategy s.db.strategies)) [
        | inl missing ↦ rw missing refl
        | inr (strat, e) ↦ rw e (jobs-store_signals strategy date _ s)
      ]

  stays :
      (k : ℕ) (b : Bool) (j : ResearchJob F) (s t : Session F E)
      → t.db.jobs ≡ s.db.jobs
      → get_job k s.db.jobs ≡ some j
      → Goes k b j t
  stays k b j s t e found = (j, ap (get_job k) e ∙ found, Move-refl b j)

  -- A call moves a job only so: one that is provisioning or running may come to run or be lost; a
  -- draft, lost or failed one may be started, and then runs or has failed; and only a completion
  -- report about the job gives it any other status. Its specification never changes.
  pub job_moves :
      (c : Call) (k : ℕ) (j : ResearchJob F) (s : Session F E)
      → Distinct job_id s.db.jobs
      → get_job k s.db.jobs ≡ some j
      → Goes k (is_report k c) j (handle st ps d market stats c s)
  unfolding handle
  job_moves (create now id r) k j s u found = create_job-Goes now id r k j s found
  job_moves (start now id use_docker use_remote) k j s u found =
      Goes-Related k false j (get_job k s.db.jobs)
        (handle st ps d market stats (start now id use_docker use_remote) s) found
        (start_job-Turns k ps now id use_docker use_remote s)
  job_moves (retry now id) k j s u found =
      Goes-Related k false j (get_job k s.db.jobs) (handle st ps d market stats (retry now id) s)
        found (retry_job-Turns k ps now id s)
  job_moves (cleanup id) k j s u found =
      stays k false j s (handle st ps d market stats (cleanup id) s) (jobs-cleanup_job id s) found
  job_moves (event now id body signature secret) k j s u found =
      Goes-Related k false j (get_job k s.db.jobs)
        (handle st ps d market stats (event now id body signature secret) s) found
        (Move-Drift false (get_job k s.db.jobs)
          (get_job k (handle st ps d market stats (event now id body signature secret) s).db.jobs)
          (handle_event-Keeps k d ps now id body signature secret s))
  job_moves (complete now id body signature secret) k j s u found =
      Goes-Related k (id == k) j (get_job k s.db.jobs)
        (handle st ps d market stats (complete now id body signature secret) s) found
        (handle_complete-Turns k d ps st now id body signature secret s)
  job_moves (artifact id now today job bytes signature secret) k j s u found =
      Goes-Related k false j (get_job k s.db.jobs)
        (handle st ps d market stats (artifact id now today job bytes signature secret) s) found
        (handle_artifact-Turns k d ps market stats id now today job bytes signature secret s)
  job_moves (probe now) k j s u found =
      Goes-Related k false j (get_job k s.db.jobs) (handle st ps d market stats (probe now) s) found
        (Move-Drift false (get_job k s.db.jobs)
          (get_job k (handle st ps d market stats (probe now) s).db.jobs)
          (probe_lost_jobs-Keeps d ps k now st.heartbeat_timeout_sec s u))
  job_moves (signals strategy date) k j s u found =
      stays k false j s (handle st ps d market stats (signals strategy date) s)
        (jobs-generate_signals strategy date s) found
