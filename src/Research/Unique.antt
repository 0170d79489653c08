-- ===== src/Research/Unique.antt =====
-- What every call of `ResearchService` keeps unique (signal_research/service.py, repo.py), as the
-- keys and unique indices of the tables ask.
use signal_lab.Common.{
  ℕ, ◌≡◌, ◌≢◌, refl, sym, ◌∙◌, Bool, false, inl, inr, Option, none, Bool-cases, Option-cases, List,
  [], ◌∷◌, ◌++◌, All, Distinct, Distinct-append_one, arith, Result, ok, err, any,
}
use mathlib.Core.Path.{subst}
use signal_lab.Common.Text.{Text}
use signal_lab.Contracts.Events.{RunnerEvent}
use signal_lab.Research.Ports.{Provisioner, Provisioners}
use signal_lab.Research.Jobs.{
  startable, start_job, start_found, start_with, after_start, provisioner_for_start,
}
use signal_lab.Research.Reports.{touched}
use signal_lab.Research.Replay.{event_row, ingested}
use signal_lab.Research.Induct.{Adds}
use signal_lab.Research.Models.{provisioning, Runtime, ResearchJob, ResearchEvent, Strategy}
use signal_lab.Research.Repo.{set_status, get_job, is_stored, get_package, insert_strategy}
use signal_lab.Research.Session.{Session, save}
use signal_lab.Research.Table.{job_id, is_stored-append, flush_job-Distinct}

module _ {F : Type 0} where
  -- No two events have the same job and number.
  abbrev pub UniqueEvents : List (ResearchEvent F) → Type 0
  UniqueEvents [] = Unit
  UniqueEvents (e ∷ rows) = (is_stored e.job_id e.seq rows ≡ false) × UniqueEvents rows

  UniqueEvents-append :
      (rows : List (ResearchEvent F)) (e : ResearchEvent F)
      → UniqueEvents rows
      → is_stored e.job_id e.seq rows ≡ false
      → UniqueEvents (rows ++ e ∷ [])
  unfolding any
  UniqueEvents-append [] e h fresh = (refl, tt)
  UniqueEvents-append (x ∷ rows) e h fresh = (
    is_stored-append x.job_id x.seq rows e ∙ ground (arith, h.0, fresh),
    UniqueEvents-append rows e h.1 (ground arith),
  )

  abbrev pub package_id : Strategy F → ℕ
  package_id s = s.package_id

  get_package-none :
      (p : ℕ) (rows : List (Strategy F))
      → get_package p rows ≡ none
      → All (λ s. s.package_id ≢ p) rows
  unfolding get_package
  get_package-none p [] h = tt
  get_package-none p (s ∷ rows) h = (ground arith, get_package-none p rows (ground arith))

  pub insert_strategy-Distinct :
      (s : Strategy F) (rows : List (Strategy F))
      → Distinct package_id rows
      → Distinct package_id (insert_strategy s rows).1
  unfolding insert_strategy
  insert_strategy-Distinct s rows h = elim (Option-cases (get_package s.package_id rows)) [
    | inr (old, e) ↦ rw e h
    | inl missing ↦
        rw missing
          (Distinct-append_one package_id rows s h (get_package-none s.package_id rows missing))
  ]

-- Ids of jobs, the job and number of events, and the packages of strategies are unique.
pub record IsSound {F E : Type 0} (s : Session F E) : Type 0 where
  pub jobs : Distinct job_id s.db.jobs
  pub events : UniqueEvents s.db.events
  pub packages : Distinct package_id s.db.strategies

module _ {F E : Type 0} where
  pub save-IsSound : (j : ResearchJob F) (s : Session F E) → IsSound s → IsSound (save j s)
  save-IsSound j s h = record {
    jobs = flush_job-Distinct j s.db.jobs h.jobs;
    events = h.events;
    packages = h.packages;
  }

  -- The invariant does not read the world or the artifacts.
  pub aside-IsSound :
      (files : List (ℕ × Text)) (w : E) (s : Session F E)
      → IsSound s
      → IsSound (record s { artifacts = files; world = w })
  aside-IsSound files w s h = record { jobs = h.jobs; events = h.events; packages = h.packages }

  pub ingested-IsSound :
      (now id : ℕ) (e : RunnerEvent F) (j : ResearchJob F) (events : List (ResearchEvent F))
      (s : Session F E)
      → Adds id e s.db.events events
      → IsSound s
      → IsSound (ingested now e j events s)
  ingested-IsSound now id e j events s adds h = record {
    jobs = flush_job-Distinct (touched now e j) s.db.jobs h.jobs;
    events = elim adds [
      | inl same ↦ subst UniqueEvents (sym same) h.events
      | inr (fresh, more) ↦
          subst UniqueEvents (sym more)
            (UniqueEvents-append s.db.events (event_row id e) h.events fresh)
    ];
    packages = h.packages;
  }

  pub start_job-IsSound :
      (ps : Provisioners F E) (now id : ℕ) (use_docker : Bool) (use_remote : Option Bool)
      (s : Session F E)
      → IsSound s
      → IsSound (start_job ps now id use_docker use_remote s).1
  unfolding start_job start_found start_with
  start_job-IsSound ps now id use_docker use_remote s h =
      elim (Option-cases (get_job id s.db.jobs)) [
        | inl missing ↦ rw missing h
        | inr (j, found) ↦ rw found (elim (Bool-cases (startable j.status)) [
          | inr refused ↦ rw refused h
          | inl ready ↦ rw ready (ends (provisioner_for_start ps use_docker use_remote j) j)
        ])
      ]
    where
      after :
          (answer : Result Text Runtime) (j : ResearchJob F) (t : Session F E)
          → IsSound t
          → IsSound (after_start now j answer t).1
      after (ok runtime) j t k = unfold after_start in save-IsSound _ t k
      after (err e) j t k = unfold after_start in save-IsSound _ t k

      ends : (p : Provisioner F E) (j : ResearchJob F) → IsSound (start_with p now j s).1
      ends p j =
          let j' = set_status now provisioning [] false j in
          let (answer, w) = p.start j'.id j'.spec s.world in
          after answer j' _ (save-IsSound j' _ (aside-IsSound s.artifacts w s h))
