-- ===== src/Research/Life.antt =====
-- How a job moves from status to status (signal_research/service.py).
use signal_lab.Common.{
  ℕ, ◌≡◌, ◌⊎◌, refl, sym, ap, ◌∙◌, Bool, true, false, inl, inr, Option, none, some, Bool-cases,
  Option-cases, List, [], ◌∷◌, arith, Result, ok, err, take,
}
use mathlib.Core.Path.{subst}
use signal_lab.Common.Text.{Text}
use signal_lab.Contracts.Events.{CompletionStatus, CompletionReport}
use signal_lab.Research.Models.{
  JobStatus, provisioning, running, failed, Runtime, ResearchJob, Strategy,
}
use signal_lab.Research.Repo.{get_job, flush_job, set_status, update_runtime, touch_heartbeat}
use signal_lab.Research.Ports.{Provisioners}
use signal_lab.Research.Session.{Session}
use signal_lab.Research.Jobs.{
  startable, after_start, start_with, start_found, start_job, provisioner_for_start, retry_found,
  retry_job, is_lost,
}
use signal_lab.Research.Reports.{status_of, completed}
use signal_lab.Research.Table.{id-get_job}
use signal_lab.Research.Moves.{Drifts, Drift, Related, Related-refl, Related-flush}

-- Drifting, being started, and, where a report says so, ending.
abbrev pub Moves : Bool → JobStatus → JobStatus → Type 0
Moves reported s t =
    Drifts s t
    ⊎ (((startable s ≡ true) × ((t ≡ running) ⊎ (t ≡ failed)))
        ⊎ ((reported ≡ true) × ((c : CompletionStatus) × (t ≡ status_of c))))

module _ {F : Type 0} where
  abbrev pub Move : Bool → ResearchJob F → ResearchJob F → Type 0
  Move reported j i = Moves reported j.status i.status × (i.spec ≡ j.spec)

  pub Move-refl : (b : Bool) (j : ResearchJob F) → Move b j j
  Move-refl b j = (inl (inl refl), refl)

  pub Move-Drift :
      (b : Bool) (m n : Option (ResearchJob F)) → Related Drift m n → Related (Move b) m n
  Move-Drift b none none h = tt
  Move-Drift b none (some i) h = h
  Move-Drift b (some j) none h = h
  Move-Drift b (some j) (some i) h = (inl h.0, h.1)

  flush_job-flush :
      (j i : ResearchJob F) (rows : List (ResearchJob F))
      → i.id ≡ j.id
      → flush_job j (flush_job i rows) ≡ flush_job j rows
  unfolding flush_job
  flush_job-flush j i [] e = refl
  flush_job-flush j i (x ∷ rows) e = ground (arith, flush_job-flush j i rows e)

  pub Turns-write :
      (k : ℕ) (b : Bool) (old j : ResearchJob F) (rows rows' : List (ResearchJob F))
      → get_job j.id rows ≡ some old
      → Move b old j
      → rows' ≡ flush_job j rows
      → Related (Move b) (get_job k rows) (get_job k rows')
  Turns-write k b old j rows rows' found h e =
      subst (λ x. Related (Move b) (get_job k rows) (get_job k x)) (sym e)
        (Related-flush (Move b) (Move-refl b) k old j rows found h)

  -- The row of a completion report.
  pub completed-Move :
      (now : ℕ) (r : CompletionReport F) (strategies : List (Strategy F)) (j : ResearchJob F)
      → Move true j (completed now r strategies j)
  unfolding completed set_status
  completed-Move now r strategies j = (inr (inr (refl, (r.status, ground arith))), ground arith)

module _ {F E : Type 0} (k : ℕ) where
  -- Every row of the id `k` moves as it may.
  abbrev pub Turns : Bool → Session F E → Session F E → Type 0
  Turns b s t = Related (Move b) (get_job k s.db.jobs) (get_job k t.db.jobs)

  pub Turns-refl : (b : Bool) (s : Session F E) → Turns b s s
  Turns-refl b s = Related-refl (Move b) (Move-refl b) (get_job k s.db.jobs)

  after_start-Turns :
      (now : ℕ) (old j : ResearchJob F) (answer : Result Text Runtime) (s t : Session F E)
      → get_job j.id s.db.jobs ≡ some old
      → startable old.status ≡ true
      → (j.spec ≡ old.spec)
      → t.db.jobs ≡ flush_job j s.db.jobs
      → Turns false s (after_start now j answer t).1
  unfolding after_start set_status update_runtime touch_heartbeat
  after_start-Turns now old j (err message) s t found ready spec e =
      let j' = set_status now failed (take 500 message) true j in
      Turns-write k false old j' s.db.jobs _ found (inr (inl (ready, inr refl)), spec)
        (ap (flush_job j') e ∙ flush_job-flush j' j s.db.jobs refl)
  after_start-Turns now old j (ok runtime) s t found ready spec e =
      let j' =
        touch_heartbeat now none none none none
          (set_status now running [] false (update_runtime now runtime j)) in
      Turns-write k false old j' s.db.jobs _ found (inr (inl (ready, inl refl)), spec)
        (ap (flush_job j') e ∙ flush_job-flush j' j s.db.jobs refl)

  pub start_job-Turns :
      (ps : Provisioners F E) (now id : ℕ) (use_docker : Bool) (use_remote : Option Bool)
      (s : Session F E)
      → Turns false s (start_job ps now id use_docker use_remote s).1
  unfolding start_job start_found start_with set_status
  start_job-Turns ps now id use_docker use_remote s = elim (Option-cases (get_job id s.db.jobs)) [
    | inl missing ↦ rw missing (Turns-refl false s)
    | inr (j, found) ↦ rw found (elim (Bool-cases (startable j.status)) [
      | inr refused ↦ rw refused (Turns-refl false s)
      | inl ready ↦
          let p = provisioner_for_start ps use_docker use_remote j in
          let j' = set_status now provisioning [] false j in
          let own : get_job j.id s.db.jobs ≡ some j =
            ap (λ m. get_job m s.db.jobs) (id-get_job id j s.db.jobs found) ∙ found in
          rw ready
            (after_start-Turns now j j' (p.start j.id j.spec s.world).0 s _ own ready refl refl)
    ])
  ]

  pub retry_job-Turns :
      (ps : Provisioners F E) (now id : ℕ) (s : Session F E)
      → Turns false s (retry_job ps now id s).1
  unfolding retry_job retry_found
  retry_job-Turns ps now id s = elim (Option-cases (get_job id s.db.jobs)) [
    | inl missing ↦ rw missing (Turns-refl false s)
    | inr (j, found) ↦ rw found (elim (Bool-cases (is_lost j.status)) [
      | inl gone ↦ rw gone (start_job-Turns ps now id false none s)
      | inr other ↦ rw other (Turns-refl false s)
    ])
  ]
