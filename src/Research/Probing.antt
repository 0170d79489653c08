-- ===== src/Research/Probing.antt =====
-- Which jobs `probe_lost_jobs` gives up (signal_research/service.py).
use mathlib.Core.Path.{subst}
use signal_lab.Common.{
  Bool, Result, ok, err, if◌then◌else◌, ℕ, ◌==◌, ◌≡◌, ◌≢◌, ◌⊎◌, refl, sym, ap, ◌∙◌, true, false,
  inl, inr, some, Bool-cases, List, [], ◌∷◌, All, All-map, All-map₂, All-select, All-select_test,
  Distinct, Distinct-select, arith,
}
use signal_lab.Common.Text.{Text, codes}
use signal_lab.Research.Models.{lost, Db, ResearchJob}
use signal_lab.Research.Repo.{get_job, flush_job, is_open, set_status, list_running_jobs}
use signal_lab.Research.Ports.{Provisioners, Decoders}
use signal_lab.Research.Session.{Session}
use signal_lab.Research.Reports.{touched}
use signal_lab.Research.Probe.{is_stale, probe_one, saved_one, probe_all, probe_lost_jobs}
use signal_lab.Research.Table.{id-get_job, get_job-flush, get_job-own, job_id}
use signal_lab.Research.Moves.{id-touched}
use signal_lab.Research.Induct.{probe_one-induct, probe_one_fresh, probe_all-WentOn}

false-true : (r : Result Text Bool) → r ≡ ok false → r ≡ ok true → ⊥
false-true r a b = cc

some_inj : {A : Type 0} {x y : A} → some x ≡ some y → x ≡ y
some_inj e = cc

module _ {F E J : Type 0} (d : Decoders F J) (ps : Provisioners F E) (now timeout : ℕ) where
  -- An open job that was not heard of for the length of the timeout.
  abbrev pub WasSilent : ℕ → Session F E → Type 0
  WasSilent k s =
      (j : ResearchJob F) × (get_job k s.db.jobs ≡ some j)
      × (is_open j.status ≡ true)
      × (is_stale now timeout j.last_heartbeat_at ≡ true)

  abbrev pub IsLost : ℕ → Session F E → Type 0
  IsLost k t =
      (j : ResearchJob F) × (get_job k t.db.jobs ≡ some j)
      × (j.status ≡ lost)
      × (j.finished_at ≡ some now)

  -- A write to the row of another id.
  write_other :
      (k id : ℕ) (j old : ResearchJob F) (rows : List (ResearchJob F))
      → j.id ≡ id
      → id ≢ k
      → get_job id rows ≡ some old
      → get_job k (flush_job j rows) ≡ get_job k rows
  write_other k id j old rows e ne found =
      get_job-flush k j old rows (ap (λ m. get_job m rows) e ∙ found) ∙ ground (arith, e, ne)

  probe_one_other :
      (k id : ℕ) (s : Session F E)
      → id ≢ k
      → get_job k (probe_one d ps now timeout id s).1.db.jobs ≡ get_job k s.db.jobs
  probe_one_other k id s ne =
      let P : Session F E → Type 0 = λ t. get_job k t.db.jobs ≡ get_job k s.db.jobs in
      probe_one-induct now id P
        (λ e j events t _ found h.
          write_other k id (touched now e j) j t.db.jobs
            (id-touched now e j ∙ id-get_job id j t.db.jobs found) ne found
          ∙ h)
        d timeout (λ w t h. h) (λ b t. P t) (λ t h. h) (λ e t h. h)
        (λ j t found h.
          unfold set_status in
          write_other k id (set_status now lost (codes "heartbeat timeout") true j) j t.db.jobs
            (id-get_job id j t.db.jobs found) ne found
          ∙ h)
        ps s refl

  probe_one-IsLost :
      (id : ℕ) (s : Session F E)
      → (probe_one d ps now timeout id s).0 ≡ ok true
      → IsLost id (probe_one d ps now timeout id s).1
  probe_one-IsLost id s =
      probe_one-induct now id (λ t. Unit {0}) (λ e j events t _ found h. tt) d timeout (λ w t h. tt)
        (λ b t. b ≡ ok true → IsLost id t) (λ t h e. absurd (cc)) (λ x t h e. absurd (cc))
        (λ j t found h e.
          let j' = set_status now lost (codes "heartbeat timeout") true j in
          unfold set_status in
          (
            j',
            get_job-flush id j' j t.db.jobs
                  (ap (λ m. get_job m t.db.jobs) (id-get_job id j t.db.jobs found) ∙ found)
                ∙ ground (arith, id-get_job id j t.db.jobs found),
            refl,
            refl,
          ))
        ps s tt

  probe_one_silent :
      (j : ResearchJob F) (s : Session F E)
      → get_job j.id s.db.jobs ≡ some j
      → (probe_one d ps now timeout j.id s).0 ≡ ok true
      → is_stale now timeout j.last_heartbeat_at ≡ true
  probe_one_silent j s found flagged =
      elim (Bool-cases (is_stale now timeout j.last_heartbeat_at)) [
        | inl stale ↦ stale
        | inr fresh ↦
            let e = probe_one_fresh d ps now timeout j.id j s found fresh in
            absurd (false-true _ (ap (λ r. r.0) e) flagged)
      ]

  probe_all_other :
      (k : ℕ) (js : List (ResearchJob F)) (saved : Db F) (s : Session F E) (marked : List ℕ)
      → (probe_all d ps now timeout js saved s).0 ≡ ok marked
      → All (λ j. j.id ≢ k) js
      → get_job k (probe_all d ps now timeout js saved s).1.db.jobs ≡ get_job k s.db.jobs
  unfolding probe_all
  probe_all_other k [] saved s marked e h = refl
  probe_all_other k (j ∷ js) saved s marked e h =
      let w = probe_all-WentOn d ps now timeout j js saved s marked e in
      ap (λ t. get_job k t.db.jobs) w.ends
      ∙ probe_all_other k js _ (probe_one d ps now timeout j.id s).1 w.more w.rest h.1
      ∙ probe_one_other k j.id s h.0

  -- The rows of the loop are still those of the table.
  abbrev AsRead : List (ResearchJob F) → Session F E → Type 0
  AsRead js s = All (λ j. get_job j.id s.db.jobs ≡ some j) js

  AsRead-probe_one :
      (id : ℕ) (js : List (ResearchJob F)) (s : Session F E)
      → All (λ j. id ≢ j.id) js
      → AsRead js s
      → AsRead js (probe_one d ps now timeout id s).1
  AsRead-probe_one id js s ne h =
      All-map₂ js (λ j n found. probe_one_other j.id id s n ∙ found) ne h

  -- The round of a job that is not open, or fresh.
  probe_one_untouched :
      (k : ℕ) (j i : ResearchJob F) (s : Session F E)
      → (is_open j.status ≡ false) ⊎ (is_stale now timeout j.last_heartbeat_at ≡ false)
      → is_open i.status ≡ true
      → get_job i.id s.db.jobs ≡ some i
      → get_job k s.db.jobs ≡ some j
      → get_job k (probe_one d ps now timeout i.id s).1.db.jobs ≡ some j
  probe_one_untouched k j i s why open_ read found = elim (Bool-cases (i.id == k)) [
    | inr away ↦ probe_one_other k i.id s (ground arith) ∙ found
    | inl here ↦
        let at : i.id ≡ k = ground arith in
        let same : i ≡ j = some_inj (sym read ∙ ap (λ m. get_job m s.db.jobs) at ∙ found) in
        elim why [
          | inl closed ↦ absurd (ground (arith, open_, closed, ap (λ x. is_open x.status) same))
          | inr fresh ↦
              ap (λ r. get_job k r.1.db.jobs)
                (probe_one_fresh d ps now timeout i.id i s read
                  (ap (λ x. is_stale now timeout x.last_heartbeat_at) same ∙ fresh))
              ∙ found
        ]
  ]

  probe_all_untouched :
      (k : ℕ) (j : ResearchJob F)
      → (is_open j.status ≡ false) ⊎ (is_stale now timeout j.last_heartbeat_at ≡ false)
      → (js : List (ResearchJob F)) (saved : Db F) (s : Session F E) (marked : List ℕ)
      → (probe_all d ps now timeout js saved s).0 ≡ ok marked
      → Distinct job_id js
      → All (λ i. is_open i.status ≡ true) js
      → AsRead js s
      → get_job k s.db.jobs ≡ some j
      → get_job k (probe_all d ps now timeout js saved s).1.db.jobs ≡ some j
  unfolding probe_all
  probe_all_untouched k j why [] saved s marked e u o h found = found
  probe_all_untouched k j why (i ∷ js) saved s marked e u o h found =
      let w = probe_all-WentOn d ps now timeout i js saved s marked e in
      ap (λ t. get_job k t.db.jobs) w.ends
      ∙ probe_all_untouched k j why js _ (probe_one d ps now timeout i.id s).1 w.more w.rest u.1 o.1
          (AsRead-probe_one i.id js s u.0 h.1) (probe_one_untouched k j i s why o.0 h.0 found)

  module _ (s₀ : Session F E) where
    -- What is shown of each job that a round has marked, `t` being the state at the end.
    abbrev GivenUp : Session F E → ℕ → Type 0
    GivenUp t k = WasSilent k s₀ × IsLost k t

    abbrev Opened : List (ResearchJob F) → Type 0
    Opened js = All (λ j. (get_job j.id s₀.db.jobs ≡ some j) × (is_open j.status ≡ true)) js

    probe_all_marked :
        (js : List (ResearchJob F)) (saved : Db F) (s : Session F E) (marked : List ℕ)
        → (probe_all d ps now timeout js saved s).0 ≡ ok marked
        → Distinct job_id js
        → Opened js
        → AsRead js s
        → All (GivenUp (probe_all d ps now timeout js saved s).1) marked
    unfolding probe_all
    probe_all_marked [] saved s marked e u o h =
        subst (All (GivenUp s)) (ap (λ r. elim r [ ok x ↦ x | err y ↦ marked ]) e) tt
    probe_all_marked (j ∷ js) saved s marked e u o h =
        let w = probe_all-WentOn d ps now timeout j js saved s marked e in
        let s' = (probe_one d ps now timeout j.id s).1 in
        let saved' = saved_one d ps now timeout j.id saved s in
        let t = (probe_all d ps now timeout js saved' s').1 in
        let rest =
          probe_all_marked js saved' s' w.more w.rest u.1 o.1
            (AsRead-probe_one j.id js s u.0 h.1) in
        subst (λ ms. All (GivenUp (probe_all d ps now timeout (j ∷ js) saved s).1) ms)
          (sym w.is_marked)
          (subst (λ x. All (GivenUp x) (if w.gone then j.id ∷ w.more else w.more)) (sym w.ends)
            (first w.gone w.more w.rest rest w.first))
      where
        first :
            (gone : Bool) (more : List ℕ)
            → (probe_all d ps now timeout js
                (saved_one d ps now timeout j.id saved s)
                (probe_one d ps now timeout j.id s).1).0
              ≡ ok more
            → All
                (GivenUp
                  (probe_all d ps now timeout js
                    (saved_one d ps now timeout j.id saved s)
                    (probe_one d ps now timeout j.id s).1).1)
                more
            → (probe_one d ps now timeout j.id s).0 ≡ ok gone
            → All
                (GivenUp
                  (probe_all d ps now timeout js
                    (saved_one d ps now timeout j.id saved s)
                    (probe_one d ps now timeout j.id s).1).1)
                (if gone then j.id ∷ more else more)
        first false more went rest flagged = rest
        first true more went rest flagged =
            let s' = (probe_one d ps now timeout j.id s).1 in
            let silent = probe_one_silent j s h.0 flagged in
            let (i, found, is_lost, finished) = probe_one-IsLost j.id s flagged in
            let same =
              probe_all_other j.id js (saved_one d ps now timeout j.id saved s) s' more went
                (All-map js (λ i n e. n (sym e)) u.0) in
            (((j, o.0.0, o.0.1, silent), (i, same ∙ found, is_lost, finished)), rest)

  -- Where no question after a runner raises: a job that the probe marks was open and silent for the
  -- length of the timeout, and is lost afterwards. The row of a job that is not open, or was heard of
  -- lately, does not change.
  pub probe_marks_silent :
      (s : Session F E) (marked : List ℕ)
      → Distinct job_id s.db.jobs
      → (probe_lost_jobs d ps now timeout s).0 ≡ ok marked
      → let t = (probe_lost_jobs d ps now timeout s).1 in
        All (λ k. WasSilent k s × IsLost k t) marked
        × ((k : ℕ) (j : ResearchJob F)
            → get_job k s.db.jobs ≡ some j
            → (is_open j.status ≡ false) ⊎ (is_stale now timeout j.last_heartbeat_at ≡ false)
            → get_job k t.db.jobs ≡ some j)
  unfolding probe_lost_jobs list_running_jobs
  probe_marks_silent s marked u e =
      let own = get_job-own s.db.jobs u in
      let js = list_running_jobs s.db.jobs in
      let read = All-select (λ j. get_job j.id s.db.jobs ≡ some j) _ s.db.jobs own in
      let ids = Distinct-select job_id _ s.db.jobs u in
      (
        probe_all_marked s js s.db s marked e ids
            (All-map₂ js (λ j found open_. (found, open_)) read
              (All-select_test (λ j. is_open j.status) s.db.jobs))
            read,
        λ k j found why.
            probe_all_untouched k j why js s.db s marked e ids
              (All-select_test (λ j. is_open j.status) s.db.jobs) read found,
      )
