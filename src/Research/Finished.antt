-- ===== src/Research/Finished.antt =====
-- Jobs that have ended (signal_research/service.py).
use signal_lab.Common.{ℕ, ◌≡◌, refl, sym, ap, ◌∙◌, Bool, true, false, inl, inr, some, arith}
use mathlib.Core.Path.{subst}
use signal_lab.Common.Float.{Floats}
use signal_lab.Research.Models.{JobStatus, succeeded, budget_exceeded, ResearchJob}
use signal_lab.Research.Repo.{get_job}
use signal_lab.Research.Ports.{Provisioners, MarketBarsPort, Decoders, ResearchSettings}
use signal_lab.Research.Session.{Session}
use signal_lab.Research.Validator.{Statistics}
use signal_lab.Research.Life.{Moves}
use signal_lab.Research.Fate.{is_report, job_moves}
use signal_lab.Research.Unique.{IsSound}
use signal_lab.Research.Reach.{Runs, here, next, Runs-IsSound}

abbrev pub is_finished : JobStatus → Bool
is_finished succeeded = true
is_finished budget_exceeded = true
is_finished _ = false

finished_same : (s t : JobStatus) → is_finished s ≡ true → Moves false s t → t ≡ s
finished_same s t f (inl (inl e)) = sym e
finished_same s t f (inl (inr (o, r))) = absurd (ground (arith, f, o))
finished_same s t f (inr (inl (o, r))) = absurd (ground (arith, f, o))
finished_same s t f (inr (inr (r, c))) = absurd (cc)

module _ {F E J : Type 0} ⦃fl : Floats F⦄ (st : ResearchSettings F) (ps : Provisioners F E)
    (d : Decoders F J) (market : MarketBarsPort F) (stats : Statistics F) where
  -- A run in which no completion report about the job arrives.
  abbrev pub Quiet : {s t : Session F E} → ℕ → Runs st ps d market stats s t → Type 0
  Quiet k here = Unit
  Quiet k (next c r f) = Quiet k r × (is_report k c ≡ false)

  -- A job that has succeeded or used up its budget keeps its status, and its specification, over
  -- all calls that are no completion report about it: no late event, probe or retry moves it.
  pub finished_stays :
      (k : ℕ) (j : ResearchJob F) {s t : Session F E}
      → IsSound s
      → get_job k s.db.jobs ≡ some j
      → is_finished j.status ≡ true
      → (r : Runs st ps d market stats s t) → Quiet k r
      → (i : ResearchJob F) × (get_job k t.db.jobs ≡ some i)
        × (i.status ≡ j.status)
        × (i.spec ≡ j.spec)
  finished_stays k j h found f here q = (j, found, refl, refl)
  finished_stays k j h found f (next {t = t} c r fresh) q =
      let (i, found_i, status, spec) = finished_stays k j h found f r q.0 in
      let (n, found_n, (moves, spec_n)) =
        job_moves st ps d market stats c k i t (Runs-IsSound st ps d market stats h r).jobs
          found_i in
      let still : is_finished i.status ≡ true = ap is_finished status ∙ f in
      let same =
        finished_same i.status n.status still (subst (λ b. Moves b i.status n.status) q.1 moves) in
      (n, found_n, same ∙ status, spec_n ∙ spec)
