-- ===== src/Research/Moves.antt =====
-- How the row of a job moves while its runner reports and is probed (signal_research/service.py).
use signal_lab.Common.{
  ℕ, ◌==◌, ◌≡◌, ◌⊎◌, refl, sym, ap, ◌∙◌, true, inl, inr, Option, none, some, Bool-cases, List,
  arith,
}
use mathlib.Core.Path.{subst}
use signal_lab.Common.Text.{Text}
use signal_lab.Contracts.Events.{RunnerEvent}
use signal_lab.Research.Models.{JobStatus, provisioning, running, lost, ResearchJob, ResearchEvent}
use signal_lab.Research.Repo.{get_job, flush_job, is_open, set_status, touch_heartbeat}
use signal_lab.Research.Session.{Session}
use signal_lab.Research.Reports.{touched}
use signal_lab.Research.Table.{id-get_job, get_job-flush}
use signal_lab.Research.Replay.{ingested}

-- An open job may come to run, or be lost.
abbrev pub Drifts : JobStatus → JobStatus → Type 0
Drifts s t = (s ≡ t) ⊎ ((is_open s ≡ true) × ((t ≡ running) ⊎ (t ≡ lost)))

Drifts-trans : (s t u : JobStatus) → Drifts s t → Drifts t u → Drifts s u
Drifts-trans s t u (inl e) (inl f) = inl (e ∙ f)
Drifts-trans s t u (inl e) (inr (o, r)) = inr (ap is_open e ∙ o, r)
Drifts-trans s t u (inr (o, r)) (inl f) = inr (o, subst (λ x. (x ≡ running) ⊎ (x ≡ lost)) f r)
Drifts-trans s t u (inr (o, r)) (inr (o', r')) = inr (o, r')

module _ {F : Type 0} where
  -- The specification of a job never changes.
  abbrev pub Drift : ResearchJob F → ResearchJob F → Type 0
  Drift j i = Drifts j.status i.status × (i.spec ≡ j.spec)

  -- The rows of an id before and after: none in both tables, or two related ones.
  abbrev pub Related :
      (ResearchJob F → ResearchJob F → Type 0)
      → Option (ResearchJob F)
      → Option (ResearchJob F)
      → Type 0
  Related R none none = Unit
  Related R none (some i) = ⊥
  Related R (some j) none = ⊥
  Related R (some j) (some i) = R j i

  pub Related-refl :
      (R : ResearchJob F → ResearchJob F → Type 0)
      → ((j : ResearchJob F) → R j j)
      → (m : Option (ResearchJob F)) → Related R m m
  Related-refl R r none = tt
  Related-refl R r (some j) = r j

  Drift-trans :
      (l m n : Option (ResearchJob F)) → Related Drift l m → Related Drift m n → Related Drift l n
  Drift-trans none none none h k = tt
  Drift-trans none none (some z) h k = k
  Drift-trans none (some y) n h k = absurd h
  Drift-trans (some x) none n h k = absurd h
  Drift-trans (some x) (some y) none h k = k
  Drift-trans (some x) (some y) (some z) h k =
      (Drifts-trans x.status y.status z.status h.0 k.0, k.1 ∙ h.1)

  Drift-touched : (now : ℕ) (e : RunnerEvent F) (j : ResearchJob F) → Drift j (touched now e j)
  unfolding touched touch_heartbeat set_status
  Drift-touched now e j =
      elim j.status
        as (λ s. (Drift (record j { status = s }) (touched now e (record j { status = s })))) [
          | provisioning ↦ (inr (refl, inl refl), refl)
          | _ ↦ (inl refl, refl)
        ]

  -- A row written in place of one that it relates to leaves every id related.
  pub Related-flush :
      (R : ResearchJob F → ResearchJob F → Type 0)
      → ((j : ResearchJob F) → R j j)
      → (k : ℕ) (old j : ResearchJob F) (rows : List (ResearchJob F)) → get_job j.id rows ≡ some old
      → R old j
      → Related R (get_job k rows) (get_job k (flush_job j rows))
  Related-flush R r k old j rows found h = elim (Bool-cases (j.id == k)) [
    | inl here ↦
        let at_k : get_job k rows ≡ some old =
          ap (λ m. get_job m rows) (sym (ground arith)) ∙ found in
        rw (get_job-flush k j old rows found) (rw here (rw at_k h))
    | inr away ↦ rw (get_job-flush k j old rows found) (rw away (Related-refl R r (get_job k rows)))
  ]

  Drift-refl : (j : ResearchJob F) → Drift j j
  Drift-refl j = (inl refl, refl)

  pub id-touched : (now : ℕ) (e : RunnerEvent F) (j : ResearchJob F) → (touched now e j).id ≡ j.id
  unfolding touched touch_heartbeat set_status
  id-touched now e j = ground arith

module _ {F E : Type 0} where
  abbrev pub Keeps : ℕ → Session F E → Session F E → Type 0
  Keeps k s t = Related Drift (get_job k s.db.jobs) (get_job k t.db.jobs)

  pub Keeps-refl : (k : ℕ) (s : Session F E) → Keeps k s s
  Keeps-refl k s = Related-refl Drift Drift-refl (get_job k s.db.jobs)

  pub Keeps-trans : (k : ℕ) (s t u : Session F E) → Keeps k s t → Keeps k t u → Keeps k s u
  Keeps-trans k s t u h g = Drift-trans _ (get_job k t.db.jobs) _ h g

  pub Keeps-ingested :
      (k now id : ℕ) (e : RunnerEvent F) (j : ResearchJob F) (events : List (ResearchEvent F))
      (s : Session F E)
      → get_job id s.db.jobs ≡ some j
      → Keeps k s (ingested now e j events s)
  Keeps-ingested k now id e j events s found =
      let same : (touched now e j).id ≡ id = id-touched now e j ∙ id-get_job id j s.db.jobs found in
      Related-flush Drift Drift-refl k j (touched now e j) s.db.jobs
        (ap (λ m. get_job m s.db.jobs) same ∙ found) (Drift-touched now e j)

-- A job that is open, or that was lost while it was being probed.
abbrev pub IsWatched : {F : Type 0} → Option (ResearchJob F) → Type 0
IsWatched none = Unit
IsWatched (some j) = (is_open j.status ≡ true) ⊎ (j.status ≡ lost)

watched_status :
    (s t : JobStatus)
    → Drifts s t
    → (is_open s ≡ true) ⊎ (s ≡ lost)
    → (is_open t ≡ true) ⊎ (t ≡ lost)
watched_status s t (inl e) h = subst (λ x. (is_open x ≡ true) ⊎ (x ≡ lost)) e h
watched_status s t (inr (o, inl e)) h = inl (ap is_open e)
watched_status s t (inr (o, inr e)) h = inr e

module _ {F : Type 0} where
  pub Drift-IsWatched :
      (m n : Option (ResearchJob F)) → Related Drift m n → IsWatched m → IsWatched n
  Drift-IsWatched none none h w = tt
  Drift-IsWatched none (some i) h w = absurd h
  Drift-IsWatched (some j) none h w = tt
  Drift-IsWatched (some j) (some i) h w = watched_status j.status i.status h.0 w

  pub Drift-lost :
      (now : ℕ) (error : Text) (j : ResearchJob F)
      → IsWatched (some j)
      → Drift j (set_status now lost error true j)
  unfolding set_status
  Drift-lost now error j (inl o) = (inr (o, inr refl), refl)
  Drift-lost now error j (inr e) = (inl e, refl)
