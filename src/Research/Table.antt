-- ===== src/Research/Table.antt =====
-- How the tables of packages/research answer after a write.
use signal_lab.Common.{
  ℕ, ◌==◌, ◌≡◌, refl, some, is_some, List, [], ◌∷◌, ◌++◌, arith, any, ◌&&◌, ◌||◌, if◌then◌else◌,
  All, All-map, All-map₂, Distinct, Differs, Bool-cases, inl, inr,
}
use signal_lab.Research.Models.{ResearchJob, ResearchEvent}
use signal_lab.Research.Repo.{get_job, flush_job, is_stored}

module _ {F : Type 0} where
  pub id-get_job :
      (k : ℕ) (j : ResearchJob F) (rows : List (ResearchJob F)) → get_job k rows ≡ some j → j.id ≡ k
  unfolding get_job
  id-get_job k j [] h = ground arith
  id-get_job k j (i ∷ rows) h = ground (arith, id-get_job k j rows)

  -- A row is written where its id stands; every other id answers as before.
  pub get_job-flush :
      (k : ℕ) (j old : ResearchJob F) (rows : List (ResearchJob F))
      → get_job j.id rows ≡ some old
      → get_job k (flush_job j rows) ≡ (if j.id == k then some j else get_job k rows)
  unfolding get_job flush_job
  get_job-flush k j old [] h = ground arith
  get_job-flush k j old (i ∷ rows) h = ground (arith, get_job-flush k j old rows)

  pub is_some-get_job-flush :
      (k : ℕ) (j : ResearchJob F) (rows : List (ResearchJob F))
      → is_some (get_job k (flush_job j rows)) ≡ is_some (get_job k rows)
  unfolding get_job flush_job
  is_some-get_job-flush k j [] = refl
  is_some-get_job-flush k j (i ∷ rows) = ground (arith, is_some-get_job-flush k j rows)

  pub get_job-append :
      (k : ℕ) (j : ResearchJob F) (rows more : List (ResearchJob F))
      → get_job k rows ≡ some j
      → get_job k (rows ++ more) ≡ some j
  unfolding get_job
  get_job-append k j [] more h = ground arith
  get_job-append k j (i ∷ rows) more h = ground (arith, get_job-append k j rows more)

  pub is_stored-append :
      (job seq : ℕ) (rows : List (ResearchEvent F)) (e : ResearchEvent F)
      → is_stored job seq (rows ++ e ∷ [])
        ≡ (is_stored job seq rows || ((e.job_id == job) && (e.seq == seq)))
  unfolding any
  is_stored-append job seq [] e = ground arith
  is_stored-append job seq (x ∷ rows) e = ground (arith, is_stored-append job seq rows e)

  abbrev pub job_id : ResearchJob F → ℕ
  job_id j = j.id

  pub get_job-own :
      (rows : List (ResearchJob F))
      → Distinct job_id rows
      → All (λ j. get_job j.id rows ≡ some j) rows
  unfolding get_job
  get_job-own [] h = tt
  get_job-own (j ∷ rows) h =
      (ground arith, All-map₂ rows (λ i differs found. ground arith) h.0 (get_job-own rows h.1))

  flush_job-Differs :
      (i j : ResearchJob F) (rows : List (ResearchJob F))
      → All (Differs job_id i) rows
      → Differs job_id i j
      → All (Differs job_id i) (flush_job j rows)
  unfolding flush_job
  flush_job-Differs i j [] h d = tt
  flush_job-Differs i j (x ∷ rows) h d = ground (arith, flush_job-Differs i j rows h.1 d)

  pub flush_job-Distinct :
      (j : ResearchJob F) (rows : List (ResearchJob F))
      → Distinct job_id rows
      → Distinct job_id (flush_job j rows)
  unfolding flush_job
  flush_job-Distinct j [] h = tt
  flush_job-Distinct j (i ∷ rows) h = elim (Bool-cases (i.id == j.id)) [
    | inl found ↦ rw found (All-map rows (λ x d. ground arith) h.0, h.1)
    | inr other ↦
        rw other (flush_job-Differs i j rows h.0 (ground arith), flush_job-Distinct j rows h.1)
  ]
