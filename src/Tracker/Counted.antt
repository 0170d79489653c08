-- ===== src/Tracker/Counted.antt =====
-- The buckets count the outcomes of each source (`source_stats` of repo.py).
use signal_lab.Common.{
  ℕ, ◌+◌, ◌≤◌, ◌==◌, ◌≡◌, refl, inl, inr, Bool, true, false, ◌&&◌, ◌||◌, Bool-cases, arith, any,
  Option, none, some, List, [], ◌∷◌, All, All-map, All-map₂, Pairwise, if◌then◌else◌,
}
use signal_lab.Common.Float.{Floats}
use signal_lab.Tracker.Stats.{
  Outcome, Bucket, is_win, with_excess, count_in, empty_bucket, add_outcome, fill_buckets, signed,
}

-- How many elements pass a test.
unfoldable pub count : {A : Type 0} → (A → Bool) → List A → ℕ
count p [] = 0
count p (x ∷ xs) = (if p x then 1 else 0) + count p xs

module _ {F : Type 0} where
  abbrev pub is_of : ℕ → Outcome F → Bool
  is_of id o = o.source_id == id

  abbrev pub OtherBucket : Bucket F → Bucket F → Type 0
  OtherBucket a b = (a.source_id == b.source_id) ≡ false

  abbrev pub has_bucket : ℕ → List (Bucket F) → Bool
  has_bucket id buckets = any (λ b. b.source_id == id) buckets

module _ {F : Type 0} ⦃fl : Floats F⦄ where
  abbrev pub is_won : ℕ → Outcome F → Bool
  is_won id o = is_of id o && is_win o

  wins-with_excess :
      (is_buy : Bool) (e : Option F) (b : Bucket F) → (with_excess is_buy e b).wins ≡ b.wins
  wins-with_excess is_buy none b = refl
  wins-with_excess is_buy (some x) b = refl

  same-count_in : (o : Outcome F) (b : Bucket F) → (count_in o b).source_id ≡ b.source_id
  unfolding count_in
  same-count_in o b = ground arith

  n-count_in : (o : Outcome F) (b : Bucket F) → (count_in o b).n ≡ b.n + 1
  unfolding count_in
  n-count_in o b = ground arith

  wins-count_in :
      (o : Outcome F) (b : Bucket F)
      → (count_in o b).wins ≡ (if is_win o then b.wins + 1 else b.wins)
  unfolding count_in
  wins-count_in o b = wins-with_excess o.is_buy o.excess_return (record b {
    name = o.name;
    n = b.n + 1;
    sum_abs = fl.add b.sum_abs (signed o.is_buy o.abs_return);
    wins = if is_win o then b.wins + 1 else b.wins;
  })

  -- What is true of every bucket after an outcome is counted.
  module _ (o : Outcome F) (P Q : Bucket F → Type 0)
      (others : (b : Bucket F) → (b.source_id == o.source_id) ≡ false → P b → Q b)
      (counted : (b : Bucket F)
        → (b.source_id == o.source_id) ≡ true
        → P b
        → Q (count_in o b)) where
    add_outcome-All :
        (buckets : List (Bucket F))
        → (has_bucket o.source_id buckets ≡ false → Q (count_in o (empty_bucket o.source_id)))
        → Pairwise OtherBucket buckets
        → All P buckets
        → All Q (add_outcome o buckets)
    unfolding add_outcome any
    add_outcome-All [] first apart h = (first refl, tt)
    add_outcome-All (b ∷ buckets) first apart h = elim (Bool-cases (b.source_id == o.source_id)) [
      | inl here ↦ rw here (
        counted b here h.0,
        All-map₂ {R = Q} buckets (λ c k p. others c (ground (arith, k, here)) p) apart.0 h.1,
      )
      | inr there ↦ rw there (
        others b there h.0,
        add_outcome-All buckets (λ e. first (ground (arith, e, there))) apart.1 h.1,
      )
    ]

  OtherBucket-add_outcome :
      (o : Outcome F) (a : Bucket F) (buckets : List (Bucket F))
      → (a.source_id == o.source_id) ≡ false
      → All (OtherBucket a) buckets
      → All (OtherBucket a) (add_outcome o buckets)
  unfolding add_outcome
  OtherBucket-add_outcome o a [] new h =
      (ground (arith, new, same-count_in o (empty_bucket o.source_id)), tt)
  OtherBucket-add_outcome o a (b ∷ buckets) new h = elim (Bool-cases (b.source_id == o.source_id)) [
    | inl here ↦ rw here (ground (arith, h.0, same-count_in o b), h.1)
    | inr there ↦ rw there (h.0, OtherBucket-add_outcome o a buckets new h.1)
  ]

  add_outcome-Pairwise :
      (o : Outcome F) (buckets : List (Bucket F))
      → Pairwise OtherBucket buckets
      → Pairwise OtherBucket (add_outcome o buckets)
  unfolding add_outcome
  add_outcome-Pairwise o [] h = (tt, tt)
  add_outcome-Pairwise o (b ∷ buckets) h = elim (Bool-cases (b.source_id == o.source_id)) [
    | inl here ↦ rw here (
      All-map {Q = OtherBucket (count_in o b)} buckets (λ c k. ground (arith, k, same-count_in o b))
          h.0,
      h.1,
    )
    | inr there ↦
        rw there (OtherBucket-add_outcome o b buckets there h.0, add_outcome-Pairwise o buckets h.1)
  ]

  has_bucket-add_outcome :
      (o : Outcome F) (id : ℕ) (buckets : List (Bucket F))
      → has_bucket id (add_outcome o buckets) ≡ (o.source_id == id) || has_bucket id buckets
  unfolding add_outcome any
  has_bucket-add_outcome o id [] = ground (arith, same-count_in o (empty_bucket o.source_id))
  has_bucket-add_outcome o id (b ∷ buckets) = elim (Bool-cases (b.source_id == o.source_id)) [
    | inl here ↦ rw here (ground (arith, here, same-count_in o b))
    | inr there ↦ rw there (ground (arith, has_bucket-add_outcome o id buckets))
  ]

  -- The buckets hold what `n` and `w` give for each source.
  pub record Tallied (n w : ℕ → ℕ) (buckets : List (Bucket F)) : Type 0 where
    pub right : All (λ b. (b.n ≡ n b.source_id) × (b.wins ≡ w b.source_id) × (1 ≤ b.n)) buckets
    pub apart : Pairwise OtherBucket buckets
    pub all : (id : ℕ) → has_bucket id buckets ≡ false → (n id ≡ 0) × (w id ≡ 0)

  Tallied-add_outcome :
      (o : Outcome F) (n w n' w' : ℕ → ℕ) (buckets : List (Bucket F))
      → ((id : ℕ) → n' id ≡ (if is_of id o then n id + 1 else n id))
      → ((id : ℕ) → w' id ≡ (if is_won id o then w id + 1 else w id))
      → Tallied n w buckets
      → Tallied n' w' (add_outcome o buckets)
  Tallied-add_outcome o n w n' w' buckets hn hw t = record {
    right =
        add_outcome-All o (λ b. (b.n ≡ n b.source_id) × (b.wins ≡ w b.source_id) × (1 ≤ b.n))
          (λ b. (b.n ≡ n' b.source_id) × (b.wins ≡ w' b.source_id) × (1 ≤ b.n))
          (λ b other h. ground (arith, h, other, hn b.source_id, hw b.source_id))
          (λ b same h. ground (
            arith,
            h,
            same,
            n-count_in o b,
            wins-count_in o b,
            same-count_in o b,
            hn b.source_id,
            hw b.source_id,
          ))
          buckets
          (λ new.
            let b : Bucket F = empty_bucket o.source_id in
            ground (
              arith,
              t.all o.source_id new,
              n-count_in o b,
              wins-count_in o b,
              same-count_in o b,
              hn o.source_id,
              hw o.source_id,
            ))
          t.apart t.right;
    apart = add_outcome-Pairwise o buckets t.apart;
    all = λ id h. ground (arith, h, has_bucket-add_outcome o id buckets, t.all id, hn id, hw id);
  }

  pub fill_buckets-Tallied :
      (os : List (Outcome F)) (n w n' w' : ℕ → ℕ) (buckets : List (Bucket F))
      → ((id : ℕ) → n' id ≡ n id + count (is_of id) os)
      → ((id : ℕ) → w' id ≡ w id + count (is_won id) os)
      → Tallied n w buckets
      → Tallied n' w' (fill_buckets os buckets)
  unfolding fill_buckets count
  fill_buckets-Tallied [] n w n' w' buckets hn hw t = record {
    right =
        All-map
          {Q = λ (b : Bucket F). (b.n ≡ n' b.source_id) × (b.wins ≡ w' b.source_id) × (1 ≤ b.n)}
          buckets (λ b h. ground (arith, h, hn b.source_id, hw b.source_id)) t.right;
    apart = t.apart;
    all = λ id h. ground (arith, t.all id h, hn id, hw id);
  }
  fill_buckets-Tallied (o ∷ os) n w n' w' buckets hn hw t =
      let n₁ = λ (id : ℕ). (if is_of id o then n id + 1 else n id) in
      let w₁ = λ (id : ℕ). (if is_won id o then w id + 1 else w id) in
      fill_buckets-Tallied os n₁ w₁ n' w' (add_outcome o buckets) (λ id. ground (arith, hn id))
        (λ id. ground (arith, hw id))
        (Tallied-add_outcome o n w n₁ w₁ buckets (λ id. refl) (λ id. refl) t)
