-- ===== src/Tracker/Ranked.antt =====
-- The ranking has each source once (`source_stats` of repo.py).
use signal_lab.Common.{
  ℕ, ◌≤◌, ◌==◌, ◌≡◌, ◌≢◌, refl, sym, ap, ◌∙◌, inl, inr, Bool, true, false, ◌||◌, Bool-cases, arith,
  any, some, List, [], ◌∷◌, map, All, All-map, Pairwise, All-map_to, Pairwise-map_to,
}
use signal_lab.Common.Int.{pos}
use signal_lab.Common.Float.{Floats}
use signal_lab.Tracker.Repo.{Db}
use signal_lab.Tracker.Counted.{count, is_of, is_won, OtherBucket, has_bucket, fill_buckets-Tallied}
use signal_lab.Tracker.Stats.{
  Outcome, Bucket, SourceStats, join, fill_buckets, average, stats_of, ranks_below, insert_rank,
  sort_rank, source_stats,
}

-- The entry of a source.
abbrev pub has_entry : {F : Type 0} → ℕ → List (SourceStats F) → Bool
has_entry id stats = any (λ s. s.source_id == id) stats

abbrev pub OtherSource : {F : Type 0} → SourceStats F → SourceStats F → Type 0
OtherSource a b = a.source_id ≢ b.source_id

module _ {F : Type 0} ⦃fl : Floats F⦄ where
  -- What sorting keeps.
  All-insert_rank :
      (P : SourceStats F → Type 0) (x : SourceStats F) (xs : List (SourceStats F))
      → P x
      → All P xs
      → All P (insert_rank x xs)
  unfolding insert_rank
  All-insert_rank P x [] p h = (p, tt)
  All-insert_rank P x (y ∷ ys) p h = elim (Bool-cases (ranks_below x y)) [
    | inl below ↦ rw below (h.0, All-insert_rank P x ys p h.1)
    | inr above ↦ rw above (p, h)
  ]

  All-sort_rank :
      (P : SourceStats F → Type 0) (xs : List (SourceStats F)) → All P xs → All P (sort_rank xs)
  unfolding sort_rank
  All-sort_rank P [] h = tt
  All-sort_rank P (x ∷ xs) h = All-insert_rank P x (sort_rank xs) h.0 (All-sort_rank P xs h.1)

  insert_rank-Pairwise :
      (x : SourceStats F) (xs : List (SourceStats F))
      → All (OtherSource x) xs
      → Pairwise OtherSource xs
      → Pairwise OtherSource (insert_rank x xs)
  unfolding insert_rank
  insert_rank-Pairwise x [] h k = (tt, tt)
  insert_rank-Pairwise x (y ∷ ys) h k = elim (Bool-cases (ranks_below x y)) [
    | inl below ↦ rw below (
      All-insert_rank (OtherSource y) x ys (λ e. h.0 (sym e)) k.0,
      insert_rank-Pairwise x ys h.1 k.1,
    )
    | inr above ↦ rw above (h, k)
  ]

  sort_rank-Pairwise :
      (xs : List (SourceStats F)) → Pairwise OtherSource xs → Pairwise OtherSource (sort_rank xs)
  unfolding sort_rank
  sort_rank-Pairwise [] h = tt
  sort_rank-Pairwise (x ∷ xs) h =
      insert_rank-Pairwise x (sort_rank xs) (All-sort_rank (OtherSource x) xs h.0)
        (sort_rank-Pairwise xs h.1)

  has_entry-insert_rank :
      (id : ℕ) (x : SourceStats F) (xs : List (SourceStats F))
      → has_entry id (insert_rank x xs) ≡ (x.source_id == id) || has_entry id xs
  unfolding insert_rank any
  has_entry-insert_rank id x [] = refl
  has_entry-insert_rank id x (y ∷ ys) = ground (arith, has_entry-insert_rank id x ys)

  has_entry-sort_rank :
      (id : ℕ) (xs : List (SourceStats F)) → has_entry id (sort_rank xs) ≡ has_entry id xs
  unfolding sort_rank any
  has_entry-sort_rank id [] = refl
  has_entry-sort_rank id (x ∷ xs) =
      ground (arith, has_entry-insert_rank id x (sort_rank xs), has_entry-sort_rank id xs)

  has_entry-map :
      (id : ℕ) (buckets : List (Bucket F))
      → has_entry id (map stats_of buckets) ≡ has_bucket id buckets
  unfolding any stats_of
  has_entry-map id [] = refl
  has_entry-map id (b ∷ buckets) = ground (arith, has_entry-map id buckets)

  average-some : (x : F) (n : ℕ) → 1 ≤ n → average x n ≡ some (fl.div x (fl.of_int (pos n)))
  average-some x n h = let e : (n == 0) ≡ false = ground (arith, h) in rw e refl

  own_count : (os : List (Outcome F)) → All (λ o. 1 ≤ count (is_of o.source_id) os) os
  unfolding count
  own_count [] = tt
  own_count (o ∷ os) = (
    ground arith,
    All-map {Q = λ (p : Outcome F). 1 ≤ count (is_of p.source_id) (o ∷ os)} os
        (λ p h. ground (arith, h)) (own_count os),
  )

  -- The entry of a source counts its outcomes, and gives the share of those it was right in.
  abbrev pub Right : List (Outcome F) → SourceStats F → Type 0
  Right os s =
      (s.n ≡ count (is_of s.source_id) os)
      × (s.win_rate
          ≡ some (fl.div (fl.of_int (pos (count (is_won s.source_id) os))) (fl.of_int (pos s.n))))
      × (1 ≤ s.n)

  -- The ranking has one entry for each source that has an outcome for the window, and none for
  -- others; its number is that of the outcomes of the source, and its rate of wins the share of
  -- those that went the way of the recommendation.
  pub source_stats-Right :
      (w : ℕ) (db : Db F)
      → let os = join w db.perfs db.recs db.sources in
        All (Right os) (source_stats w db)
        × Pairwise OtherSource (source_stats w db)
        × All (λ o. has_entry o.source_id (source_stats w db) ≡ true) os
  unfolding source_stats
  source_stats-Right w db =
      let os = join w db.perfs db.recs db.sources in
      let t =
        fill_buckets-Tallied os (λ id. 0) (λ id. 0) (λ id. count (is_of id) os)
          (λ id. count (is_won id) os) [] (λ id. omega arith) (λ id. omega arith)
          (record { right = tt; apart = tt; all = λ id h. (refl, refl) }) in
      let buckets = fill_buckets os [] in
      (
        All-sort_rank (Right os) (map stats_of buckets) (
            All-map_to stats_of
              (λ b.
                (b.n ≡ count (is_of b.source_id) os)
                × (b.wins ≡ count (is_won b.source_id) os)
                × (1 ≤ b.n))
              (Right os)
              (λ b h. (
                h.0,
                average-some (fl.of_int (pos b.wins)) b.n h.2
                    ∙ ap (λ k. some (fl.div (fl.of_int (pos k)) (fl.of_int (pos b.n)))) h.1,
                h.2,
              ))
              buckets t.right),
        sort_rank-Pairwise (map stats_of buckets) (
            Pairwise-map_to stats_of OtherBucket OtherSource (λ x y k e. ground (arith, k, e))
              buckets t.apart),
        All-map {Q = λ (o : Outcome F). has_entry o.source_id (source_stats w db) ≡ true} os
            (λ o h. elim (Bool-cases (has_bucket o.source_id buckets)) [
              | inl yes₁ ↦
                  has_entry-sort_rank o.source_id (map stats_of buckets)
                  ∙ has_entry-map o.source_id buckets
                  ∙ yes₁
              | inr no₁ ↦ absurd (omega (arith, (t.all o.source_id no₁).0, h))
            ])
            (own_count os),
      )
