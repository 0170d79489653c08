-- ===== src/Tracker/Windows.antt =====
-- The baseline is the first possible day, and a window does not look ahead (event_study.py).
use signal_lab.Common.{
  ℕ, zero, suc, ◌<◌, ◌==◌, ==_iff, ==_refl, ◌≡◌, refl, sym, ap, ◌∙◌, true, false, inl, inr, ◌⊎◌,
  Bool-cases, Option-cases, arith, ltb, leb, Option, none, some, List, [], ◌∷◌, ◌++◌, map, select,
  take, length, length-append, All, if◌then◌else◌,
}
use mathlib.Core.Path.{subst}
use signal_lab.Common.Float.{Floats}
use signal_lab.Tracker.Models.{WindowPerf}
use signal_lab.Tracker.EventStudy.{
  Bar, Baseline, windows, is_after_close, day_of, may_start, price_at, first_day, anchor_baseline,
  since, perfs_from, window_perf, full_perf, compute_windows,
}

module _ {F : Type 0} (t : ℕ) where
  -- The first bar that a recommendation may start at, after bars that it may not start at.
  pub record IsStart (bars : List (Bar F)) (b : Baseline F) : Type 0 where
    pub earlier : List (Bar F)
    pub bar : Bar F
    pub others : List (Bar F)
    pub split : bars ≡ earlier ++ bar ∷ others
    pub too_early : All (λ x. may_start t x ≡ false) earlier
    pub possible : may_start t bar ≡ true
    pub price : b ≡ price_at t bar

  abbrev days_of : List (Bar F) → Option ℕ
  days_of bars = first_day (map (λ b. b.trade_date) (select (may_start t) bars))

  days_of-may_start :
      (d : ℕ) (bar : Bar F) (bars : List (Bar F))
      → days_of bars ≡ some d
      → bar.trade_date ≡ d
      → may_start t bar ≡ true
  unfolding select
  days_of-may_start d bar [] = λ e h. ground (arith, e)
  days_of-may_start d bar (c ∷ bars) = elim (Bool-cases (may_start t c)) [
    | inl starts ↦ rw starts (λ e h.
        subst (λ x. (if is_after_close t then ltb (day_of t) x else leb (day_of t) x) ≡ true)
          (ground (arith, e, h)) starts)
    | inr early ↦ rw early (λ e h. days_of-may_start d bar bars e h)
  ]

  anchor_baseline_skips :
      (bar : Bar F) (bars : List (Bar F))
      → may_start t bar ≡ false
      → anchor_baseline t (bar ∷ bars) ≡ anchor_baseline t bars
  unfolding anchor_baseline select
  anchor_baseline_skips bar bars h = rw h (elim (Option-cases (days_of bars)) [
    | inl none₁ ↦ rw none₁ refl
    | inr (d, e) ↦ elim (Bool-cases (bar.trade_date == d)) [
      | inl same ↦ absurd (ground (arith, days_of-may_start d bar bars e, same, h))
      | inr other ↦ rw e (rw other refl)
    ]
  ])

  -- The baseline is the first bar that the recommendation may start at: after the close a later day
  -- at its open, and before it the day itself or a later one at its close; there is no baseline only
  -- if there is no such bar.
  pub anchor_baseline-cases :
      (bars : List (Bar F))
      → ((anchor_baseline t bars ≡ none) × All (λ x. may_start t x ≡ false) bars)
        ⊎ ((b : Baseline F) × (anchor_baseline t bars ≡ some b) × IsStart bars b)
  unfolding anchor_baseline select
  anchor_baseline-cases [] = inl (refl, tt)
  anchor_baseline-cases (bar ∷ bars) = elim (Bool-cases (may_start t bar)) [
    | inl possible ↦ inr (
      price_at t bar,
      rw possible (rw (==_refl bar.trade_date) refl),
      record {
        earlier = [];
        bar = bar;
        others = bars;
        split = refl;
        too_early = tt;
        possible = possible;
        price = refl;
      },
    )
    | inr early ↦ elim (anchor_baseline-cases bars) [
      | inl (e, all) ↦ inl (anchor_baseline_skips bar bars early ∙ e, (early, all))
      | inr (b, e, start) ↦ inr (
        b,
        anchor_baseline_skips bar bars early ∙ e,
        record {
          earlier = bar ∷ start.earlier;
          bar = start.bar;
          others = start.others;
          split = ap (λ xs. bar ∷ xs) start.split;
          too_early = (early, start.too_early);
          possible = start.possible;
          price = start.price;
        },
      )
    ]
  ]

-- The result for a window in a list of results.
unfoldable pub find_window : {F : Type 0} → ℕ → List (WindowPerf F) → Option (WindowPerf F)
find_window w [] = none
find_window w (p ∷ perfs) = if p.window_days == w then some p else find_window w perfs

find_window-map :
    {F : Type 0} (w : ℕ) (f g : ℕ → WindowPerf F)
    → ((k : ℕ) → (f k).window_days ≡ k)
    → ((k : ℕ) → (g k).window_days ≡ k)
    → f w ≡ g w
    → (ks : List ℕ) → find_window w (map f ks) ≡ find_window w (map g ks)
unfolding find_window
find_window-map w f g hf hg same [] = refl
find_window-map w f g hf hg same (k ∷ ks) =
    let at_f = ap (λ n. n == w) (hf k) in
    let at_g = ap (λ n. n == w) (hg k) in
    elim (Bool-cases (k == w)) [
      | inl here ↦
          rw (at_f ∙ here)
            (rw (at_g ∙ here) (ap some (subst (λ m. f m ≡ g m) (sym ((==_iff k w).0 here)) same)))
      | inr other ↦ rw (at_f ∙ other) (rw (at_g ∙ other) (find_window-map w f g hf hg same ks))
    ]

take-append :
    {A : Type 0} (n : ℕ) (xs ys : List A)
    → ltb (length xs) n ≡ false
    → take n (xs ++ ys) ≡ take n xs
take-append zero xs ys h = refl
take-append (suc n) [] ys h = absurd (ground (arith, h))
take-append (suc n) (x ∷ xs) ys h = ap (λ l. x ∷ l) (take-append n xs ys (ground (arith, h)))

since-append :
    {F : Type 0} (d : ℕ) (bars more : List (Bar F))
    → since d (bars ++ more) ≡ since d bars ++ since d more
unfolding select
since-append d [] more = refl
since-append d (bar ∷ bars) more = ground (arith, since-append d bars more)

module _ {F : Type 0} ⦃fl : Floats F⦄ (start : Baseline F) (bench : List (Bar F))
    (target stop : Option F) where
  window_days-perfs_from :
      (path : List (Bar F)) (w : ℕ) → (perfs_from start bench target stop path w).window_days ≡ w
  unfolding window_perf full_perf
  window_days-perfs_from [] w = refl
  window_days-perfs_from (bar ∷ path) w = ground arith

  window_perf-append :
      (bar : Bar F) (path more : List (Bar F)) (w : ℕ)
      → w < length (bar ∷ path)
      → window_perf w start.price (since start.date bench) target stop bar (path ++ more)
        ≡ window_perf w start.price (since start.date bench) target stop bar path
  unfolding window_perf
  window_perf-append bar path more w h =
      let enough : ltb (length path) w ≡ false = ground (arith, h) in
      let still : ltb (length (path ++ more)) w ≡ false =
        ground (arith, h, length-append path more) in
      rw enough (rw still (rw (take-append w path more enough) refl))

  perfs_from-append :
      (path more : List (Bar F)) (w : ℕ)
      → w < length path
      → perfs_from start bench target stop (path ++ more) w
        ≡ perfs_from start bench target stop path w
  perfs_from-append [] more w h = absurd (omega (arith, h))
  perfs_from-append (bar ∷ path) more w h =
      let rest = λ (x : WindowPerf F).
        (if fl.eq bar.close (fl.lit 0 0) then perfs_from start bench target stop [] w else x) in
      ap rest (window_perf-append bar path more w h)

  -- A window that has all its days does not look at later ones: with more bars its results stay
  -- as they are.
  pub compute_windows_settled :
      (bars more : List (Bar F)) (w : ℕ)
      → w < length (since start.date bars)
      → find_window w (compute_windows (bars ++ more) start bench target stop)
        ≡ find_window w (compute_windows bars start bench target stop)
  unfolding compute_windows
  compute_windows_settled bars more w h = rw (since-append start.date bars more) (
      find_window-map w
        (perfs_from start bench target stop (since start.date bars ++ since start.date more))
        (perfs_from start bench target stop (since start.date bars))
        (window_days-perfs_from (since start.date bars ++ since start.date more))
        (window_days-perfs_from (since start.date bars))
        (perfs_from-append (since start.date bars) (since start.date more) w h) windows)
