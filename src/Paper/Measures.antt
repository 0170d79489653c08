-- ===== src/Paper/Measures.antt =====
-- The drawdown of a series and the next trading day (signal_papertrade/engine.py).
use signal_lab.Common.{
  ℕ, ◌==◌, ◌≡◌, ◌⊎◌, ◌<◌, ◌≤◌, refl, ◌∙◌, true, false, inl, inr, Option, none, some, Bool-cases,
  ltb, any, List, [], ◌∷◌, arith, All, All-map,
}
use mathlib.Core.Path.{subst}
use signal_lab.Common.Float.{Floats, IsOrdered, fmax, fmin}
use signal_lab.Paper.Engine.{drawdown, performance_metrics, next_trading_day}

module _ {F : Type 0} ⦃fl : Floats F⦄ where
  -- `v / peak - 1`
  abbrev pub drop : F → F → F
  drop peak v = fl.sub (fl.div v peak) (fl.lit 1 0)

  -- No value of the series stands further below the peak before it than `d`.
  abbrev pub Bounds : F → F → List F → Type 0
  Bounds d peak [] = Unit
  Bounds d peak (v ∷ vs) = (fl.le d (drop (fmax peak v) v) ≡ true) × Bounds d (fmax peak v) vs

  -- Some value of the series stands below the peak before it by exactly `d`.
  abbrev pub Attains : F → F → List F → Type 0
  Attains d peak [] = ⊥
  Attains d peak (v ∷ vs) = (d ≡ drop (fmax peak v) v) ⊎ Attains d (fmax peak v) vs

  module _ (ord : IsOrdered F fl) where
    fmin_below : (a b : F) → (fl.le (fmin a b) a ≡ true) × (fl.le (fmin a b) b ≡ true)
    fmin_below a b =
        let r = ord.le_refl a in
        let s = ord.le_refl b in let t = ord.lt_le b a in let u = ord.le_total a b in ground arith

    drawdown_below : (peak m : F) (vs : List F) → fl.le (drawdown peak m vs) m ≡ true
    unfolding drawdown
    drawdown_below peak m [] = ord.le_refl m
    drawdown_below peak m (v ∷ vs) =
        let d = drop (fmax peak v) v in
        ord.le_trans _ (fmin m d) m (drawdown_below (fmax peak v) (fmin m d) vs) (fmin_below m d).0

    drawdown-Bounds : (peak m : F) (vs : List F) → Bounds (drawdown peak m vs) peak vs
    unfolding drawdown
    drawdown-Bounds peak m [] = tt
    drawdown-Bounds peak m (v ∷ vs) =
        let d = drop (fmax peak v) v in
        (
          ord.le_trans _ (fmin m d) d (drawdown_below (fmax peak v) (fmin m d) vs)
              (fmin_below m d).1,
          drawdown-Bounds (fmax peak v) (fmin m d) vs,
        )

  drawdown-Attains :
      (peak m : F) (vs : List F) → (drawdown peak m vs ≡ m) ⊎ Attains (drawdown peak m vs) peak vs
  unfolding drawdown
  drawdown-Attains peak m [] = inl refl
  drawdown-Attains peak m (v ∷ vs) =
      let d = drop (fmax peak v) v in
      elim (drawdown-Attains (fmax peak v) (fmin m d) vs) [
        | inr later ↦ inr (inr later)
        | inl kept ↦ elim (Bool-cases (fl.lt d m)) [
          | inl lower ↦ inr (inl (kept ∙ rw lower))
          | inr not_lower ↦ inl (kept ∙ rw not_lower)
        ]
      ]

  -- For floats that compare as numbers do: the reported maximal drawdown is at most zero, bounds
  -- the fall of every value from the peak before it, and is zero or the fall of one of the values.
  pub max_drawdown_exact :
      IsOrdered F fl
      → (v : F) (vs : List F) (bench : Option (List F)) (days : ℕ) (d : F)
      → (performance_metrics (v ∷ vs) bench days).max_drawdown ≡ some d
      → (fl.le d (fl.lit 0 0) ≡ true)
        × Bounds d v (v ∷ vs)
        × ((d ≡ fl.lit 0 0) ⊎ Attains d v (v ∷ vs))
  unfolding performance_metrics
  max_drawdown_exact ord v [] bench days d h = absurd (cc)
  max_drawdown_exact ord v (w ∷ vs) bench days d h = elim (Bool-cases (fl.eq v (fl.lit 0 0))) [
    | inl empty ↦ absurd (ground arith)
    | inr series ↦
        let e : drawdown v (fl.lit 0 0) (v ∷ w ∷ vs) ≡ d = ground arith in
        subst
          (λ x.
            (fl.le x (fl.lit 0 0) ≡ true)
            × Bounds x v (v ∷ w ∷ vs)
            × ((x ≡ fl.lit 0 0) ⊎ Attains x v (v ∷ w ∷ vs)))
          e
          (
            drawdown_below ord v (fl.lit 0 0) (v ∷ w ∷ vs),
            drawdown-Bounds ord v (fl.lit 0 0) (v ∷ w ∷ vs),
            drawdown-Attains v (fl.lit 0 0) (v ∷ w ∷ vs),
          )
  ]

abbrev pub IsAscending : List ℕ → Type 0
IsAscending [] = Unit
IsAscending (d ∷ ds) = All (λ e. d < e) ds × IsAscending ds

-- What the answer says of the list.
abbrev pub IsNext : Option ℕ → List ℕ → ℕ → Type 0
IsNext none ds after = All (λ e. e ≤ after) ds
IsNext (some d) ds after =
    (after < d) × (any (λ e. e == d) ds ≡ true) × All (λ e. after < e → d ≤ e) ds

-- In an ascending list of days the answer is listed, later than the given day, and the first
-- such day; there is no answer only if no listed day is later.
pub next_trading_day_first :
    (ds : List ℕ) (after : ℕ) → IsAscending ds → IsNext (next_trading_day ds after) ds after
unfolding next_trading_day any
next_trading_day_first [] after h = tt
next_trading_day_first (d ∷ ds) after h = elim (Bool-cases (ltb after d)) [
  | inl later ↦
      rw later
        (ground arith, ground arith, ((λ _. omega arith), All-map ds (λ e less _. omega arith) h.0))
  | inr earlier ↦
      rw earlier (skip earlier (next_trading_day ds after) (next_trading_day_first ds after h.1))
]
  where
    skip : ltb after d ≡ false → (r : Option ℕ) → IsNext r ds after → IsNext r (d ∷ ds) after
    skip l none n = (ground arith, n)
    skip l (some e) n = (n.0, ground arith, ((λ m. ground arith), n.2))
