-- ===== src/Agents/Chosen.antt =====
-- The candidate pool (signal_agents/candidates.py).
use signal_lab.Common.{
  ℕ, ◌+◌, ◌≤◌, ◌<◌, ◌≡◌, refl, sym, inl, inr, true, false, not, ◌&&◌, Bool-cases, arith, leb, any,
  List, [], ◌∷◌, ◌++◌, length, All, All-append_one, length-append,
}
use mathlib.Core.Path.{subst}
use signal_lab.Common.TextSet.{is_in, is_in_append, text_eq_sym, is_in_itself, own_members}
use signal_lab.Common.Text.{Text}
use signal_lab.Agents.Pool.{is_given, add_symbol, collect, build_candidate_pool}

abbrev pub NoRepeats : List Text → Type 0
NoRepeats [] = Unit
NoRepeats (s ∷ symbols) = (is_in s symbols ≡ false) × NoRepeats symbols

-- No text twice, and none empty.
abbrev pub Clean : List Text → Type 0
Clean symbols = NoRepeats symbols × All (λ s. is_given s ≡ true) symbols

NoRepeats-append_one :
    (symbols : List Text) (s : Text)
    → NoRepeats symbols
    → is_in s symbols ≡ false
    → NoRepeats (symbols ++ s ∷ [])
unfolding any
NoRepeats-append_one [] s h new = (refl, tt)
NoRepeats-append_one (t ∷ symbols) s h new = (
  ground (arith, is_in_append t symbols (s ∷ []), text_eq_sym s t, h.0, new),
  NoRepeats-append_one symbols s h.1 (ground (arith, new)),
)

module _ (P : Text → Type 0) where
  add_symbol-All :
      (s : Text) (symbols : List Text) → P s → All P symbols → All P (add_symbol s symbols)
  unfolding add_symbol
  add_symbol-All s symbols p h = elim (Bool-cases (is_given s && not (is_in s symbols))) [
    | inl new ↦ rw new (All-append_one P symbols s h p)
    | inr old ↦ rw old h
  ]

  collect-All :
      (limit : ℕ) (rest symbols : List Text)
      → All P rest
      → All P symbols
      → All P (collect limit rest symbols)
  unfolding collect
  collect-All limit [] symbols ps h = h
  collect-All limit (s ∷ rest) symbols ps h =
      let added = add_symbol-All s symbols ps.0 h in
      elim (Bool-cases (leb limit (length (add_symbol s symbols)))) [
        | inl full ↦ rw full added
        | inr open₁ ↦ rw open₁ (collect-All limit rest (add_symbol s symbols) ps.1 added)
      ]

add_symbol-Clean : (s : Text) (symbols : List Text) → Clean symbols → Clean (add_symbol s symbols)
unfolding add_symbol
add_symbol-Clean s symbols h = elim (Bool-cases (is_given s && not (is_in s symbols))) [
  | inl new ↦ rw new (
    NoRepeats-append_one symbols s h.0 (ground (arith, new)),
    All-append_one (λ t. is_given t ≡ true) symbols s h.1 (ground (arith, new)),
  )
  | inr old ↦ rw old h
]

collect-Clean :
    (limit : ℕ) (rest symbols : List Text) → Clean symbols → Clean (collect limit rest symbols)
unfolding collect
collect-Clean limit [] symbols h = h
collect-Clean limit (s ∷ rest) symbols h =
    let added = add_symbol-Clean s symbols h in
    elim (Bool-cases (leb limit (length (add_symbol s symbols)))) [
      | inl full ↦ rw full added
      | inr open₁ ↦ rw open₁ (collect-Clean limit rest (add_symbol s symbols) added)
    ]

length-add_symbol :
    (s : Text) (symbols : List Text) → length (add_symbol s symbols) ≤ length symbols + 1
unfolding add_symbol
length-add_symbol s symbols = elim (Bool-cases (is_given s && not (is_in s symbols))) [
  | inl new ↦ rw new (omega (arith, length-append symbols (s ∷ [])))
  | inr old ↦ rw old (omega arith)
]

length-collect :
    (limit : ℕ) (rest symbols : List Text)
    → length symbols < limit
    → length (collect limit rest symbols) ≤ limit
unfolding collect
length-collect limit [] symbols h = omega (arith, h)
length-collect limit (s ∷ rest) symbols h =
    elim (Bool-cases (leb limit (length (add_symbol s symbols)))) [
      | inl full ↦ rw full (ground (arith, length-add_symbol s symbols, h))
      | inr open₁ ↦
          rw open₁ (length-collect limit rest (add_symbol s symbols) (ground (arith, open₁)))
    ]

-- What is in the pool stays in it.
is_in-add_symbol :
    (t s : Text) (symbols : List Text)
    → is_in t symbols ≡ true
    → is_in t (add_symbol s symbols) ≡ true
unfolding add_symbol
is_in-add_symbol t s symbols h = elim (Bool-cases (is_given s && not (is_in s symbols))) [
  | inl new ↦ rw new (ground (arith, is_in_append t symbols (s ∷ []), h))
  | inr old ↦ rw old h
]

is_in-collect :
    (t : Text) (limit : ℕ) (rest symbols : List Text)
    → is_in t symbols ≡ true
    → is_in t (collect limit rest symbols) ≡ true
unfolding collect
is_in-collect t limit [] symbols h = h
is_in-collect t limit (s ∷ rest) symbols h =
    let kept = is_in-add_symbol t s symbols h in
    elim (Bool-cases (leb limit (length (add_symbol s symbols)))) [
      | inl full ↦ rw full kept
      | inr open₁ ↦ rw open₁ (is_in-collect t limit rest (add_symbol s symbols) kept)
    ]

add_symbol_adds :
    (s : Text) (symbols : List Text) → is_given s ≡ true → is_in s (add_symbol s symbols) ≡ true
unfolding add_symbol
add_symbol_adds s symbols h = elim (Bool-cases (is_given s && not (is_in s symbols))) [
  | inl new ↦ rw new (ground (arith, is_in_append s symbols (s ∷ []), is_in_itself s))
  | inr old ↦ rw old (ground (arith, old, h))
]

collect_full :
    (limit : ℕ) (s : Text) (rest symbols : List Text)
    → leb limit (length (add_symbol s symbols)) ≡ true
    → collect limit (s ∷ rest) symbols ≡ add_symbol s symbols
unfolding collect
collect_full limit s rest symbols h = rw h refl

collect_open :
    (limit : ℕ) (s : Text) (rest symbols : List Text)
    → leb limit (length (add_symbol s symbols)) ≡ false
    → collect limit (s ∷ rest) symbols ≡ collect limit rest (add_symbol s symbols)
unfolding collect
collect_open limit s rest symbols h = rw h refl

-- With room left every symbol that is given was taken.
abbrev Complete : ℕ → List Text → List Text → Type 0
Complete limit sources pool =
    length pool < limit → All (λ s. is_given s ≡ true → is_in s pool ≡ true) sources

collect-Complete :
    (limit : ℕ) (rest symbols : List Text) → Complete limit rest (collect limit rest symbols)
collect-Complete limit [] symbols = λ h. tt
collect-Complete limit (s ∷ rest) symbols =
    let next = add_symbol s symbols in
    elim (Bool-cases (leb limit (length next))) [
      | inl full ↦
          subst (Complete limit (s ∷ rest)) (sym (collect_full limit s rest symbols full))
            (λ h. absurd (ground (arith, full, h)))
      | inr open₁ ↦
          subst (Complete limit (s ∷ rest)) (sym (collect_open limit s rest symbols open₁)) (λ h. (
            λ given. is_in-collect s limit rest next (add_symbol_adds s symbols given),
            collect-Complete limit rest next h,
          ))
    ]

-- With a positive limit the pool repeats no symbol and has no empty one; it holds only what a source
-- gives, at most `limit` symbols, and where it has fewer, every nonempty symbol of the watchlist,
-- the recent recommendations and the extra symbols.
pub build_candidate_pool-Clean :
    (watchlist : List Text) (recent : ℕ → ℕ → List Text) (extra : List Text) (limit : ℕ)
    → 1 ≤ limit
    → let sources = watchlist ++ recent 30 limit ++ extra in
      let pool = build_candidate_pool watchlist recent extra limit in
      Clean pool
      × All (λ s. is_in s sources ≡ true) pool
      × (length pool ≤ limit)
      × (length pool < limit → All (λ s. is_given s ≡ true → is_in s pool ≡ true) sources)
unfolding build_candidate_pool
build_candidate_pool-Clean watchlist recent extra limit h =
    let sources = watchlist ++ recent 30 limit ++ extra in
    (
      collect-Clean limit sources [] (tt, tt),
      collect-All (λ s. is_in s sources ≡ true) limit sources [] (own_members sources) tt,
      length-collect limit sources [] (omega (arith, h)),
      collect-Complete limit sources [],
    )
