-- ===== src/Live/Table.antt =====
-- How the table of packages/live answers after a write.
use signal_lab.Common.{
  ℕ, ◌+◌, ◌==◌, ◌≡◌, ◌≢◌, refl, ap, ◌∙◌, some, List, [], ◌∷◌, ◌++◌, arith, All, inl, inr,
  Bool-cases,
}
use mathlib.Core.Path.{subst}
use signal_lab.Live.Models.{LiveIntent}
use signal_lab.Live.Repo.{get_intent, flush}

module _ {F : Type 0} where
  pub id-get_intent :
      (k : ℕ) (i : LiveIntent F) (rows : List (LiveIntent F))
      → get_intent k rows ≡ some i
      → i.id ≡ k
  unfolding get_intent
  id-get_intent k i [] h = ground arith
  id-get_intent k i (j ∷ rows) h = ground (arith, id-get_intent k i rows)

  pub get_intent-own :
      (k : ℕ) (i : LiveIntent F) (rows : List (LiveIntent F))
      → get_intent k rows ≡ some i
      → get_intent i.id rows ≡ some i
  get_intent-own k i rows h = ap (λ m. get_intent m rows) (id-get_intent k i rows h) ∙ h

  pub get_intent-append :
      (k : ℕ) (i : LiveIntent F) (rows more : List (LiveIntent F))
      → get_intent k rows ≡ some i
      → get_intent k (rows ++ more) ≡ some i
  unfolding get_intent
  get_intent-append k i [] more h = ground arith
  get_intent-append k i (j ∷ rows) more h = ground (arith, get_intent-append k i rows more)

  pub get_intent-flush_ne :
      (k : ℕ) (i : LiveIntent F) (rows : List (LiveIntent F))
      → i.id ≢ k
      → get_intent k (flush i rows) ≡ get_intent k rows
  unfolding get_intent flush
  get_intent-flush_ne k i [] h = refl
  get_intent-flush_ne k i (j ∷ rows) h = ground (arith, get_intent-flush_ne k i rows h)

  pub get_intent-flush_self :
      (i old : LiveIntent F) (rows : List (LiveIntent F))
      → get_intent i.id rows ≡ some old
      → get_intent i.id (flush i rows) ≡ some i
  unfolding get_intent flush
  get_intent-flush_self i old [] h = ground arith
  get_intent-flush_self i old (j ∷ rows) h = ground (arith, get_intent-flush_self i old rows)

  -- A number attached to each row, summed over the table.
  module _ (weight : LiveIntent F → ℕ) where
    unfoldable pub total : List (LiveIntent F) → ℕ
    total [] = 0
    total (i ∷ rows) = weight i + total rows

    pub total-append :
        (rows : List (LiveIntent F)) (i : LiveIntent F)
        → total (rows ++ i ∷ []) ≡ total rows + weight i
    unfolding total
    total-append [] i = omega arith
    total-append (j ∷ rows) i = omega (arith, total-append rows i)

    pub total-flush :
        (i old : LiveIntent F) (rows : List (LiveIntent F))
        → get_intent i.id rows ≡ some old
        → total (flush i rows) + weight old ≡ total rows + weight i
    unfolding total get_intent flush
    total-flush i old [] h = ground arith
    total-flush i old (j ∷ rows) h = ground (arith, total-flush i old rows)

  -- A property of every row.
  module _ (P : LiveIntent F → Type 0) where
    pub All-flush :
        (i : LiveIntent F) (rows : List (LiveIntent F)) → All P rows → P i → All P (flush i rows)
    unfolding flush
    All-flush i [] h p = tt
    All-flush i (j ∷ rows) h p = ground (arith, All-flush i rows h.1 p)

    pub All-get_intent :
        (k : ℕ) (i : LiveIntent F) (rows : List (LiveIntent F))
        → All P rows
        → get_intent k rows ≡ some i
        → P i
    unfolding get_intent
    All-get_intent k i [] h e = ground arith
    All-get_intent k i (j ∷ rows) h e = elim (Bool-cases (j.id == k)) [
      | inl found ↦ let p : j ≡ i = ground arith in subst P p h.0
      | inr other ↦ All-get_intent k i rows h.1 (ground arith)
    ]
