-- ===== src/Datahub/Upsert.antt =====
-- packages/datahub/src/signal_datahub/repo.py, `_upsert`: INSERT ... ON CONFLICT DO UPDATE.
use signal_lab.Common.{
  ◌≡◌, refl, ap, ◌∙◌, Bool, true, false, ◌||◌, Bool-cases, inl, inr, arith, Option, none, some,
  List, [], ◌∷◌, if◌then◌else◌, any, Result, ok, err, All,
}
use signal_lab.Common.Text.{Text, codes}

-- The row at a key: `scalar_one_or_none()`.
abbrev pub find : {A : Type 0} → (A → Bool) → List A → Option A
find p [] = none
find p (x ∷ xs) = if p x then some x else find p xs

module _ {A : Type 0} (same : A → A → Bool) where
  unfoldable pub upsert_one : A → List A → List A
  upsert_one x [] = x ∷ []
  upsert_one x (y ∷ ys) = if same x y then x ∷ ys else y ∷ upsert_one x ys

  unfoldable pub upsert_each : List A → List A → List A
  unfolding upsert_one
  upsert_each [] table = table
  upsert_each (x ∷ xs) table = upsert_each xs (upsert_one x table)

  unfoldable pub repeats : List A → Bool
  repeats [] = false
  repeats (x ∷ xs) = any (same x) xs || repeats xs

  -- PostgreSQL refuses a statement that would update one row twice.
  unfoldable pub upsert : List A → List A → Result Text (List A)
  unfolding repeats upsert_each
  upsert rows table =
      if repeats rows
      then err (codes "ON CONFLICT DO UPDATE command cannot affect row a second time")
      else ok (upsert_each rows table)

-- The last of the rows that has a key, or else what was there.
abbrev pub last_or_old : {A : Type 0} → (A → Bool) → List A → Option A → Option A
last_or_old p [] old = old
last_or_old p (x ∷ xs) old = last_or_old p xs (if p x then some x else old)

-- A test for one key, as `same` compares keys.
pub record IsKey (A : Type 0) (same : A → A → Bool) (p : A → Bool) : Type 0 where
  pub respects : (x y : A) → same x y ≡ true → p x ≡ p y
  pub unique : (x y : A) → p x ≡ true → p y ≡ true → same x y ≡ true

module _ {A : Type 0} (same : A → A → Bool) (p : A → Bool) (k : IsKey A same p) where
  find-upsert_one :
      (x : A) (ys : List A) → find p (upsert_one same x ys) ≡ (if p x then some x else find p ys)
  unfolding upsert_one
  find-upsert_one x [] = refl
  find-upsert_one x (y ∷ ys) = elim (Bool-cases (same x y)) [
    | inl yes₁ ↦
        rw (yes₁, k.respects x y yes₁)
          (elim (Bool-cases (p y)) [ inl yes₂ ↦ rw yes₂ refl | inr no₂ ↦ rw no₂ refl ])
    | inr no₁ ↦
        rw (no₁, find-upsert_one x ys)
          (elim (Bool-cases (p y)) [
            | inl yes₂ ↦ elim (Bool-cases (p x)) [
              | inl yes₃ ↦ absurd (ground (arith, k.unique x y yes₃ yes₂, no₁))
              | inr no₃ ↦ rw (yes₂, no₃) refl
            ]
            | inr no₂ ↦ rw no₂ refl
          ])
  ]

  pub find-upsert_each :
      (xs table : List A) → find p (upsert_each same xs table) ≡ last_or_old p xs (find p table)
  unfolding upsert_each
  find-upsert_each [] table = refl
  find-upsert_each (x ∷ xs) table =
      find-upsert_each xs (upsert_one same x table)
      ∙ ap (λ old. last_or_old p xs old) (find-upsert_one x table)

-- Rows of other keys do not matter.
pub last_or_old_skips :
    {A : Type 0} (p : A → Bool) (xs : List A) (old : Option A)
    → All (λ x. p x ≡ false) xs
    → last_or_old p xs old ≡ old
last_or_old_skips p [] old h = refl
last_or_old_skips p (x ∷ xs) old h = rw h.0 (last_or_old_skips p xs old h.1)
