-- ===== src/Common/Pairs.antt =====
-- A relation between any two elements of a list, the earlier first.
use mathlib.Core.Logic.{inl, inr}
use mathlib.Core.Bool.{Bool}
use mathlib.Core.List.{List, [], ◌∷◌, ◌++◌, map}
use signal_lab.Common.Tests.{Bool-cases}
use signal_lab.Common.Lists.{All, All-append_one, All-select, select}

module _ {A : Type 0} (R : A → A → Type 0) where
  abbrev pub Pairwise : List A → Type 0
  Pairwise [] = Unit
  Pairwise (x ∷ xs) = All (R x) xs × Pairwise xs

  pub Pairwise-append_one :
      (xs : List A) (x : A) → Pairwise xs → All (λ y. R y x) xs → Pairwise (xs ++ x ∷ [])
  Pairwise-append_one [] x h new = (tt, tt)
  Pairwise-append_one (y ∷ xs) x h new =
      (All-append_one (R y) xs x h.0 new.0, Pairwise-append_one xs x h.1 new.1)

  pub Pairwise-select : (p : A → Bool) (xs : List A) → Pairwise xs → Pairwise (select p xs)
  unfolding select
  Pairwise-select p [] h = tt
  Pairwise-select p (x ∷ xs) h = elim (Bool-cases (p x)) [
    | inl kept ↦ rw kept (All-select (R x) p xs h.0, Pairwise-select p xs h.1)
    | inr dropped ↦ rw dropped (Pairwise-select p xs h.1)
  ]

-- What a change of every element keeps.
module _ {A B : Type 0} (f : A → B) where
  pub All-map_to :
      (P : A → Type 0) (Q : B → Type 0)
      → ((x : A) → P x → Q (f x))
      → (xs : List A) → All P xs
      → All Q (map f xs)
  All-map_to P Q keep [] h = tt
  All-map_to P Q keep (x ∷ xs) h = (keep x h.0, All-map_to P Q keep xs h.1)

  pub Pairwise-map_to :
      (R : A → A → Type 0) (S : B → B → Type 0)
      → ((x y : A) → R x y → S (f x) (f y))
      → (xs : List A) → Pairwise R xs
      → Pairwise S (map f xs)
  Pairwise-map_to R S keep [] h = tt
  Pairwise-map_to R S keep (x ∷ xs) h =
      (All-map_to (R x) (S (f x)) (keep x) xs h.0, Pairwise-map_to R S keep xs h.1)
