-- ===== src/Common/Keys.antt =====
-- Rows with distinct keys, as a primary key gives them.
use Prim.Native.Nat.{ℕ}
use mathlib.Core.Path.{sym}
use mathlib.Core.Logic.{◌≢◌, inl, inr}
use mathlib.Core.Bool.{Bool}
use mathlib.Core.List.{List, [], ◌∷◌, ◌++◌}
use signal_lab.Common.Tests.{leb, Bool-cases}
use signal_lab.Common.Lists.{
  All, select, insert_by, sort_by, All-select, All-insert_by, All-sort_by, All-append_one,
}

module _ {A : Type 0} (id : A → ℕ) where
  abbrev pub Differs : A → A → Type 0
  Differs x y = id x ≢ id y

  abbrev pub Distinct : List A → Type 0
  Distinct [] = Unit
  Distinct (x ∷ xs) = All (Differs x) xs × Distinct xs

  pub Distinct-select : (p : A → Bool) (xs : List A) → Distinct xs → Distinct (select p xs)
  unfolding select
  Distinct-select p [] h = tt
  Distinct-select p (x ∷ xs) h = elim (Bool-cases (p x)) [
    | inl kept ↦ rw kept (All-select (Differs x) p xs h.0, Distinct-select p xs h.1)
    | inr dropped ↦ rw dropped (Distinct-select p xs h.1)
  ]

  Distinct-insert_by :
      (key : A → ℕ) (x : A) (xs : List A)
      → All (Differs x) xs
      → Distinct xs
      → Distinct (insert_by key x xs)
  unfolding insert_by
  Distinct-insert_by key x [] h hs = (tt, tt)
  Distinct-insert_by key x (y ∷ ys) h hs = elim (Bool-cases (leb (key x) (key y))) [
    | inl here ↦ rw here (h, hs)
    | inr later ↦ rw later (
      All-insert_by (Differs y) key x ys (λ e. h.0 (sym e)) hs.0,
      Distinct-insert_by key x ys h.1 hs.1,
    )
  ]

  pub Distinct-sort_by : (key : A → ℕ) (xs : List A) → Distinct xs → Distinct (sort_by key xs)
  unfolding sort_by
  Distinct-sort_by key [] h = tt
  Distinct-sort_by key (x ∷ xs) h =
      Distinct-insert_by key x (sort_by key xs) (All-sort_by (Differs x) key xs h.0)
        (Distinct-sort_by key xs h.1)

  pub Distinct-append_one :
      (xs : List A) (x : A) → Distinct xs → All (λ y. id y ≢ id x) xs → Distinct (xs ++ x ∷ [])
  Distinct-append_one [] x h fresh = (tt, tt)
  Distinct-append_one (y ∷ xs) x h fresh =
      (All-append_one (Differs y) xs x h.0 fresh.0, Distinct-append_one xs x h.1 fresh.1)
