-- ===== src/Common/TextSet.antt =====
-- `in` over a set or a list of strings.
use mathlib.Core.Path.{◌≡◌, refl}
use mathlib.Core.Bool.{Bool, true, ◌||◌}
use mathlib.Core.List.{List, [], ◌∷◌, ◌++◌}
use native.Mathlib.Omega.{arith}
use signal_lab.Common.Lists.{any, any-append, All, All-map}
use signal_lab.Common.Text.{Text, text_eq, text_eq_refl}

abbrev pub is_in : Text → List Text → Bool
is_in s symbols = any (text_eq s) symbols

pub is_in_append : (s : Text) (xs ys : List Text) → is_in s (xs ++ ys) ≡ is_in s xs || is_in s ys
is_in_append s xs ys = any-append (text_eq s) xs ys

pub text_eq_sym : (s t : Text) → text_eq s t ≡ text_eq t s
unfolding text_eq
text_eq_sym [] [] = refl
text_eq_sym [] (b ∷ t) = refl
text_eq_sym (a ∷ s) [] = refl
text_eq_sym (a ∷ s) (b ∷ t) = ground (arith, text_eq_sym s t)

pub is_in_itself : (s : Text) → is_in s (s ∷ []) ≡ true
unfolding any
is_in_itself s = rw (text_eq_refl s) refl

pub own_members : (xs : List Text) → All (λ s. is_in s xs ≡ true) xs
unfolding any
own_members [] = tt
own_members (x ∷ xs) = (
  rw (text_eq_refl x) refl,
  All-map {P = λ s. is_in s xs ≡ true} {Q = λ s. is_in s (x ∷ xs) ≡ true} xs
      (λ s h. ground (arith, h)) (own_members xs),
)
