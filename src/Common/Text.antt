-- ===== src/Common/Text.antt =====
-- Python's `str` as the list of its code points, with the methods that the program calls.
use Prim.Native.Nat.{ℕ, zero, suc, ◌+◌, ◌-◌, ◌*◌, ◌/◌, ◌%◌, ◌<◌}
use Prim.Native.Char.{code}
use Prim.Native.String.{String}
use mathlib.Core.Path.{◌≡◌, refl, ap, ◌∙◌}
use mathlib.Core.Logic.{◌↔◌, inl, inr}
use mathlib.Core.Bool.{Bool, true, false, ◌&&◌, ◌||◌}
use mathlib.Core.List.{List, [], ◌∷◌, map, reverse}
use native.Mathlib.Omega.{arith}
use signal_lab.Common.Int.{ℤ, pos, negsuc}
use signal_lab.Common.Tests.{Bool-cases, leb, ltb, ◌==◌, if◌then◌else◌}

abbrev pub Text : Type 0
Text = List ℕ

-- The code points of a literal.
abbrev pub codes : String → Text
codes String.[] = []
codes (String.◌∷◌ c s) = code c ∷ codes s

unfoldable pub text_eq : Text → Text → Bool
text_eq [] [] = true
text_eq (a ∷ s) (b ∷ t) = (a == b) && text_eq s t
text_eq _ _ = false

pub text_eq_iff : (s t : Text) → (text_eq s t ≡ true) ↔ (s ≡ t)
unfolding text_eq
text_eq_iff [] [] = ground arith
text_eq_iff [] (b ∷ t) = ground arith
text_eq_iff (a ∷ s) [] = ground arith
text_eq_iff (a ∷ s) (b ∷ t) = ground (arith, text_eq_iff s t)

pub text_eq_refl : (s : Text) → text_eq s s ≡ true
text_eq_refl s = (text_eq_iff s s).1 refl

unfoldable pub starts_with : Text → Text → Bool
starts_with s [] = true
starts_with [] (c ∷ p) = false
starts_with (a ∷ s) (c ∷ p) = (a == c) && starts_with s p

unfoldable pub ends_with : Text → Text → Bool
unfolding starts_with
ends_with s p = starts_with (reverse s) (reverse p)

-- `str.isspace` of one character, over the characters of ASCII.
abbrev pub is_space : ℕ → Bool
is_space c = (leb 9 c && leb c 13) || (leb 28 c && leb c 32)

abbrev pub is_digit : ℕ → Bool
is_digit c = leb b'0' c && leb c b'9'

unfoldable pub lstrip : Text → Text
lstrip [] = []
lstrip (c ∷ s) = if is_space c then lstrip s else c ∷ s

unfoldable pub strip : Text → Text
unfolding lstrip
strip s = reverse (lstrip (reverse (lstrip s)))

abbrev pub upper_char : ℕ → ℕ
upper_char c = if leb b'a' c && leb c b'z' then c - 32 else c

abbrev pub lower_char : ℕ → ℕ
lower_char c = if leb b'A' c && leb c b'Z' then c + 32 else c

abbrev pub upper : Text → Text
upper s = map upper_char s

abbrev pub lower : Text → Text
lower s = map lower_char s

-- `s.split(c)[0]`
unfoldable pub before : ℕ → Text → Text
before c [] = []
before c (x ∷ s) = if x == c then [] else x ∷ before c s

-- `s or d` of two strings.
abbrev pub or_default : Text → Text → Text
or_default [] d = d
or_default (c ∷ s) d = c ∷ s

-- `str(n)`: a number has at most as many digits as its successor has units, so the fuel suffices.
show_digits : ℕ → ℕ → Text → Text
show_digits zero n acc = acc
show_digits (suc fuel) n acc =
    let rest = show_digits fuel (n / 10) ((b'0' + n % 10) ∷ acc) in
    if ltb n 10 then (b'0' + n) ∷ acc else rest

unfoldable pub show_ℕ : ℕ → Text
unfolding show_digits
show_ℕ n = show_digits (suc n) n []

-- `int(s)`, where s is made of digits.
abbrev pub value_of_digits : Text → ℕ → ℕ
value_of_digits [] n = n
value_of_digits (c ∷ s) n = value_of_digits s (n * 10 + (c - 48))

value-show_digits :
    (fuel n : ℕ) (acc : Text)
    → n < fuel
    → value_of_digits (show_digits fuel n acc) 0 ≡ value_of_digits acc n
unfolding show_digits
value-show_digits zero n acc h = absurd (omega (arith, h))
value-show_digits (suc fuel) n acc h = elim (Bool-cases (ltb n 10)) [
  | inl e ↦ rw e (ap (value_of_digits acc) (omega arith))
  | inr e ↦ rw e (
      value-show_digits fuel (n / 10) ((b'0' + n % 10) ∷ acc) (ground (arith, e))
      ∙ ap (value_of_digits acc) (omega arith))
]

pub value-show_ℕ : (n : ℕ) → value_of_digits (show_ℕ n) 0 ≡ n
unfolding show_ℕ
value-show_ℕ n = value-show_digits (suc n) n [] (omega arith)

unfoldable pub show_ℤ : ℤ → Text
unfolding show_ℕ
show_ℤ (pos n) = show_ℕ n
show_ℤ (negsuc n) = b'-' ∷ show_ℕ (suc n)

-- `c in s` for one character.
unfoldable pub has_char : ℕ → Text → Bool
has_char c [] = false
has_char c (x ∷ s) = x == c || has_char c s

-- `s.isdigit()`, over ASCII.
unfoldable pub all_digits : Text → Bool
all_digits [] = true
all_digits (c ∷ s) = is_digit c && all_digits s

abbrev drop_length : Text → Text → Text
drop_length [] s = s
drop_length (c ∷ p) [] = []
drop_length (c ∷ p) (x ∷ s) = drop_length p s

-- `s.removeprefix(p)`
unfoldable pub remove_prefix : Text → Text → Text
unfolding starts_with
remove_prefix p s = if starts_with s p then drop_length p s else s

abbrev lstrip_char : ℕ → Text → Text
lstrip_char c [] = []
lstrip_char c (x ∷ s) = if x == c then lstrip_char c s else x ∷ s

-- `s.rstrip(c)`
unfoldable pub rstrip_char : ℕ → Text → Text
rstrip_char c s = reverse (lstrip_char c (reverse s))

-- A line boundary of `str.splitlines`.
abbrev pub is_break : ℕ → Bool
is_break c =
    (leb 10 c && leb c 13) || (leb 28 c && leb c 30) || c == 133 || (leb 8232 c && leb c 8233)

-- The lines after the part `line`, reversed, of the first. A final boundary ends no further line;
-- here a carriage return with a line feed ends two lines, of which the second is empty.
abbrev pub lines_from : Text → Text → List Text
lines_from [] [] = []
lines_from (a ∷ line) [] = reverse (a ∷ line) ∷ []
lines_from line (c ∷ s) =
    if is_break c then reverse line ∷ lines_from [] s else lines_from (c ∷ line) s

-- `s.splitlines()`
unfoldable pub splitlines : Text → List Text
splitlines s = lines_from [] s
