-- ===== src/Datahub/Forms.antt =====
-- The normal form of a stock code (signal_datahub/symbols.py).
mod Matched
use signal_lab.Common.{
  ℕ, ◌==◌, ◌≡◌, refl, sym, ap, ◌∙◌, Bool, true, false, inl, inr, Bool-cases, ◌&&◌, Option, none,
  some, Option-cases, [], ◌∷◌, ◌++◌, arith,
}
use mathlib.Core.Path.{subst}
use mathlib.Core.List.{reverse, reverse-reverse}
use signal_lab.Common.Text.{
  Text, is_digit, is_space, strip, lstrip, upper, upper_char, lower, lower_char,
}
use signal_lab.Datahub.Symbols.{
  Exchange, sh, sz, bj, upper_text, lower_text, exchange_of, six_digits, pair_with, full_match,
  prefix_match, is_code, infer_exchange, bare_match, parse_symbol, normalize_symbol, small_match,
  to_qlib_code, from_qlib_code,
}
pub use Matched.*

-- A symbol in normal form.
abbrev pub IsSymbol : Text → Type 0
IsSymbol s = (code : Text) × (ex : Exchange) × IsCode code × (s ≡ code ++ b'.' ∷ upper_text ex)

parse_symbol-IsCode :
    (raw code : Text) (ex : Exchange)
    → parse_symbol (upper (strip raw)) ≡ some (code, ex)
    → IsCode code
unfolding parse_symbol
parse_symbol-IsCode raw code ex h =
    let u = upper (strip raw) in
    elim (Option-cases (full_match u)) [
      | inr (r, e) ↦ full_match-IsCode u code ex (ground (arith, e, h))
      | inl none₁ ↦ elim (Option-cases (prefix_match u)) [
        | inr (r, e) ↦ prefix_match-IsCode u code ex (ground (arith, e, none₁, h))
        | inl none₂ ↦
            let bare : bare_match u ≡ some (code, ex) = ground (arith, none₁, none₂, h) in
            elim (Bool-cases (is_code u)) [
              | inr other ↦ absurd (ground (arith, other, bare))
              | inl good ↦
                  let same : u ≡ code =
                    pair_with-fst u (infer_exchange u) code ex (ground (arith, good, bare)) in
                  subst IsCode same (
                    bare_match-IsCode (strip raw) (λ a b c d e f n. strip_newline raw a b c d e f n)
                      good)
            ]
      ]
    ]

module _ (a b c d e f : ℕ) (h : six_digits a b c d e f ≡ true) where
  abbrev six : Text
  six = a ∷ b ∷ c ∷ d ∷ e ∷ f ∷ []

  strip_symbol : (ex : Exchange) → strip (six ++ b'.' ∷ upper_text ex) ≡ six ++ b'.' ∷ upper_text ex
  unfolding strip lstrip
  strip_symbol sh = rw (digit_not_space a (ground arith)) refl
  strip_symbol sz = rw (digit_not_space a (ground arith)) refl
  strip_symbol bj = rw (digit_not_space a (ground arith)) refl

  upper-six : (rest : Text) → upper (six ++ rest) ≡ six ++ upper rest
  upper-six rest = rw (upper_digit a (ground arith)) (
      rw (upper_digit b (ground arith)) (
        rw (upper_digit c (ground arith)) (
          rw (upper_digit d (ground arith))
            (rw (upper_digit e (ground arith)) (rw (upper_digit f (ground arith)) refl)))))

  upper_symbol : (ex : Exchange) → upper (six ++ b'.' ∷ upper_text ex) ≡ six ++ b'.' ∷ upper_text ex
  upper_symbol sh = upper-six (b'.' ∷ upper_text sh)
  upper_symbol sz = upper-six (b'.' ∷ upper_text sz)
  upper_symbol bj = upper-six (b'.' ∷ upper_text bj)

  full_match_symbol : (ex : Exchange) → full_match (six ++ b'.' ∷ upper_text ex) ≡ some (six, ex)
  unfolding full_match
  full_match_symbol sh = rw h refl
  full_match_symbol sz = rw h refl
  full_match_symbol bj = rw h refl

  normal_symbol :
      (ex : Exchange)
      → normalize_symbol (six ++ b'.' ∷ upper_text ex) ≡ some (six ++ b'.' ∷ upper_text ex)
  unfolding normalize_symbol parse_symbol
  normal_symbol ex = rw (strip_symbol ex) (rw (upper_symbol ex) (rw (full_match_symbol ex) refl))

  strip_qlib : (ex : Exchange) → strip (lower_text ex ++ six) ≡ lower_text ex ++ six
  unfolding strip lstrip
  strip_qlib sh = rw (digit_not_space f (ground arith)) refl
  strip_qlib sz = rw (digit_not_space f (ground arith)) refl
  strip_qlib bj = rw (digit_not_space f (ground arith)) refl

  lower-six : lower six ≡ six
  lower-six = rw (lower_digit a (ground arith)) (
      rw (lower_digit b (ground arith)) (
        rw (lower_digit c (ground arith)) (
          rw (lower_digit d (ground arith))
            (rw (lower_digit e (ground arith)) (rw (lower_digit f (ground arith)) refl)))))

  lower_qlib : (ex : Exchange) → lower (lower_text ex ++ six) ≡ lower_text ex ++ six
  lower_qlib sh = ap (λ s. b's' ∷ b'h' ∷ s) lower-six
  lower_qlib sz = ap (λ s. b's' ∷ b'z' ∷ s) lower-six
  lower_qlib bj = ap (λ s. b'b' ∷ b'j' ∷ s) lower-six

  small_match_qlib : (ex : Exchange) → small_match (lower_text ex ++ six) ≡ some (six, ex)
  unfolding small_match
  small_match_qlib sh = rw h refl
  small_match_qlib sz = rw h refl
  small_match_qlib bj = rw h refl

  from_qlib_symbol :
      (ex : Exchange) → from_qlib_code (lower_text ex ++ six) ≡ some (six ++ b'.' ∷ upper_text ex)
  unfolding from_qlib_code
  from_qlib_symbol ex = rw (strip_qlib ex) (rw (lower_qlib ex) (rw (small_match_qlib ex) refl))

-- What `normalize_symbol` accepts it gives in normal form: six digits, a point and an exchange.
pub normalize_symbol-IsSymbol : (raw s : Text) → normalize_symbol raw ≡ some s → IsSymbol s
unfolding normalize_symbol
normalize_symbol-IsSymbol raw s h = elim (Option-cases (parse_symbol (upper (strip raw)))) [
  | inl none₁ ↦ absurd (ground (arith, none₁, h))
  | inr ((code, ex), e) ↦ (code, ex, parse_symbol-IsCode raw code ex e, ground (arith, e, h))
]

-- A symbol in normal form is its own normal form.
normal_form : (s : Text) → IsSymbol s → normalize_symbol s ≡ some s
normal_form s (code, ex, (a, b, c, d, e, f, digits, same), form) =
    let form' = form ∙ ap (λ x. x ++ b'.' ∷ upper_text ex) same in
    subst (λ x. normalize_symbol x ≡ some x) (sym form') (normal_symbol a b c d e f digits ex)

-- `normalize_symbol` gives six digits, a point and an exchange, and leaves that as it is.
pub normalize_idempotent :
    (raw s : Text) → normalize_symbol raw ≡ some s → IsSymbol s × (normalize_symbol s ≡ some s)
normalize_idempotent raw s h = let n = normalize_symbol-IsSymbol raw s h in (n, normal_form s n)

-- The code for Qlib of an accepted symbol exists, and is read back as its normal form.
pub qlib_round_trip :
    (raw s : Text)
    → normalize_symbol raw ≡ some s
    → (q : Text) × (to_qlib_code raw ≡ some q) × (from_qlib_code q ≡ some s)
unfolding to_qlib_code
qlib_round_trip raw s h =
    let (code, ex, (a, b, c, d, e, f, digits, same), form) = normalize_symbol-IsSymbol raw s h in
    let form' = form ∙ ap (λ x. x ++ b'.' ∷ upper_text ex) same in
    let six = a ∷ b ∷ c ∷ d ∷ e ∷ f ∷ [] in
    let match : full_match s ≡ some (six, ex) =
      ap full_match form' ∙ full_match_symbol a b c d e f digits ex in
    (
      lower_text ex ++ six,
      rw (h, to_qlib_code) (rw match refl),
      from_qlib_symbol a b c d e f digits ex ∙ ap some (sym form'),
    )
