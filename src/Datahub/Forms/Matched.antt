-- ===== src/Datahub/Forms/Matched.antt =====
-- What the patterns of symbols.py match has six digits (signal_datahub/symbols.py).
use signal_lab.Common.{
  ℕ, ◌==◌, ◌≡◌, refl, sym, ap, ◌∙◌, Bool, true, false, ◌&&◌, Option, none, some, [], ◌∷◌, arith,
}
use mathlib.Core.List.{reverse, reverse-reverse}
use signal_lab.Common.Text.{Text, is_digit, is_space, strip, lstrip, upper, upper_char, lower_char}
use signal_lab.Datahub.Symbols.{
  Exchange, exchange_of, six_digits, pair_with, full_match, prefix_match, is_code,
}

pub digit_not_space : (c : ℕ) → is_digit c ≡ true → is_space c ≡ false
digit_not_space c h = ground arith

pub upper_digit : (c : ℕ) → is_digit c ≡ true → upper_char c ≡ c
upper_digit c h = ground arith

pub lower_digit : (c : ℕ) → is_digit c ≡ true → lower_char c ≡ c
lower_digit c h = ground arith

pub and_left : (p q : Bool) → p && q ≡ true → p ≡ true
and_left true q h = refl
and_left false q h = h

pub and_right : (p q : Bool) → p && q ≡ true → q ≡ true
and_right true q h = h
and_right false q h = absurd (cc)

upper_newline : (g : ℕ) → (upper_char g == 10) ≡ true → g ≡ 10
upper_newline g h = ground arith

-- Six digits.
abbrev pub IsCode : Text → Type 0
IsCode s =
    (a : ℕ) × (b : ℕ) × (c : ℕ) × (d : ℕ) × (e : ℕ) × (f : ℕ) × (six_digits a b c d e f ≡ true)
    × (s ≡ a ∷ b ∷ c ∷ d ∷ e ∷ f ∷ [])

pub pair_with-fst :
    {A B : Type 0} (a : A) (m : Option B) (x : A) (y : B) → pair_with a m ≡ some (x, y) → a ≡ x
pair_with-fst a none x y e = absurd (cc)
pair_with-fst a (some b) x y e = cc

pub full_match-IsCode :
    (t code : Text) (ex : Exchange) → full_match t ≡ some (code, ex) → IsCode code
unfolding full_match
full_match-IsCode ([]) code ex q = absurd (cc)
full_match-IsCode (a ∷ []) code ex q = absurd (cc)
full_match-IsCode (a ∷ b ∷ []) code ex q = absurd (cc)
full_match-IsCode (a ∷ b ∷ c ∷ []) code ex q = absurd (cc)
full_match-IsCode (a ∷ b ∷ c ∷ d ∷ []) code ex q = absurd (cc)
full_match-IsCode (a ∷ b ∷ c ∷ d ∷ e ∷ []) code ex q = absurd (cc)
full_match-IsCode (a ∷ b ∷ c ∷ d ∷ e ∷ f ∷ []) code ex q = absurd (cc)
full_match-IsCode (a ∷ b ∷ c ∷ d ∷ e ∷ f ∷ g ∷ []) code ex q = absurd (cc)
full_match-IsCode (a ∷ b ∷ c ∷ d ∷ e ∷ f ∷ g ∷ x ∷ []) code ex q = absurd (cc)
full_match-IsCode (a ∷ b ∷ c ∷ d ∷ e ∷ f ∷ g ∷ x ∷ y ∷ rest) code ex q =
    (a, b, c, d, e, f, ground arith, sym (pair_with-fst _ (exchange_of x y) code ex (ground arith)))

pub prefix_match-IsCode :
    (t code : Text) (ex : Exchange) → prefix_match t ≡ some (code, ex) → IsCode code
unfolding prefix_match
prefix_match-IsCode ([]) code ex q = absurd (cc)
prefix_match-IsCode (x ∷ []) code ex q = absurd (cc)
prefix_match-IsCode (x ∷ y ∷ []) code ex q = absurd (cc)
prefix_match-IsCode (x ∷ y ∷ a ∷ []) code ex q = absurd (cc)
prefix_match-IsCode (x ∷ y ∷ a ∷ b ∷ []) code ex q = absurd (cc)
prefix_match-IsCode (x ∷ y ∷ a ∷ b ∷ c ∷ []) code ex q = absurd (cc)
prefix_match-IsCode (x ∷ y ∷ a ∷ b ∷ c ∷ d ∷ []) code ex q = absurd (cc)
prefix_match-IsCode (x ∷ y ∷ a ∷ b ∷ c ∷ d ∷ e ∷ []) code ex q = absurd (cc)
prefix_match-IsCode (x ∷ y ∷ a ∷ b ∷ c ∷ d ∷ e ∷ f ∷ rest) code ex q =
    (a, b, c, d, e, f, ground arith, sym (pair_with-fst _ (exchange_of x y) code ex (ground arith)))

pub lstrip-head : (s : Text) (c : ℕ) (r : Text) → lstrip s ≡ c ∷ r → is_space c ≡ false
unfolding lstrip
lstrip-head [] c r e = absurd (cc)
lstrip-head (x ∷ s) c r e = ground (arith, lstrip-head s c r)

-- A stripped text does not end in a newline.
pub strip_newline : (s : Text) (a b c d e f : ℕ) → strip s ≡ a ∷ b ∷ c ∷ d ∷ e ∷ f ∷ 10 ∷ [] → ⊥
unfolding strip
strip_newline s a b c d e f h =
    let back : lstrip (reverse (lstrip s)) ≡ 10 ∷ f ∷ e ∷ d ∷ c ∷ b ∷ a ∷ [] =
      sym (reverse-reverse _) ∙ ap reverse h in
    absurd (ground (arith, lstrip-head (reverse (lstrip s)) 10 _ back))

-- A bare code in capitals is six digits, as it ends in no newline.
pub bare_match-IsCode :
    (u : Text)
    → ((a b c d e f : ℕ) → u ≡ a ∷ b ∷ c ∷ d ∷ e ∷ f ∷ 10 ∷ [] → ⊥)
    → is_code (upper u) ≡ true
    → IsCode (upper u)
unfolding is_code
bare_match-IsCode ([]) ban h = absurd (cc)
bare_match-IsCode (a ∷ []) ban h = absurd (cc)
bare_match-IsCode (a ∷ b ∷ []) ban h = absurd (cc)
bare_match-IsCode (a ∷ b ∷ c ∷ []) ban h = absurd (cc)
bare_match-IsCode (a ∷ b ∷ c ∷ d ∷ []) ban h = absurd (cc)
bare_match-IsCode (a ∷ b ∷ c ∷ d ∷ e ∷ []) ban h = absurd (cc)
bare_match-IsCode (a ∷ b ∷ c ∷ d ∷ e ∷ f ∷ []) ban h = (_, _, _, _, _, _, and_left _ true h, refl)
bare_match-IsCode (a ∷ b ∷ c ∷ d ∷ e ∷ f ∷ g ∷ []) ban h =
    let newline : g ≡ 10 = upper_newline g (and_right _ (upper_char g == 10) h) in
    absurd (ban a b c d e f (rw newline refl))
bare_match-IsCode (a ∷ b ∷ c ∷ d ∷ e ∷ f ∷ g ∷ x ∷ rest) ban h =
    let end : false ≡ true = and_right _ false h in absurd (cc)
