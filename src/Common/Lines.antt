-- ===== src/Common/Lines.antt =====
-- The lines of a text, as `str.splitlines` finds them.
use mathlib.Core.Path.{◌≡◌, refl, ap, sym, ◌∙◌}
use mathlib.Core.Bool.{false}
use mathlib.Core.List.{[], ◌∷◌, ◌++◌, reverse, reverse-cons, append_assoc}
use Prim.Native.Nat.{ℕ}
use signal_lab.Common.Tests.{if◌then◌else◌}
use signal_lab.Common.Lists.{All, append_none}
use signal_lab.Common.Text.{Text, is_break, lines_from, splitlines}

-- The next character of a line.
lines_from-step :
    (line : Text) (c : ℕ) (s : Text)
    → lines_from line (c ∷ s)
      ≡ (if is_break c then reverse line ∷ lines_from [] s else lines_from (c ∷ line) s)
lines_from-step [] c s = refl
lines_from-step (a ∷ line) c s = refl

lines_from-line :
    (line xs rest : Text)
    → All (λ c. is_break c ≡ false) xs
    → lines_from line (xs ++ 10 ∷ rest) ≡ (reverse line ++ xs) ∷ lines_from [] rest
lines_from-line line [] rest h =
    lines_from-step line 10 rest
    ∙ ap (λ l. l ∷ lines_from [] rest) (sym (append_none (reverse line)))
lines_from-line line (x ∷ xs) rest h =
    lines_from-step line x (xs ++ 10 ∷ rest)
    ∙ ap
        (λ b.
          if b
          then reverse line ∷ lines_from [] (xs ++ 10 ∷ rest)
          else lines_from (x ∷ line) (xs ++ 10 ∷ rest))
        h.0
    ∙ lines_from-line (x ∷ line) xs rest h.1
    ∙ ap (λ l. l ∷ lines_from [] rest)
        (ap (λ l. l ++ xs) (reverse-cons x line) ∙ append_assoc (reverse line) (x ∷ []) xs)

-- A text without a line boundary is the first line, if a line feed follows.
pub splitlines_line :
    (xs rest : Text)
    → All (λ c. is_break c ≡ false) xs
    → splitlines (xs ++ 10 ∷ rest) ≡ xs ∷ splitlines rest
unfolding splitlines
splitlines_line xs rest h = lines_from-line [] xs rest h
