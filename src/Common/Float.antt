-- ===== src/Common/Float.antt =====
-- Python's `float`, whose arithmetic is the machine's: a type with the operations that the
-- program calls. What a theorem needs of them is one of its named hypotheses.
use Prim.Native.Nat.{ℕ}
use mathlib.Core.Bool.{Bool, true, false, not}
use mathlib.Core.Path.{◌≡◌}
use signal_lab.Common.Tests.{if◌then◌else◌}
use signal_lab.Common.Int.{ℤ}

pub record Floats (F : Type 0) : Type 0 where
  -- the literal m / 10 ^ e
  pub lit : ℕ → ℕ → F
  pub of_int : ℤ → F
  -- `-a`
  pub neg : F → F
  pub add : F → F → F
  pub sub : F → F → F
  pub mul : F → F → F
  pub div : F → F → F
  pub pow : F → F → F
  -- `a < b`, `a <= b` and `a == b`
  pub lt : F → F → Bool
  pub le : F → F → Bool
  pub eq : F → F → Bool

module _ {F : Type 0} ⦃fl : Floats F⦄ where
  -- `max(a, b)` and `min(a, b)` return the first argument unless the second beats it.
  abbrev pub fmax : F → F → F
  fmax a b = if fl.lt a b then b else a

  abbrev pub fmin : F → F → F
  fmin a b = if fl.lt b a then b else a

-- The comparisons of floats other than NaN: a total order.
pub record IsOrdered (F : Type 0) (fl : Floats F) : Type 0 where
  pub le_refl : (a : F) → fl.le a a ≡ true
  pub le_trans : (a b c : F) → fl.le a b ≡ true → fl.le b c ≡ true → fl.le a c ≡ true
  pub lt_le : (a b : F) → fl.lt a b ≡ not (fl.le b a)
  pub le_total : (a b : F) → fl.le a b ≡ false → fl.le b a ≡ true
