-- ===== src/Common/Fixed.antt =====
-- Ten-thousandths in the place of floats, for the runs of the tests: a literal, a product and a
-- quotient lose what is smaller, and a power is left at its base.
use Prim.Native.Nat.{ℕ, ◌+◌, ◌*◌, ◌/◌, ◌^◌}
use native.Mathlib.Omega.{arith}
use signal_lab.Common.Int.{
  ℤ, pos, negsuc, pos_part, neg_part, sub_ℕ, ◌+ℤ◌, ◌-ℤ◌, ltb_ℤ, leb_ℤ, eqb_ℤ,
}
use signal_lab.Common.Float.{Floats, IsOrdered}

abbrev pub scale : ℕ
scale = 10000

-- The numbers p - n and q - m, multiplied and divided.
abbrev times : ℤ → ℤ → ℤ
times a b =
    sub_ℕ ((pos_part a * pos_part b + neg_part a * neg_part b) / scale)
      ((pos_part a * neg_part b + neg_part a * pos_part b) / scale)

abbrev quotient : ℤ → ℤ → ℤ
quotient a (pos d) = sub_ℕ (pos_part a * scale / d) (neg_part a * scale / d)
quotient a (negsuc d) = sub_ℕ (neg_part a * scale / (d + 1)) (pos_part a * scale / (d + 1))

abbrev whole : ℤ → ℤ
whole n = sub_ℕ (pos_part n * scale) (neg_part n * scale)

instance abbrev pub fixed : Floats ℤ
fixed = record {
  lit = λ m e. pos (m * scale / 10 ^ e);
  of_int = whole;
  neg = λ a. pos 0 -ℤ a;
  add = λ a b. a +ℤ b;
  sub = λ a b. a -ℤ b;
  mul = times;
  div = quotient;
  pow = λ a b. a;
  lt = ltb_ℤ;
  le = leb_ℤ;
  eq = eqb_ℤ;
}

pub fixed-IsOrdered : IsOrdered ℤ fixed
fixed-IsOrdered = record {
  le_refl = λ a. ground arith;
  le_trans = λ a b c h k. ground arith;
  lt_le = λ a b. ground arith;
  le_total = λ a b h. ground arith;
}
