-- ===== src/Float/Fixed/Laws/Signs.antt =====
-- Signs of fixed point, and its stand-in for the exponential.
use native.Mathlib.Nat.{mul-le-mul_right, div-le_of_le-mul}
use matrix_factory.Prelude.{ℕ, zero, suc, ◌+◌, ◌*◌, ◌/◌, ◌≤◌, ◌≡◌, refl, none, some, ap, arith}
use matrix_factory.Prelude.Int.{pos, negsuc, +ℤ_comm, -ℤ_parts, eq_of_parts}
use matrix_factory.Float.Ops.{IsNum, Le}
use matrix_factory.Float.Laws.{IsSigned}
use matrix_factory.Float.Fixed.Laws.Rounding.{quotient-le}
use matrix_factory.Float.Fixed.{
  Fixed, fixed_float, fixed_numpy, lit_fixed, unit, on_fixed, exp_fixed,
}

add_comm_fixed : (a b : Fixed) → fixed_float.add a b ≡ fixed_float.add b a
add_comm_fixed (some a) (some b) = ap (λ c. some c) (+ℤ_comm a b)
add_comm_fixed (some a) none = refl
add_comm_fixed none (some b) = refl
add_comm_fixed none none = refl

IsNum-add_fixed : (a b : Fixed) → IsNum (fixed_float.add a b) → IsNum a × IsNum b
IsNum-add_fixed (some a) (some b) h = ground arith
IsNum-add_fixed (some a) none h = cc
IsNum-add_fixed none b h = cc

sub-zero_fixed : (a : Fixed) → fixed_float.sub a (lit_fixed 0 0) ≡ a
sub-zero_fixed (some a) = ap (λ c. some c) (eq_of_parts _ _ (omega (arith, -ℤ_parts a (pos 0))))
sub-zero_fixed none = refl

neg_nonpos_fixed : (x : Fixed) → Le (lit_fixed 0 0) x → Le (fixed_float.neg x) (lit_fixed 0 0)
neg_nonpos_fixed (some a) h = ground (arith, -ℤ_parts (pos 0) a)
neg_nonpos_fixed none h = cc

no_product : (a b : ℕ) → a ≤ 0 → a * b / unit ≤ 0
no_product zero b h = omega arith
no_product (suc a) b h = absurd (omega arith)

mul_nonpos_fixed :
    (a b : Fixed)
    → Le a (lit_fixed 0 0)
    → Le (lit_fixed 0 0) b
    → IsNum (fixed_float.mul a b)
    → Le (fixed_float.mul a b) (lit_fixed 0 0)
mul_nonpos_fixed (some (pos a)) (some (pos b)) h k n = ground (arith, no_product (a + 0) (b + 0))
mul_nonpos_fixed (some (negsuc a)) (some (pos b)) h k n = ground arith
mul_nonpos_fixed (some a) (some (negsuc b)) h k n = absurd (ground arith)
mul_nonpos_fixed (some a) none h k n = cc
mul_nonpos_fixed none b h k n = cc

factor-le : (a b : ℕ) → a ≤ unit → a * b / unit ≤ b
factor-le a b h = div-le_of_le-mul unit (omega (arith, mul-le-mul_right b h))

mul_unit_fixed :
    (a b : Fixed)
    → Le (lit_fixed 0 0) a
    → Le a (lit_fixed 1 0)
    → Le (lit_fixed 0 0) b
    → IsNum (fixed_float.mul a b)
    → Le (fixed_float.mul a b) b
mul_unit_fixed (some (pos a)) (some (pos b)) z h k n = ground (arith, factor-le a b)
mul_unit_fixed (some (negsuc a)) b z h k n = absurd (ground arith)
mul_unit_fixed (some (pos a)) (some (negsuc b)) z h k n = absurd (ground arith)
mul_unit_fixed (some (pos a)) none z h k n = cc
mul_unit_fixed none b z h k n = cc

exp_unit_fixed :
    (x : Fixed)
    → Le x (lit_fixed 0 0)
    → Le (lit_fixed 0 0) (fixed_numpy.exp x) × Le (fixed_numpy.exp x) (lit_fixed 1 0)
unfolding on_fixed exp_fixed
exp_unit_fixed (some (pos n)) h = ground arith
exp_unit_fixed (some (negsuc n)) h =
    ground (arith, quotient-le (unit + 0) (unit + n + 1 + 0) (omega arith))
exp_unit_fixed none h = cc

pub Fixed-IsSigned : IsSigned Fixed fixed_numpy
Fixed-IsSigned = record {
  add_comm = add_comm_fixed;
  num_add_parts = IsNum-add_fixed;
  sub-zero = sub-zero_fixed;
  neg_nonpos = neg_nonpos_fixed;
  mul_nonpos = mul_nonpos_fixed;
  mul_unit = mul_unit_fixed;
  exp_unit = exp_unit_fixed;
}
