-- ===== src/Float/Fixed/Laws/Rounding.antt =====
-- Products and quotients of fixed point, cut to twelve places.
use native.Mathlib.Nat.{mul-le-mul_right, div-le_of_le-mul}
use matrix_factory.Prelude.{ℕ, ◌+◌, ◌*◌, ◌/◌, ◌≤◌, ◌≡◌, refl, none, some, ap, arith}
use matrix_factory.Prelude.Int.{ℤ, pos, negsuc, ◌+ℤ◌, +ℤ_parts, -ℤ_parts, int_laws}
use matrix_factory.Float.Ops.{IsNum, Le, Lt}
use matrix_factory.Float.Laws.{IsRounded, IsMidpoint, IsFinite, IsSubtraction}
use matrix_factory.Float.Fixed.{Fixed, mul_fixed, fixed_float, lit_fixed, unit}

sub_nonneg_fixed :
    (a b : Fixed) → Le a b → IsNum (fixed_float.sub b a) → Le (lit_fixed 0 0) (fixed_float.sub b a)
sub_nonneg_fixed (some a) (some b) h n = ground (arith, -ℤ_parts b a)
sub_nonneg_fixed (some a) none h n = cc
sub_nonneg_fixed none b h n = cc

sub_mono_fixed :
    (a b c : Fixed)
    → Le a b
    → IsNum (fixed_float.sub a c)
    → IsNum (fixed_float.sub b c)
    → Le (fixed_float.sub a c) (fixed_float.sub b c)
sub_mono_fixed (some a) (some b) (some c) h n m = ground (arith, -ℤ_parts a c, -ℤ_parts b c)
sub_mono_fixed (some a) (some b) none h n m = cc
sub_mono_fixed (some a) none c h n m = cc
sub_mono_fixed none b c h n m = cc

sub_anti_fixed :
    (a b c : Fixed)
    → Le b c
    → IsNum (fixed_float.sub a b)
    → IsNum (fixed_float.sub a c)
    → Le (fixed_float.sub a c) (fixed_float.sub a b)
sub_anti_fixed (some a) (some b) (some c) h n m = ground (arith, -ℤ_parts a c, -ℤ_parts a b)
sub_anti_fixed (some a) (some b) none h n m = cc
sub_anti_fixed (some a) none c h n m = cc
sub_anti_fixed none b c h n m = cc

pub quotient-le : (a b : ℕ) → a ≤ b → a * unit / b ≤ unit
quotient-le a b h = div-le_of_le-mul b (omega (arith, mul-le-mul_right unit h))

div_unit_fixed :
    (a b : Fixed)
    → Le (lit_fixed 0 0) a
    → Le a b
    → IsNum (fixed_float.div a b)
    → Le (lit_fixed 0 0) (fixed_float.div a b) × Le (fixed_float.div a b) (lit_fixed 1 0)
div_unit_fixed (some (pos a)) (some (pos b)) z h n =
    ground (arith, quotient-le (a + 0) (b + 0) (ground arith))
div_unit_fixed (some (pos a)) (some (negsuc b)) z h n = absurd (ground arith)
div_unit_fixed (some (negsuc a)) b z h n = absurd (ground arith)
div_unit_fixed (some (pos a)) none z h n = cc
div_unit_fixed none b z h n = cc

IsNum-div_fixed : (a b : Fixed) → IsNum (fixed_float.div a b) → IsNum a × IsNum b
IsNum-div_fixed (some a) (some b) h = ground arith
IsNum-div_fixed (some a) none h = cc
IsNum-div_fixed none b h = cc

mul_nonneg_fixed :
    (a b : Fixed)
    → Le (lit_fixed 0 0) a
    → Le (lit_fixed 0 0) b
    → IsNum (fixed_float.mul a b)
    → Le (lit_fixed 0 0) (fixed_float.mul a b)
mul_nonneg_fixed (some (pos a)) (some (pos b)) z w n = ground arith
mul_nonneg_fixed (some (pos a)) (some (negsuc b)) z w n = absurd (ground arith)
mul_nonneg_fixed (some (negsuc a)) b z w n = absurd (ground arith)
mul_nonneg_fixed (some (pos a)) none z w n = cc
mul_nonneg_fixed none b z w n = cc

div_nonneg_fixed :
    (a b : Fixed)
    → Le (lit_fixed 0 0) a
    → Lt (lit_fixed 0 0) b
    → IsNum (fixed_float.div a b)
    → Le (lit_fixed 0 0) (fixed_float.div a b)
div_nonneg_fixed (some (pos a)) (some (pos b)) z w n = ground arith
div_nonneg_fixed (some (pos a)) (some (negsuc b)) z w n = absurd (ground arith)
div_nonneg_fixed (some (negsuc a)) b z w n = absurd (ground arith)
div_nonneg_fixed (some (pos a)) none z w n = cc
div_nonneg_fixed none b z w n = cc

add_nonneg_fixed :
    (a b : Fixed)
    → Le (lit_fixed 0 0) b
    → IsNum a
    → IsNum (fixed_float.add a b)
    → Le a (fixed_float.add a b)
add_nonneg_fixed (some a) (some b) z n m = ground (arith, +ℤ_parts a b)
add_nonneg_fixed (some a) none z n m = cc
add_nonneg_fixed none b z n m = cc

IsNum-sub_fixed : (a b : Fixed) → IsNum (fixed_float.sub a b) → IsNum a × IsNum b
IsNum-sub_fixed (some a) (some b) h = ground arith
IsNum-sub_fixed (some a) none h = cc
IsNum-sub_fixed none b h = cc

IsNum-mul_fixed : (a b : Fixed) → IsNum (fixed_float.mul a b) → IsNum a × IsNum b
IsNum-mul_fixed (some a) (some b) h = ground arith
IsNum-mul_fixed (some a) none h = cc
IsNum-mul_fixed none b h = cc

mul_comm_ℤ : (a b : ℤ) → mul_fixed a b ≡ mul_fixed b a
mul_comm_ℤ (pos a) (pos b) = grind arith
mul_comm_ℤ (pos a) (negsuc b) = grind arith
mul_comm_ℤ (negsuc a) (pos b) = grind arith
mul_comm_ℤ (negsuc a) (negsuc b) = grind arith

mul_comm_fixed : (a b : Fixed) → fixed_float.mul a b ≡ fixed_float.mul b a
mul_comm_fixed (some a) (some b) = ap (λ c. some c) (mul_comm_ℤ a b)
mul_comm_fixed (some a) none = refl
mul_comm_fixed none (some b) = refl
mul_comm_fixed none none = refl

pub Fixed-IsRounded : IsRounded Fixed
Fixed-IsRounded = record {
  sub_nonneg = sub_nonneg_fixed;
  sub_mono = sub_mono_fixed;
  sub_anti = sub_anti_fixed;
  div_unit = div_unit_fixed;
  num_div = IsNum-div_fixed;
  mul_comm = mul_comm_fixed;
  num_sub_parts = IsNum-sub_fixed;
  num_mul_parts = IsNum-mul_fixed;
  mul_nonneg = mul_nonneg_fixed;
  div_nonneg = div_nonneg_fixed;
  add_nonneg = add_nonneg_fixed;
}

sub_self_fixed : (a : Fixed) → IsFinite a → fixed_float.sub a a ≡ lit_fixed 0 0
sub_self_fixed (some a) h = ap some (omega int_laws)
sub_self_fixed none h = cc

sub_le_fixed :
    (a b : Fixed)
    → Le (lit_fixed 0 0) b
    → Le b a
    → IsFinite a
    → Le (lit_fixed 0 0) (fixed_float.sub a b)
      × Le (fixed_float.sub a b) a
      × IsFinite (fixed_float.sub a b)
sub_le_fixed (some a) (some b) z h f =
    (ground (arith, -ℤ_parts a b), ground (arith, -ℤ_parts a b), ground arith)
sub_le_fixed (some a) none z h f = cc
sub_le_fixed none b z h f = cc

pub Fixed-IsSubtraction : IsSubtraction Fixed
Fixed-IsSubtraction = record { sub_self = sub_self_fixed; sub_le = sub_le_fixed }

mid_between_fixed :
    (a b : Fixed)
    → Le (lit_fixed 0 0) a
    → Le a b
    → Le b (lit_fixed 1_000_000_000_000_000 0)
    → Le a (fixed_float.mul (lit_fixed 5 1) (fixed_float.add a b))
      × Le (fixed_float.mul (lit_fixed 5 1) (fixed_float.add a b)) b
unfolding ◌+ℤ◌
mid_between_fixed (some (pos a)) (some (pos b)) z h k = (ground arith, ground arith)
mid_between_fixed (some (pos a)) (some (negsuc b)) z h k = absurd (ground arith)
mid_between_fixed (some (negsuc a)) b z h k = absurd (ground arith)
mid_between_fixed (some (pos a)) none z h k = cc
mid_between_fixed none b z h k = cc

pub Fixed-IsMidpoint : IsMidpoint Fixed
Fixed-IsMidpoint = record { mid_between = mid_between_fixed }
