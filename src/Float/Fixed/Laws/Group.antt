-- ===== src/Float/Fixed/Laws/Group.antt =====
-- Sums and differences of fixed point.
use matrix_factory.Prelude.{◌≡◌, refl, ◌↔◌, none, some, ap, arith}
use matrix_factory.Prelude.Int.{+ℤ_comm, +ℤ_assoc, int_laws, +ℤ_parts, -ℤ_parts}
use matrix_factory.Float.Ops.{IsNum, Le}
use matrix_factory.Float.Laws.{IsExact}
use matrix_factory.Float.Fixed.{Fixed, fixed_float, lit_fixed}

add_comm_fixed : (a b : Fixed) → fixed_float.add a b ≡ fixed_float.add b a
add_comm_fixed (some a) (some b) = ap some (+ℤ_comm a b)
add_comm_fixed (some a) none = refl
add_comm_fixed none (some b) = refl
add_comm_fixed none none = refl

add_assoc_fixed :
    (a b c : Fixed)
    → fixed_float.add (fixed_float.add a b) c ≡ fixed_float.add a (fixed_float.add b c)
add_assoc_fixed (some a) (some b) (some c) = ap some (+ℤ_assoc a b c)
add_assoc_fixed (some a) (some b) none = refl
add_assoc_fixed (some a) none c = refl
add_assoc_fixed none b c = refl

add-zero_fixed : (a : Fixed) → fixed_float.add a (lit_fixed 0 0) ≡ a
add-zero_fixed (some a) = ap some (omega int_laws)
add-zero_fixed none = refl

sub-add_fixed : (a b : Fixed) → IsNum b → fixed_float.add (fixed_float.sub a b) b ≡ a
sub-add_fixed (some a) (some b) h = ap some (omega int_laws)
sub-add_fixed none (some b) h = refl
sub-add_fixed a none h = cc

add-sub_fixed : (a b : Fixed) → IsNum b → fixed_float.sub (fixed_float.add a b) b ≡ a
add-sub_fixed (some a) (some b) h = ap some (omega int_laws)
add-sub_fixed none (some b) h = refl
add-sub_fixed a none h = cc

le-sub_fixed : (a b c : Fixed) → IsNum c → Le a (fixed_float.sub b c) ↔ Le (fixed_float.add a c) b
le-sub_fixed (some a) (some b) (some c) h = (
  λ k. ground (arith, -ℤ_parts b c, +ℤ_parts a c),
  λ k. ground (arith, -ℤ_parts b c, +ℤ_parts a c),
)
le-sub_fixed (some a) none (some c) h = (λ k. k, λ k. k)
le-sub_fixed none b (some c) h = (λ k. cc, λ k. cc)
le-sub_fixed a b none h = cc

le_antisymm_fixed : (a b : Fixed) → Le a b → Le b a → a ≡ b
le_antisymm_fixed (some a) (some b) h k = ground arith
le_antisymm_fixed (some a) none h k = cc
le_antisymm_fixed none b h k = cc

pub Fixed-IsExact : IsExact Fixed
Fixed-IsExact = record {
  add_comm = add_comm_fixed;
  add_assoc = add_assoc_fixed;
  add-zero = add-zero_fixed;
  sub-add = sub-add_fixed;
  add-sub = add-sub_fixed;
  le-sub_iff = le-sub_fixed;
  le_antisymm = le_antisymm_fixed;
  num_add = ground arith;
  num_sub = ground arith;
}
