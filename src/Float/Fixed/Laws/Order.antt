-- ===== src/Float/Fixed/Laws/Order.antt =====
-- The order, the literals, and `min`, `max` and `abs` of fixed point.
use native.Mathlib.Nat.{
  pow-suc, le_refl, mul-le-mul_right, le_of_mul-le-mul_right, le-div_iff_mul-le, mul-div_cancel,
  mul-pos,
}
use matrix_factory.Prelude.{
  ℕ, zero, suc, ◌*◌, ◌/◌, ◌^◌, ◌≤◌, ◌<◌, ◌≡◌, refl, ◌⊎◌, inl, inr, false, none, some, ap, arith,
}
use matrix_factory.Float.Ops.{IsNum, Le, Lt}
use matrix_factory.Float.Laws.{IsOrdered}
use matrix_factory.Float.Fixed.{Fixed, fixed_float, lit_fixed, unit}

pub le_trans_fixed : (x y z : Fixed) → Le x y → Le y z → Le x z
le_trans_fixed (some x) (some y) (some z) h k = ground arith
le_trans_fixed (some x) (some y) none h k = cc
le_trans_fixed (some x) none z h k = cc
le_trans_fixed none y z h k = cc

ten_pos : (k : ℕ) → 0 < 10 ^ k
ten_pos zero = omega arith
ten_pos (suc k) = omega (arith, pow-suc 10 k, ten_pos k)

le-div : (q x d : ℕ) → 0 < d → q * d ≤ x → q ≤ x / d
le-div q x d p h = (le-div_iff_mul-le p).1 h

lit_le_fixed : (m k n j : ℕ) → m * 10 ^ j ≤ n * 10 ^ k → Le (lit_fixed m k) (lit_fixed n j)
lit_le_fixed m k n j h =
    let q : ℕ = m * unit / 10 ^ k in
    let below : q * 10 ^ k ≤ m * unit = (le-div_iff_mul-le (ten_pos k)).0 (le_refl q) in
    let scaled : (q * 10 ^ j) * 10 ^ k ≤ (n * unit) * 10 ^ k =
      omega (arith, mul-le-mul_right (10 ^ j) below, mul-le-mul_right unit h) in
    let fits : q ≤ n * unit / 10 ^ j =
      le-div q (n * unit) (10 ^ j) (ten_pos j) (le_of_mul-le-mul_right scaled (ten_pos k)) in
    ground arith

Nat-cases : (n : ℕ) → (n ≡ 0) ⊎ (0 < n)
Nat-cases zero = inl refl
Nat-cases (suc n) = inr (omega arith)

scale : ℕ → ℕ
scale k = unit / 10 ^ k

scale_lem : (k : ℕ) → k ≤ 12 → scale k * 10 ^ k ≡ unit
unfolding scale
scale_lem zero h = refl
scale_lem (suc zero) h = refl
scale_lem (suc (suc zero)) h = refl
scale_lem (suc (suc (suc zero))) h = refl
scale_lem (suc (suc (suc (suc zero)))) h = refl
scale_lem (suc (suc (suc (suc (suc zero))))) h = refl
scale_lem (suc (suc (suc (suc (suc (suc zero)))))) h = refl
scale_lem (suc (suc (suc (suc (suc (suc (suc zero))))))) h = refl
scale_lem (suc (suc (suc (suc (suc (suc (suc (suc zero)))))))) h = refl
scale_lem (suc (suc (suc (suc (suc (suc (suc (suc (suc zero))))))))) h = refl
scale_lem (suc (suc (suc (suc (suc (suc (suc (suc (suc (suc zero)))))))))) h = refl
scale_lem (suc (suc (suc (suc (suc (suc (suc (suc (suc (suc (suc zero))))))))))) h = refl
scale_lem (suc (suc (suc (suc (suc (suc (suc (suc (suc (suc (suc (suc zero)))))))))))) h = refl
scale_lem (suc (suc (suc (suc (suc (suc (suc (suc (suc (suc (suc (suc (suc k))))))))))))) h =
    absurd (omega arith)

scale_pos : (k : ℕ) → k ≤ 12 → 0 < scale k
scale_pos k h = elim (Nat-cases (scale k)) [
  | inl e ↦ absurd (omega (arith, scale_lem k h, ap (λ (t : ℕ). t * 10 ^ k) e))
  | inr p ↦ p
]

lit_exact : (m k : ℕ) → k ≤ 12 → m * unit / 10 ^ k ≡ m * scale k
lit_exact m k h =
    let e : m * unit ≡ (m * scale k) * 10 ^ k =
      omega (arith, ap (λ (t : ℕ). m * t) (scale_lem k h)) in
    rw e (mul-div_cancel (m * scale k) (ten_pos k))

lit_lt_fixed :
    (m k n j : ℕ)
    → m * 10 ^ j < n * 10 ^ k
    → m < 10 ^ 15
    → n < 10 ^ 15
    → k ≤ 12
    → j ≤ 12
    → Lt (lit_fixed m k) (lit_fixed n j)
lit_lt_fixed m k n j h _ _ hk hj =
    let a : ℕ = m * scale k in
    let b : ℕ = n * scale j in
    let left : (m * 10 ^ j) * (scale k * scale j) ≡ a * unit =
      omega (arith, ap (λ (t : ℕ). a * t) (scale_lem j hj)) in
    let right : (n * 10 ^ k) * (scale k * scale j) ≡ b * unit =
      omega (arith, ap (λ (t : ℕ). b * t) (scale_lem k hk)) in
    let positive : 0 < scale k * scale j = mul-pos (scale_pos k hk) (scale_pos j hj) in
    let small : a < b = omega (arith, mul-le-mul_right (scale k * scale j) h) in
    rw (lit_exact m k hk, lit_exact n j hj) (ground arith)

pub lt_of_not_le : (v y : Fixed) → IsNum v → IsNum y → fixed_float.le v y ≡ false → Lt y v
lt_of_not_le (some v) (some y) n m h = ground arith
lt_of_not_le (some v) none n m h = cc
lt_of_not_le none y n m h = cc

IsNum-abs_fixed : (x : Fixed) → IsNum (fixed_float.abs x) → IsNum x
IsNum-abs_fixed (some a) h = ground arith
IsNum-abs_fixed none h = cc

pub Fixed-IsOrdered : IsOrdered Fixed
Fixed-IsOrdered = record {
  le_num = ground arith;
  le_trans = le_trans_fixed;
  le_of_lt = ground arith;
  not_le_of_lt = ground arith;
  le_of_not_lt = ground arith;
  lit_le = lit_le_fixed;
  lit_lt = lit_lt_fixed;
  max_lem = ground arith;
  min_lem = ground arith;
  max_either = ground arith;
  min_either = ground arith;
  num_neg = ground arith;
  num_abs_part = IsNum-abs_fixed;
  abs_nonneg = ground arith;
}
