-- ===== src/Float/Laws.antt =====
-- What the theorems assume of `float`: IEEE 754's order with NaN apart from it, and, in records of
-- their own, NumPy's documented behaviour and addition without rounding.
use matrix_factory.Prelude.{
  ℕ, ◌*◌, ◌^◌, ◌≤◌, ◌<◌, ◌≡◌, ◌⊎◌, ◌↔◌, List, some, false, length, get_elem?, All, Pairwise,
}
use matrix_factory.Float.Ops.{Float, Numpy, ◌⊕◌, ◌⊖◌, ◌⊗◌, ◌⊘◌, IsNum, Le, Lt}

-- Comparisons, decimal literals and the builtins `min`, `max` and `abs`. Comparisons with NaN are
-- false. A literal is the double nearest to its decimal, so literals are ordered as their decimals,
-- and strictly if they have at most 15 digits. Of two equal values `min` and `max` return either.
pub record IsOrdered (F : Type 0) ⦃fl : Float F⦄ : Type 0 where
  pub le_num : (x y : F) → Le x y → IsNum x × IsNum y
  pub le_trans : (x y z : F) → Le x y → Le y z → Le x z
  pub le_of_lt : (x y : F) → Lt x y → Le x y
  pub not_le_of_lt : (x y : F) → Lt x y → fl.le y x ≡ false
  pub le_of_not_lt : (x y : F) → IsNum x → IsNum y → fl.lt x y ≡ false → Le y x
  pub lit_le : (m k n j : ℕ) → m * 10 ^ j ≤ n * 10 ^ k → Le (fl.lit m k) (fl.lit n j)
  pub lit_lt :
      (m k n j : ℕ)
      → m * 10 ^ j < n * 10 ^ k
      → m < 10 ^ 15
      → n < 10 ^ 15
      → k ≤ 12
      → j ≤ 12
      → Lt (fl.lit m k) (fl.lit n j)
  pub max_lem :
      (x y : F)
      → IsNum x
      → IsNum y
      → Le x (fl.max x y) × Le y (fl.max x y) × ((fl.max x y ≡ x) ⊎ (fl.max x y ≡ y))
  pub min_lem :
      (x y : F)
      → IsNum x
      → IsNum y
      → Le (fl.min x y) x × Le (fl.min x y) y × ((fl.min x y ≡ x) ⊎ (fl.min x y ≡ y))
  -- NaN or not, they return one of the two.
  pub max_either : (x y : F) → (fl.max x y ≡ x) ⊎ (fl.max x y ≡ y)
  pub min_either : (x y : F) → (fl.min x y ≡ x) ⊎ (fl.min x y ≡ y)
  pub num_neg : (x : F) → IsNum x → IsNum (fl.neg x)
  pub num_abs_part : (x : F) → IsNum (fl.abs x) → IsNum x
  pub abs_nonneg : (x : F) → IsNum x → Le (fl.lit 0 0) (fl.abs x)

-- NumPy's `clip` and `searchsorted` as its manual states them.
pub record IsNumpy (F : Type 0) ⦃fl : Float F⦄ (np : Numpy F) : Type 0 where
  pub clip_lem :
      (x lo hi : F) → IsNum x → Le lo hi → Le lo (np.clip x lo hi) × Le (np.clip x lo hi) hi
  pub clip-eq : (x lo hi : F) → Le lo x → Le x hi → np.clip x lo hi ≡ x
  -- On a sorted grid all before the position returned is `< v`, and all from it on is `>= v`.
  pub searchsorted-lt :
      (xs : List F) (v : F) (i : ℕ) (x : F)
      → Pairwise (λ a b. Le a b) xs
      → All (λ a. IsNum a) xs
      → IsNum v
      → i < np.searchsorted xs v
      → get_elem? xs i ≡ some x
      → Lt x v
  pub searchsorted-le :
      (xs : List F) (v : F) (i : ℕ) (x : F)
      → Pairwise (λ a b. Le a b) xs
      → All (λ a. IsNum a) xs
      → IsNum v
      → np.searchsorted xs v ≤ i
      → get_elem? xs i ≡ some x
      → Le v x
  pub searchsorted-le-length : (xs : List F) (v : F) → np.searchsorted xs v ≤ length xs
  -- NaN sorts behind every number.
  pub searchsorted-nan :
      (xs : List F) (v : F)
      → fl.le v v ≡ false
      → All (λ x. IsNum x) xs
      → np.searchsorted xs v ≡ length xs

-- Rounding keeps order and signs: the exact result of an operation lies on the same side of 0 and of
-- 1 as the rounded one, unless that is NaN.
pub record IsRounded (F : Type 0) ⦃fl : Float F⦄ : Type 0 where
  pub sub_nonneg : (a b : F) → Le a b → IsNum (b ⊖ a) → Le (fl.lit 0 0) (b ⊖ a)
  pub sub_mono : (a b c : F) → Le a b → IsNum (a ⊖ c) → IsNum (b ⊖ c) → Le (a ⊖ c) (b ⊖ c)
  pub sub_anti : (a b c : F) → Le b c → IsNum (a ⊖ b) → IsNum (a ⊖ c) → Le (a ⊖ c) (a ⊖ b)
  pub div_unit :
      (a b : F)
      → Le (fl.lit 0 0) a
      → Le a b
      → IsNum (a ⊘ b)
      → Le (fl.lit 0 0) (a ⊘ b) × Le (a ⊘ b) (fl.lit 1 0)
  -- The operands of a result that is a number are numbers.
  pub num_div : (a b : F) → IsNum (a ⊘ b) → IsNum a × IsNum b
  pub num_sub_parts : (a b : F) → IsNum (a ⊖ b) → IsNum a × IsNum b
  pub num_mul_parts : (a b : F) → IsNum (a ⊗ b) → IsNum a × IsNum b
  pub mul_comm : (a b : F) → a ⊗ b ≡ b ⊗ a
  -- Products and sums of nonnegative values.
  pub mul_nonneg :
      (a b : F) → Le (fl.lit 0 0) a → Le (fl.lit 0 0) b → IsNum (a ⊗ b) → Le (fl.lit 0 0) (a ⊗ b)
  pub div_nonneg :
      (a b : F) → Le (fl.lit 0 0) a → Lt (fl.lit 0 0) b → IsNum (a ⊘ b) → Le (fl.lit 0 0) (a ⊘ b)
  pub add_nonneg : (a b : F) → Le (fl.lit 0 0) b → IsNum a → IsNum (a ⊕ b) → Le a (a ⊕ b)

-- A finite value: its difference with itself is a number.
abbrev pub IsFinite : {F : Type 0} ⦃fl : Float F⦄ → F → Type 0
IsFinite x = IsNum (x ⊖ x)

-- Subtraction, rounded to the nearest: from a finite value itself, which leaves 0, and from a finite
-- value one that is neither negative nor larger, which leaves a finite value no larger.
pub record IsSubtraction (F : Type 0) ⦃fl : Float F⦄ : Type 0 where
  pub sub_self : (a : F) → IsFinite a → a ⊖ a ≡ fl.lit 0 0
  pub sub_le :
      (a b : F)
      → Le (fl.lit 0 0) b
      → Le b a
      → IsFinite a
      → Le (fl.lit 0 0) (a ⊖ b) × Le (a ⊖ b) a × IsFinite (a ⊖ b)

-- Addition and subtraction with no rounding error and no overflow: the laws of an ordered abelian
-- group. A theorem that takes these speaks of the code in exact arithmetic.
pub record IsExact (F : Type 0) ⦃fl : Float F⦄ : Type 0 where
  pub add_comm : (a b : F) → a ⊕ b ≡ b ⊕ a
  pub add_assoc : (a b c : F) → (a ⊕ b) ⊕ c ≡ a ⊕ (b ⊕ c)
  pub add-zero : (a : F) → a ⊕ fl.lit 0 0 ≡ a
  pub sub-add : (a b : F) → IsNum b → (a ⊖ b) ⊕ b ≡ a
  pub add-sub : (a b : F) → IsNum b → (a ⊕ b) ⊖ b ≡ a
  pub num_add : (a b : F) → IsNum a → IsNum b → IsNum (a ⊕ b)
  pub num_sub : (a b : F) → IsNum a → IsNum b → IsNum (a ⊖ b)
  pub le-sub_iff : (a b c : F) → IsNum c → Le a (b ⊖ c) ↔ Le (a ⊕ c) b
  pub le_antisymm : (a b : F) → Le a b → Le b a → a ≡ b

-- The midpoint of two nonnegative values below 10^15, where their sum cannot overflow.
pub record IsMidpoint (F : Type 0) ⦃fl : Float F⦄ : Type 0 where
  pub mid_between :
      (a b : F)
      → Le (fl.lit 0 0) a
      → Le a b
      → Le b (fl.lit 1_000_000_000_000_000 0)
      → Le a (fl.lit 5 1 ⊗ (a ⊕ b)) × Le (fl.lit 5 1 ⊗ (a ⊕ b)) b

-- Further facts of rounding: sums commute and have numbers as operands where they are numbers, the
-- signs of negations and products, a factor of at most 1, and `exp`, which maps what is not positive
-- into [0, 1].
pub record IsSigned (F : Type 0) ⦃fl : Float F⦄ (np : Numpy F) : Type 0 where
  pub add_comm : (a b : F) → a ⊕ b ≡ b ⊕ a
  pub num_add_parts : (a b : F) → IsNum (a ⊕ b) → IsNum a × IsNum b
  pub sub-zero : (a : F) → a ⊖ fl.lit 0 0 ≡ a
  pub neg_nonpos : (x : F) → Le (fl.lit 0 0) x → Le (fl.neg x) (fl.lit 0 0)
  pub mul_nonpos :
      (a b : F) → Le a (fl.lit 0 0) → Le (fl.lit 0 0) b → IsNum (a ⊗ b) → Le (a ⊗ b) (fl.lit 0 0)
  pub mul_unit :
      (a b : F)
      → Le (fl.lit 0 0) a
      → Le a (fl.lit 1 0)
      → Le (fl.lit 0 0) b
      → IsNum (a ⊗ b)
      → Le (a ⊗ b) b
  pub exp_unit :
      (x : F) → Le x (fl.lit 0 0) → Le (fl.lit 0 0) (np.exp x) × Le (np.exp x) (fl.lit 1 0)
