-- ===== src/Deoxo/Fractions.antt =====
-- Conversions of the zoned reactor as fractions of the oxygen at its inlet.
use matrix_factory.Prelude.{List, All, arith}
use matrix_factory.Float.{Float, Numpy, IsNum, IsOrdered, IsRounded, IsSigned}
use matrix_factory.Kernels.{Within}
use matrix_factory.Kernels.Effectiveness.{rest_le_one}
use matrix_factory.Deoxo.{BedPoint}
use matrix_factory.Deoxo.Multizone.{joined}

module _ {F : Type 0} ⦃fl : Float F⦄ where
  open fl use {lit}

  -- A fraction, unless it is NaN.
  unfoldable pub IsFraction : F → Type 0
  IsFraction x = IsNum x → Within (lit 0 0) (lit 1 0) x

  unfoldable pub AreFractions : List (BedPoint F) → Type 0
  AreFractions ps = All (λ p. IsFraction p.conversion) ps

module _ {F : Type 0} ⦃fl : Float F⦄ (np : Numpy F) (laws : IsOrdered F) (rounded : IsRounded F)
    (signed : IsSigned F np) where
  open fl use {lit}
  open laws use {le_trans, lit_le}
  open rounded use {sub_nonneg, num_sub_parts, num_mul_parts, mul_nonneg}
  open signed use {mul_unit}

  pub zero-IsFraction : IsFraction (lit 0 0)
  unfolding IsFraction
  zero-IsFraction n = (n, lit_le 0 0 1 0 (omega arith))

  pub joined-IsFraction : (x y : F) → IsFraction x → IsFraction y → IsFraction (joined x y)
  unfolding IsFraction
  joined-IsFraction x y hx hy n =
      let (_, product) = num_sub_parts _ _ n in
      let (na, nb) = num_mul_parts _ _ product in
      let (x0, x1) = hx (num_sub_parts _ _ na).1 in
      let (y0, y1) = hy (num_sub_parts _ _ nb).1 in
      let a0 = sub_nonneg x (lit 1 0) x1 na in
      let b0 = sub_nonneg y (lit 1 0) y1 nb in
      let a1 = rest_le_one np laws rounded signed x x0 na in
      let b1 = rest_le_one np laws rounded signed y y0 nb in
      let p0 = mul_nonneg _ _ a0 b0 product in
      let p1 = le_trans _ _ _ (mul_unit _ _ a0 a1 b0 product) b1 in
      (sub_nonneg _ _ p1 n, rest_le_one np laws rounded signed _ p0 n)
