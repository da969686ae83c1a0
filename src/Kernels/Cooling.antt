-- ===== src/Kernels/Cooling.antt =====
-- The counter-flow exchanger of the dry cooler.
use matrix_factory.Prelude.{inl, inr, Bool-cases, arith}
use matrix_factory.Float.{
  Float, Numpy, ◌⊖◌, ◌⊗◌, IsNum, Le, IsOrdered, IsRounded, IsSigned, IsNum-lit,
}
use matrix_factory.Kernels.{Within}
use matrix_factory.Kernels.Cooler.{tqc_effectiveness}
use matrix_factory.Kernels.Effectiveness.{balanced, counter}

module _ {F : Type 0} ⦃fl : Float F⦄ (np : Numpy F) (laws : IsOrdered F) (rounded : IsRounded F)
    (signed : IsSigned F np) where
  open fl use {lit, lt, abs, neg}
  open laws use {lit_le}
  open signed use {neg_nonpos}

  -- For a nonnegative number of transfer units and a capacity ratio from 0 to 1, whose exponent is a
  -- number, the effectiveness of the gas cooler, if it is a number, lies between 0 and 1.
  pub tqc_effectiveness-Within :
      (ntu r : F)
      → Le (lit 0 0) ntu
      → Le (lit 0 0) r
      → Le r (lit 1 0)
      → IsNum (neg ntu ⊗ (lit 1 0 ⊖ r))
      → IsNum (tqc_effectiveness np ntu r)
      → Within (lit 0 0) (lit 1 0) (tqc_effectiveness np ntu r)
  unfolding tqc_effectiveness
  tqc_effectiveness-Within ntu r n0 r0 r1 arg num =
      elim (Bool-cases (lt (abs (r ⊖ lit 1 0)) (lit 1 9))) [
        | inl y ↦ rw y (balanced np laws rounded signed ntu n0 (rw y at num))
        | inr n ↦
            elim (Bool-cases
              (lt (lit 1 12) (abs (lit 1 0 ⊖ r ⊗ np.exp (neg ntu ⊗ (lit 1 0 ⊖ r)))))) [
                | inl y ↦
                    rw (n, y)
                      (counter np laws rounded signed ntu r r0 (neg_nonpos ntu n0) r1 arg
                        (rw (n, y) at num))
                | inr k ↦ rw (n, k) (lit_le 0 0 1 0 (omega arith), IsNum-lit laws 1 0)
              ]
      ]
