-- ===== src/Kernels/Effectiveness.antt =====
-- The effectiveness of a heat exchanger as a fraction of what could be exchanged.
use matrix_factory.Prelude.{◌≡◌, sym, subst, inl, inr, false, Bool-cases, arith}
use matrix_factory.Float.{
  Float, Numpy, ◌⊕◌, ◌⊖◌, ◌⊗◌, ◌⊘◌, IsNum, Le, IsOrdered, IsRounded, IsSigned, IsNum-lit,
}
use matrix_factory.Kernels.{Within}
use matrix_factory.Kernels.Exchanger.{dry_cooler_ntu_effectiveness, counter_flow_ntu_effectiveness}

module _ {F : Type 0} ⦃fl : Float F⦄ (np : Numpy F) (laws : IsOrdered F) (rounded : IsRounded F)
    (signed : IsSigned F np) where
  open fl use {lit, lt, le, abs, neg}
  open laws use {le_num, le_trans, lit_le, le_of_lt, le_of_not_lt}
  open rounded use {
    sub_nonneg, sub_anti, div_unit, num_div, num_sub_parts, num_mul_parts, add_nonneg, mul_nonneg,
  }
  open signed use {add_comm, num_add_parts, sub-zero, neg_nonpos, mul_nonpos, mul_unit, exp_unit}

  zero_unit : Within (lit 0 0) (lit 1 0) (lit 0 0)
  zero_unit = (IsNum-lit laws 0 0, lit_le 0 0 1 0 (omega arith))

  positive : (x : F) → IsNum x → le x (lit 0 0) ≡ false → Le (lit 0 0) x
  positive x n h = elim (Bool-cases (lt x (lit 0 0))) [
    | inl y ↦ let back : Le x (lit 0 0) = le_of_lt _ _ y in cc
    | inr k ↦ le_of_not_lt x (lit 0 0) n (IsNum-lit laws 0 0) k
  ]

  -- ntu / (1 + ntu)
  pub balanced :
      (ntu : F)
      → Le (lit 0 0) ntu
      → IsNum (ntu ⊘ (lit 1 0 ⊕ ntu))
      → Within (lit 0 0) (lit 1 0) (ntu ⊘ (lit 1 0 ⊕ ntu))
  balanced ntu pos_ntu num =
      let (n, d) = num_div _ _ num in
      let le_sum : Le ntu (lit 1 0 ⊕ ntu) =
        subst (λ s. Le ntu s) (add_comm ntu (lit 1 0))
          (add_nonneg ntu (lit 1 0) (lit_le 0 0 1 0 (omega arith)) n
            (subst (λ s. IsNum s) (add_comm (lit 1 0) ntu) d)) in
      div_unit ntu (lit 1 0 ⊕ ntu) pos_ntu le_sum num

  -- 1 - term is at most 1.
  pub rest_le_one :
      (term : F) → Le (lit 0 0) term → IsNum (lit 1 0 ⊖ term) → Le (lit 1 0 ⊖ term) (lit 1 0)
  rest_le_one term h n =
      subst (λ s. Le (lit 1 0 ⊖ term) s) (sub-zero (lit 1 0))
        (sub_anti (lit 1 0) (lit 0 0) term h
          (subst (λ s. IsNum s) (sym (sub-zero (lit 1 0))) (IsNum-lit laws 1 0)) n)

  -- (1 - term) / (1 - r * term) for the counter-flow exchanger.
  pub counter :
      (ntu r : F)
      → Le (lit 0 0) r
      → Le (neg ntu) (lit 0 0)
      → Le r (lit 1 0)
      → IsNum (neg ntu ⊗ (lit 1 0 ⊖ r))
      → let term = np.exp (neg ntu ⊗ (lit 1 0 ⊖ r)) in
        IsNum ((lit 1 0 ⊖ term) ⊘ (lit 1 0 ⊖ r ⊗ term))
        → Within (lit 0 0) (lit 1 0) ((lit 1 0 ⊖ term) ⊘ (lit 1 0 ⊖ r ⊗ term))
  counter ntu r r0 neg_ntu r1 arg num =
      let term = np.exp (neg ntu ⊗ (lit 1 0 ⊖ r)) in
      let (n1, d1) = num_div _ _ num in
      let gap = (num_mul_parts _ _ arg).1 in
      let (low, high) =
        exp_unit (neg ntu ⊗ (lit 1 0 ⊖ r))
          (mul_nonpos (neg ntu) (lit 1 0 ⊖ r) neg_ntu (sub_nonneg r (lit 1 0) r1 gap) arg) in
      let product = (num_sub_parts _ _ d1).1 in
      div_unit (lit 1 0 ⊖ term) (lit 1 0 ⊖ r ⊗ term) (sub_nonneg term (lit 1 0) high n1)
        (sub_anti (lit 1 0) (r ⊗ term) term (mul_unit r term r0 r1 low product) d1 n1) num

  -- The effectiveness of the dry cooler and that of the counter-flow exchanger, where they are
  -- numbers, lie between 0 and 1: for the first with any capacity ratio from 0 up, for the second
  -- with one from 0 to 1, if their exponents are numbers.
  pub ntu_effectiveness-Within :
      (ntu r : F)
      → IsNum ntu
      → Le (lit 0 0) r
      → IsNum (neg ntu ⊗ (lit 1 0 ⊕ r))
      → (IsNum (dry_cooler_ntu_effectiveness np ntu r)
          → Within (lit 0 0) (lit 1 0) (dry_cooler_ntu_effectiveness np ntu r))
        × (Le r (lit 1 0)
            → IsNum (neg ntu ⊗ (lit 1 0 ⊖ r))
            → IsNum (counter_flow_ntu_effectiveness np ntu r)
            → Within (lit 0 0) (lit 1 0) (counter_flow_ntu_effectiveness np ntu r))
  unfolding dry_cooler_ntu_effectiveness counter_flow_ntu_effectiveness
  ntu_effectiveness-Within ntu r n r0 arg_num = elim (Bool-cases (le ntu (lit 0 0))) [
    | inl y ↦ (λ num. rw y zero_unit, λ r1 arg num. rw y zero_unit)
    | inr above ↦
        let pos_ntu = positive ntu n above in
        let neg_ntu = neg_nonpos ntu pos_ntu in
        elim (Bool-cases (lt (abs (r ⊖ lit 1 0)) (lit 1 6))) [
          | inl y ↦ (
            λ num. rw (above, y) (balanced ntu pos_ntu (rw (above, y) at num)),
            λ r1 arg num. rw (above, y) (balanced ntu pos_ntu (rw (above, y) at num)),
          )
          | inr y ↦ (
            λ num. rw (above, y) (dry neg_ntu (rw (above, y) at num)),
            λ r1 arg num. rw (above, y) (counter ntu r r0 neg_ntu r1 arg (rw (above, y) at num)),
          )
        ]
  ]
    where
      dry :
          Le (neg ntu) (lit 0 0)
          → let term = np.exp (neg ntu ⊗ (lit 1 0 ⊕ r)) in
            IsNum ((lit 1 0 ⊖ term) ⊘ (lit 1 0 ⊕ r ⊗ term))
            → Within (lit 0 0) (lit 1 0) ((lit 1 0 ⊖ term) ⊘ (lit 1 0 ⊕ r ⊗ term))
      dry neg_ntu num =
          let term = np.exp (neg ntu ⊗ (lit 1 0 ⊕ r)) in
          let (n1, d1) = num_div _ _ num in
          let sum_num = (num_mul_parts _ _ arg_num).1 in
          let one_le : Le (lit 1 0) (lit 1 0 ⊕ r) =
            add_nonneg (lit 1 0) r r0 (IsNum-lit laws 1 0) sum_num in
          let (low, high) = exp_unit (neg ntu ⊗ (lit 1 0 ⊕ r)) (
            mul_nonpos (neg ntu) (lit 1 0 ⊕ r) neg_ntu
              (le_trans _ _ _ (lit_le 0 0 1 0 (omega arith)) one_le) arg_num) in
          let product = (num_add_parts _ _ d1).1 in
          let below : Le (lit 1 0) (lit 1 0 ⊕ r ⊗ term) =
            add_nonneg (lit 1 0) (r ⊗ term) (mul_nonneg r term r0 low product) (IsNum-lit laws 1 0)
              d1 in
          div_unit (lit 1 0 ⊖ term) (lit 1 0 ⊕ r ⊗ term) (sub_nonneg term (lit 1 0) high n1)
            (le_trans _ _ _ (rest_le_one term low n1) below) num
