-- ===== src/Float/Derived.antt =====
-- Consequences of the laws of the order that several components use.
use matrix_factory.Prelude.{ℕ, ◌≡◌, ap, ◌∙◌, sym, subst, inl, inr, arith, Bool-cases}
use matrix_factory.Float.Ops.{Float, ◌⊕◌, ◌⊖◌, IsNum, Le, Lt}
use matrix_factory.Float.Laws.{IsOrdered, IsExact}

module _ {F : Type 0} ⦃fl : Float F⦄ (laws : IsOrdered F) where
  open laws use {
    le_num, le_trans, le_of_lt, not_le_of_lt, le_of_not_lt, lit_le, max_lem, min_lem, max_either,
    min_either,
  }

  pub IsNum-lit : (m k : ℕ) → IsNum (fl.lit m k)
  IsNum-lit m k = lit_le m k m k (omega arith)

  pub lt_of_le_lt : (a b c : F) → Le a b → Lt b c → Lt a c
  lt_of_le_lt a b c h k = elim (Bool-cases (fl.lt a c)) [
    | inl y ↦ y
    | inr n ↦
        let back : Le c a = le_of_not_lt a c (le_num a b h).0 (le_num b c (le_of_lt b c k)).1 n in
        cc (le_trans c a b back h, not_le_of_lt b c k)
  ]

  pub lt_of_lt_lt : (a b c : F) → Lt a b → Lt b c → Lt a c
  lt_of_lt_lt a b c h k = lt_of_le_lt a b c (le_of_lt a b h) k

  pub lt_of_lt_le : (a b c : F) → Lt a b → Le b c → Lt a c
  lt_of_lt_le a b c h k = elim (Bool-cases (fl.lt a c)) [
    | inl y ↦ y
    | inr n ↦
        let back : Le c a = le_of_not_lt a c (le_num a b (le_of_lt a b h)).0 (le_num b c k).1 n in
        cc (le_trans b c a k back, not_le_of_lt a b h)
  ]

  -- `max(lo, min(hi, x))` of a number lies between the bounds.
  pub clamp_bounds :
      (lo hi x : F)
      → Le lo hi
      → IsNum x
      → Le lo (fl.max lo (fl.min hi x)) × Le (fl.max lo (fl.min hi x)) hi
  clamp_bounds lo hi x h n =
      let (below_hi, _, which) = min_lem hi x (le_num lo hi h).1 n in
      let m : IsNum (fl.min hi x) = (le_num _ _ below_hi).0 in
      let (above, _, either) = max_lem lo (fl.min hi x) (le_num lo hi h).0 m in
      (above, elim either [ inl e ↦ rw e h | inr e ↦ rw e below_hi ])

  -- `min(hi, max(lo, x))` likewise.
  pub clamp_bounds' :
      (lo hi x : F)
      → Le lo hi
      → IsNum x
      → Le lo (fl.min hi (fl.max lo x)) × Le (fl.min hi (fl.max lo x)) hi
  clamp_bounds' lo hi x h n =
      let (above_lo, _, which) = max_lem lo x (le_num lo hi h).0 n in
      let m : IsNum (fl.max lo x) = (le_num _ _ above_lo).1 in
      let (below, _, either) = min_lem hi (fl.max lo x) (le_num lo hi h).1 m in
      (elim either [ inl e ↦ rw e h | inr e ↦ rw e above_lo ], below)

  -- The clamps of any value, NaN too: a result that is a number lies between the bounds.
  pub clamp_num :
      (lo hi x : F)
      → Le lo hi
      → IsNum (fl.max lo (fl.min hi x))
      → Le lo (fl.max lo (fl.min hi x)) × Le (fl.max lo (fl.min hi x)) hi
  clamp_num lo hi x h n = elim (Bool-cases (fl.le x x)) [
    | inl num ↦ clamp_bounds lo hi x h num
    | inr nan ↦ elim (max_either lo (fl.min hi x)) [
      | inl e ↦ rw e ((le_num lo hi h).0, h)
      | inr e ↦ elim (min_either hi x) [ inl e' ↦ rw (e, e') (h, (le_num lo hi h).1) | inr e' ↦ cc ]
    ]
  ]

  -- The same with the arguments of `min` the other way round.
  pub clamp_num_swapped :
      (lo hi x : F)
      → Le lo hi
      → IsNum (fl.max lo (fl.min x hi))
      → Le lo (fl.max lo (fl.min x hi)) × Le (fl.max lo (fl.min x hi)) hi
  clamp_num_swapped lo hi x h n = elim (max_either lo (fl.min x hi)) [
    | inl e ↦ rw e ((le_num lo hi h).0, h)
    | inr e ↦ elim (min_either x hi) [
      | inl e' ↦
          let num : IsNum x = subst (λ i. IsNum i) (e ∙ e') n in
          let (_, below_hi, _) = min_lem x hi num (le_num lo hi h).1 in
          let (above, _, _) = max_lem lo (fl.min x hi) (le_num lo hi h).0 (le_num _ _ below_hi).0 in
          (above, rw e below_hi)
      | inr e' ↦ rw (e, e') (h, (le_num lo hi h).1)
    ]
  ]

  pub clamp_num' :
      (lo hi x : F)
      → Le lo hi
      → IsNum (fl.min hi (fl.max lo x))
      → Le lo (fl.min hi (fl.max lo x)) × Le (fl.min hi (fl.max lo x)) hi
  clamp_num' lo hi x h n = elim (Bool-cases (fl.le x x)) [
    | inl num ↦ clamp_bounds' lo hi x h num
    | inr nan ↦ elim (min_either hi (fl.max lo x)) [
      | inl e ↦ rw e (h, (le_num lo hi h).1)
      | inr e ↦ elim (max_either lo x) [ inl e' ↦ rw (e, e') ((le_num lo hi h).0, h) | inr e' ↦ cc ]
    ]
  ]

module _ {F : Type 0} ⦃fl : Float F⦄ (laws : IsExact F) where
  open laws use {add_comm, add_assoc, add-zero, sub-add, add-sub}

  pub zero-add : (a : F) → fl.lit 0 0 ⊕ a ≡ a
  zero-add a = add_comm _ a ∙ add-zero a

  pub sub_self : (a : F) → IsNum a → a ⊖ a ≡ fl.lit 0 0
  sub_self a n = ap (λ b. b ⊖ a) (sym (zero-add a)) ∙ add-sub _ a n

  -- Moving `d` from `r` to `m` keeps their sum.
  pub move : (m d r : F) → IsNum d → (m ⊕ d) ⊕ (r ⊖ d) ≡ m ⊕ r
  move m d r n = add_assoc m d (r ⊖ d) ∙ ap (λ b. m ⊕ b) (add_comm d (r ⊖ d) ∙ sub-add r d n)

  -- Adding what is not negative does not decrease.
  pub le_add : (x d : F) → IsNum x → Le (fl.lit 0 0) d → Le x (x ⊕ d)
  le_add x d n h =
      subst (λ y. Le y (x ⊕ d)) (zero-add x)
        ((laws.le-sub_iff (fl.lit 0 0) (x ⊕ d) x n).0
          (subst (λ y. Le (fl.lit 0 0) y) (sym (ap (λ y. y ⊖ x) (add_comm x d) ∙ add-sub d x n)) h))

  pub sub_nonneg : (a b : F) → IsNum a → Le a b → Le (fl.lit 0 0) (b ⊖ a)
  sub_nonneg a b n h =
      (laws.le-sub_iff (fl.lit 0 0) b a n).1 (subst (λ y. Le y b) (sym (zero-add a)) h)
