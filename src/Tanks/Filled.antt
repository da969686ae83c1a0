-- ===== src/Tanks/Filled.antt =====
-- When mass overflows in `distribute_mass_to_tanks`, in rounded arithmetic.
use matrix_factory.Prelude.{
  ℕ, zero, suc, ◌≡◌, refl, sym, ap, subst, ◌∙◌, inl, inr, true, false, List, [], ◌∷◌, some,
  get_elem?, All, Bool-cases,
}
use mathlib.Core.Option.{some-injective}
use matrix_factory.Float.{
  Float, ◌⊕◌, ◌⊖◌, Le, IsOrdered, IsRounded, IsFinite, IsSubtraction, IsNum-lit,
}
use matrix_factory.Tanks.{Tank, accepts_mass, fill_one, distribute_mass_to_tanks}
use matrix_factory.Tanks.Balance.{mark_full-mass}

module _ {F : Type 0} ⦃fl : Float F⦄ where
  open fl use {lit, le, lt, min}

  -- A mass from 0 to a finite capacity.
  pub record IsFit (t : Tank F) : Type 0 where
    pub nonneg : Le (lit 0 0) t.mass
    pub within : Le t.mass t.capacity
    pub finite : IsFinite t.capacity

  -- The tank has taken all its room: the mass it had and the rounded difference to its capacity.
  abbrev pub IsTopped : Tank F → Tank F → Type 0
  IsTopped t t' = t'.mass ≡ t.mass ⊕ (t.capacity ⊖ t.mass)

  -- Each tank that accepts mass is topped, if mass is left over.
  abbrev pub IsFilled : List (Tank F) → List (Tank F) × F → Type 0
  IsFilled ts (ts', left) =
      le left (lit 0 0) ≡ false
      → (i : ℕ) (t : Tank F) → get_elem? ts i ≡ some t
      → accepts_mass t.state ≡ true
      → (t' : Tank F) × (get_elem? ts' i ≡ some t') × IsTopped t t'

  cons-IsFilled :
      (t t' : Tank F) (ts ts' : List (Tank F)) (left : F)
      → (le left (lit 0 0) ≡ false → accepts_mass t.state ≡ true → IsTopped t t')
      → IsFilled ts (ts', left)
      → IsFilled (t ∷ ts) (t' ∷ ts', left)
  cons-IsFilled t t' ts ts' left head tail more zero u e open_tank =
      let same : t ≡ u = some-injective _ _ e in
      subst (λ v. (t1 : Tank F) × (get_elem? (t' ∷ ts') 0 ≡ some t1) × IsTopped v t1) same
        (t', refl, head more (subst (λ v. accepts_mass v.state ≡ true) (sym same) open_tank))
  cons-IsFilled t t' ts ts' left head tail more (suc i) u e open_tank = tail more i u e open_tank

  module _ (laws : IsOrdered F) (rounded : IsRounded F) (subtraction : IsSubtraction F) where
    open laws use {le_num, le_of_lt, le_of_not_lt, min_lem}
    open rounded use {num_sub_parts}
    open subtraction use {sub_self, sub_le}

    -- The loop stops at a remainder that is not positive.
    distribute_spent :
        (r : F) (ts : List (Tank F)) → Le r (lit 0 0) → (distribute_mass_to_tanks r ts).1 ≡ r
    unfolding distribute_mass_to_tanks
    distribute_spent r [] h = refl
    distribute_spent r (t ∷ ts) h = rw h refl

    nonneg_of_more : (r : F) → IsFinite r → le r (lit 0 0) ≡ false → Le (lit 0 0) r
    nonneg_of_more r finite more = elim (Bool-cases (lt r (lit 0 0))) [
      | inl y ↦ let back : Le r (lit 0 0) = le_of_lt _ _ y in cc
      | inr n ↦ le_of_not_lt _ _ (num_sub_parts _ _ finite).0 (IsNum-lit laws 0 0) n
    ]

    -- A turn leaves a finite remainder, and tops the tank unless nothing remains.
    fill_one-IsTopped :
        (r : F) (t : Tank F) (ts : List (Tank F))
        → IsFinite r
        → IsFit t
        → Le (lit 0 0) r
        → IsFinite (fill_one r t).1
          × (le (distribute_mass_to_tanks (fill_one r t).1 ts).1 (lit 0 0) ≡ false
              → IsTopped t (fill_one r t).0)
    fill_one-IsTopped r t ts finite fit nonneg =
        let avail = t.capacity ⊖ t.mass in
        let share = min r avail in
        let (room, _, _) = sub_le t.capacity t.mass fit.nonneg fit.within fit.finite in
        let (below, _, which) = min_lem r avail (le_num _ _ nonneg).1 (le_num _ _ room).1 in
        let some_share : Le (lit 0 0) share = elim which [
          | inl e ↦ rw e nonneg
          | inr e ↦ rw e room
        ] in
        let (_, _, finite') = sub_le r share some_share below finite in
        (
          finite',
          λ more. elim which [
            | inl e ↦
                let gone : r ⊖ share ≡ lit 0 0 = ap (λ x. r ⊖ x) e ∙ sub_self r finite in
                let spent : Le (r ⊖ share) (lit 0 0) = rw gone (IsNum-lit laws 0 0) in
                let left : (distribute_mass_to_tanks (r ⊖ share) ts).1 ≡ r ⊖ share =
                  distribute_spent (r ⊖ share) ts spent in
                let stop : Le (distribute_mass_to_tanks (r ⊖ share) ts).1 (lit 0 0) =
                  rw left spent in
                cc
            | inr e ↦ mark_full-mass (record t { mass = t.mass ⊕ share }) ∙ ap (λ x. t.mass ⊕ x) e
          ],
        )

    distribute-IsFilled :
        (r : F) (ts : List (Tank F))
        → IsFinite r
        → All (λ t. IsFit t) ts
        → IsFilled ts (distribute_mass_to_tanks r ts)
    unfolding distribute_mass_to_tanks
    distribute-IsFilled r [] finite fits = λ more i t' e open_tank. cc
    distribute-IsFilled r (t ∷ ts) finite (fit, fits) = elim (Bool-cases (le r (lit 0 0))) [
      | inl spent ↦ rw spent (λ more. absurd (cc))
      | inr more ↦ rw more (elim (Bool-cases (accepts_mass t.state)) [
        | inl e ↦
            let (finite', topped) =
              fill_one-IsTopped r t ts finite fit (nonneg_of_more r finite more) in
            simp e (
              cons-IsFilled t (fill_one r t).0 ts _ _ (λ left open_tank. topped left)
                (distribute-IsFilled (fill_one r t).1 ts finite' fits))
        | inr e ↦ simp e (
            cons-IsFilled t t ts _ _ (λ left open_tank. absurd (cc))
              (distribute-IsFilled r ts finite fits))
      ])
    ]

    -- Mass overflows only if no tank could take it: from a finite mass, with tanks between empty and a
    -- finite capacity, when the overflow is not <= 0, every tank that accepts mass has been given all
    -- its room, the rounded difference of its capacity and its mass.
    pub overflow_only_if_IsTopped :
        (total : F) (ts : List (Tank F)) (i : ℕ) (t : Tank F)
        → IsFinite total
        → All (λ t. IsFit t) ts
        → le (distribute_mass_to_tanks total ts).1 (lit 0 0) ≡ false
        → get_elem? ts i ≡ some t
        → accepts_mass t.state ≡ true
        → (t' : Tank F) × (get_elem? (distribute_mass_to_tanks total ts).0 i ≡ some t')
          × IsTopped t t'
    overflow_only_if_IsTopped total ts i t finite fits more e open_tank =
        distribute-IsFilled total ts finite fits more i t e open_tank
