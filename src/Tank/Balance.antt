-- ===== src/Tank/Balance.antt =====
-- The mass balance of the tank.
use matrix_factory.Prelude.{◌≡◌, sym, subst, ◌∙◌, inl, inr, Result}
use matrix_factory.Float.{
  Float, Numpy, ◌⊕◌, ◌⊖◌, IsNum, Le, IsOrdered, IsNumpy, IsExact, IsNum-lit, le_add, sub_nonneg,
}
use matrix_factory.Tank.{TankArray, discharge, fill}

module _ {F : Type 0} ⦃fl : Float F⦄ where
  -- A mass from 0 to the capacity.
  pub record IsTank (s : TankArray F) : Type 0 where
    pub nonneg : Le (fl.lit 0 0) s.mass_kg
    pub within : Le s.mass_kg s.capacity_kg

module _ {F : Type 0} ⦃fl : Float F⦄ (np : Numpy F) (laws : IsOrdered F) (numpy : IsNumpy F np)
    (exact : IsExact F) (lookup : F → F → Result F) where
  open laws use {le_num, le_trans, min_lem, max_lem}
  open exact use {add_comm, sub-add, le-sub_iff, le_antisymm}

  -- `max x 0` of what is not negative.
  max_zero : (x : F) → Le (fl.lit 0 0) x → fl.max x (fl.lit 0 0) ≡ x
  max_zero x h =
      let (below, _, which) = max_lem x (fl.lit 0 0) (le_num _ _ h).1 (IsNum-lit laws 0 0) in
      elim which [ inl e ↦ e | inr e ↦ e ∙ le_antisymm _ _ h (subst (λ y. Le x y) e below) ]

  -- The smaller of two amounts, neither of them negative.
  share :
      (a b : F)
      → Le (fl.lit 0 0) a
      → Le (fl.lit 0 0) b
      → Le (fl.lit 0 0) (fl.min a b) × Le (fl.min a b) a × Le (fl.min a b) b
  share a b ha hb =
      let (la, lb, which) = min_lem a b (le_num _ _ ha).1 (le_num _ _ hb).1 in
      (elim which [ inl e ↦ rw e ha | inr e ↦ rw e hb ], la, lb)

  -- In exact arithmetic, a discharge of what is not negative leaves the tank between empty and full,
  -- delivers at most what was asked for, and takes from the tank what it delivers.
  pub discharge_balance :
      (s : TankArray F) (requested_kg : F)
      → IsTank s
      → Le (fl.lit 0 0) requested_kg
      → let (s', delivered) = discharge np lookup requested_kg s in
        IsTank s'
        × Le (fl.lit 0 0) delivered
        × Le delivered requested_kg
        × (s'.mass_kg ⊕ delivered ≡ s.mass_kg)
  unfolding discharge
  discharge_balance s r t h =
      let m = s.mass_kg in
      let d = fl.min r (fl.max m (fl.lit 0 0)) in
      let full = max_zero m t.nonneg in
      let (d0, dr, dm') =
        share r (fl.max m (fl.lit 0 0)) h (subst (λ y. Le (fl.lit 0 0) y) (sym full) t.nonneg) in
      let dm : Le d m = subst (λ y. Le d y) full dm' in
      let n : IsNum d = (le_num _ _ dm).0 in
      let rest : Le (fl.lit 0 0) (m ⊖ d) = sub_nonneg exact d m n dm in
      let less : Le (m ⊖ d) m =
        subst (λ y. Le (m ⊖ d) y) (sub-add m d n) (le_add exact (m ⊖ d) d (le_num _ _ rest).1 d0) in
      let same =
        numpy.clip-eq (m ⊖ d) (fl.lit 0 0) s.capacity_kg rest (le_trans _ _ _ less t.within) in
      (
        record { nonneg = rw same rest; within = rw same (le_trans _ _ _ less t.within) },
        d0,
        dr,
        rw same (sub-add m d n),
      )

  -- In exact arithmetic, a fill with what is not negative leaves the tank between empty and full,
  -- accepts at most what was offered, and adds to the tank what it accepts.
  pub fill_balance :
      (s : TankArray F) (offered_kg : F)
      → IsTank s
      → Le (fl.lit 0 0) offered_kg
      → let (s', accepted) = fill np lookup offered_kg s in
        IsTank s'
        × Le (fl.lit 0 0) accepted
        × Le accepted offered_kg
        × (s'.mass_kg ≡ s.mass_kg ⊕ accepted)
  unfolding fill
  fill_balance s o t h =
      let m = s.mass_kg in
      let c = s.capacity_kg in
      let a = fl.min o (fl.max (c ⊖ m) (fl.lit 0 0)) in
      let nm = (le_num _ _ t.within).0 in
      let room : Le (fl.lit 0 0) (c ⊖ m) = sub_nonneg exact m c nm t.within in
      let full = max_zero (c ⊖ m) room in
      let (a0, ao, ac') =
        share o (fl.max (c ⊖ m) (fl.lit 0 0)) h (subst (λ y. Le (fl.lit 0 0) y) (sym full) room) in
      let fits : Le (m ⊕ a) c =
        subst (λ y. Le y c) (add_comm a m)
          ((le-sub_iff a c m nm).0 (subst (λ y. Le a y) full ac')) in
      let more : Le (fl.lit 0 0) (m ⊕ a) = le_trans _ _ _ t.nonneg (le_add exact m a nm a0) in
      let same = numpy.clip-eq (m ⊕ a) (fl.lit 0 0) c more fits in
      (record { nonneg = rw same more; within = rw same fits }, a0, ao, same)
