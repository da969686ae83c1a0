-- ===== src/Tanks/Energy.antt =====
-- `distribute_mass_and_energy` against `distribute_mass_to_tanks`.
use matrix_factory.Prelude.{
  ◌≡◌, refl, ap, ap₂, sym, ◌∙◌, inl, inr, false, List, [], ◌∷◌, All, Bool-cases, map,
}
use matrix_factory.Float.{Float, ◌⊕◌, ◌⊖◌, IsNum, Le, IsOrdered, IsExact, IsNum-lit, zero-add}
use matrix_factory.Tanks.{
  Tank, accepts_mass, fill_one, charge_one, distribute_mass_to_tanks, distribute_mass_and_energy,
}
use matrix_factory.Tanks.Balance.{IsMeasured, IsWithin, mark_full-mass, IsNum-share}

module _ {F : Type 0} ⦃fl : Float F⦄ where
  open fl use {lit, le, lt, min}

  abbrev pub masses : List (Tank F) → List F
  masses = map (λ t. t.mass)

  module _ (laws : IsOrdered F) (exact : IsExact F) (t_in gamma : F) where
    open laws use {le_num, le_of_not_lt, min_lem, not_le_of_lt}
    open exact use {num_sub, le-sub_iff, add-zero, add-sub, le_antisymm}

    sub-zero : (a : F) → a ⊖ lit 0 0 ≡ a
    sub-zero a = ap (λ b. b ⊖ lit 0 0) (sym (add-zero a)) ∙ add-sub a (lit 0 0) (IsNum-lit laws 0 0)

    -- A tank that may take nothing has no room: its share is nothing.
    no_share :
        (r : F) (t : Tank F)
        → IsNum r
        → IsMeasured t
        → IsWithin t
        → le r (lit 0 0) ≡ false
        → lt (lit 0 0) (min r (t.capacity ⊖ t.mass)) ≡ false
        → min r (t.capacity ⊖ t.mass) ≡ lit 0 0
    no_share r t n (m, c) w more none_left =
        let avail = t.capacity ⊖ t.mass in
        let zn = IsNum-lit laws 0 0 in
        let an = num_sub _ _ c m in
        let (_, _, which) = min_lem r avail n an in
        let positive : Le (lit 0 0) avail =
          (le-sub_iff (lit 0 0) t.capacity t.mass m).1 (rw (zero-add exact t.mass) w) in
        elim which [
          | inl e ↦ cc (le_of_not_lt _ _ zn n (rw e at none_left))
          | inr e ↦ e ∙ le_antisymm _ _ (le_of_not_lt _ _ zn an (rw e at none_left)) positive
        ]

    -- One tank's turn leaves the same mass and the same remainder in both routines.
    charge-fill :
        (r : F) (t : Tank F)
        → IsNum r
        → IsMeasured t
        → IsWithin t
        → le r (lit 0 0) ≡ false
        → ((charge_one t_in gamma r t).0.mass ≡ (fill_one r t).0.mass)
          × ((charge_one t_in gamma r t).1 ≡ (fill_one r t).1)
    charge-fill r t n m w more = elim (Bool-cases (lt (lit 0 0) (min r (t.capacity ⊖ t.mass)))) [
      | inl some_share ↦ rw some_share (mark_full-mass _ ∙ sym (mark_full-mass _), refl)
      | inr no_more ↦
          let e = no_share r t n m w more no_more in
          rw no_more (
            sym (mark_full-mass _ ∙ ap (λ b. t.mass ⊕ b) e ∙ add-zero t.mass),
            sym (ap (λ b. r ⊖ b) e ∙ sub-zero r),
          )
    ]

    -- In exact arithmetic, on a bank where no tank is beyond its capacity, following the temperatures
    -- changes nothing in how the mass is spread: `distribute_mass_and_energy` leaves the masses and
    -- the overflow of `distribute_mass_to_tanks`.
    pub energy-eq-mass :
        (r : F) (ts : List (Tank F))
        → IsNum r
        → All IsMeasured ts
        → All IsWithin ts
        → (masses (distribute_mass_and_energy t_in gamma r ts).0
            ≡ masses (distribute_mass_to_tanks r ts).0)
          × ((distribute_mass_and_energy t_in gamma r ts).1 ≡ (distribute_mass_to_tanks r ts).1)
    unfolding distribute_mass_and_energy distribute_mass_to_tanks
    energy-eq-mass r [] n a w = (refl, refl)
    energy-eq-mass r (t ∷ ts) n (m, a) (w, ws) = elim (Bool-cases (le r (lit 0 0))) [
      | inl spent ↦ rw spent (refl, refl)
      | inr more ↦ rw more (elim (Bool-cases (accepts_mass t.state)) [
        | inl e ↦
            let (same_mass, same_rest) = charge-fill r t n m w more in
            let rn : IsNum (fill_one r t).1 = num_sub _ _ n (IsNum-share laws exact r t n m) in
            let (ms, left) = energy-eq-mass (fill_one r t).1 ts rn a ws in
            simp (e, same_rest) (ap₂ (λ x xs. x ∷ xs) same_mass ms, left)
        | inr e ↦
            let (ms, left) = energy-eq-mass r ts n a ws in simp e (ap (λ xs. t.mass ∷ xs) ms, left)
      ])
    ]
