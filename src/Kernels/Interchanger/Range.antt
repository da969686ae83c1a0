-- ===== src/Kernels/Interchanger/Range.antt =====
-- Totality of the interchanger's flash and the range of its outlet.
use matrix_factory.Prelude.{
  false, ℕ, zero, suc, ◌-◌, ◌≤◌, ◌≡◌, refl, inl, inr, ◌⊎◌, Bool, ◌||◌, List, some, length,
  get_elem?-some, All, All-get, Bool-cases, arith,
}
use matrix_factory.Float.{
  Float, Numpy, ◌⊕◌, ◌⊖◌, ◌⊗◌, ◌⊘◌, IsNum, Le, IsOrdered, IsNumpy, IsRounded, IsMidpoint, IsNum-lit,
}
use matrix_factory.Grid.Cells.{IsGrid, IsTable, IsUpper}
use matrix_factory.Grid.Weights.{interp_weight_bounds}
use matrix_factory.Kernels.{Within}
use matrix_factory.Kernels.Flash.{solve_rachford_rice_single_condensable}
use matrix_factory.Kernels.Interchanger.Reads.{
  lookup_within-some, interp_some, inert_loop-some, rachford_rice_Within,
}
use matrix_factory.Kernels.Interchanger.{
  SplitFeed, SplitTables, Outlet, partial_pressure, split_at, split_loop,
  solve_interchanger_flash_jit, water_in_gas, water_psat_antoine, split_masses, mw_inerts_avg,
  mixed_enthalpy,
}

module _ {F : Type 0} ⦃fl : Float F⦄ where
  open fl use {lit, max}

  -- The grids, the tables of their shape, water among them, and a mass fraction for each.
  pub record IsStack (k : SplitTables F) (fracs : List F) : Type 0 where
    pub pressures : IsGrid k.p_grid
    pub temperatures : IsGrid k.t_grid
    pub water : 6 ≤ length k.stacked_h
    pub tables : All (λ t. IsTable k.p_grid k.t_grid t) k.stacked_h
    pub fractions : length k.stacked_h ≤ length fracs

  -- The outlet's temperature is in the bracket of the bisection, or no round ran and it is the
  -- inlet's; the vapor fraction, if it is a number, is between 0 and 1.
  pub record IsOutlet (rounds : ℕ) (t_h_in : F) (out : Outlet F) : Type 0 where
    pub bracketed :
        ((rounds ≡ 0) × (out.t_sol ≡ t_h_in))
        ⊎ Within (lit 27316 2) (max t_h_in (lit 5000 1)) out.t_sol
    pub fraction : IsNum out.beta_sol → Within (lit 0 0) (lit 1 0) out.beta_sol

module _ {F : Type 0} ⦃fl : Float F⦄ (np : Numpy F) (laws : IsOrdered F) (numpy : IsNumpy F np)
    (rounded : IsRounded F) where
  open fl use {lit, lt, le, max}
  open laws use {le_num, le_trans, lit_le, le_of_lt, le_of_not_lt, max_lem, max_either}

  module _ (feed : SplitFeed F) (k : SplitTables F) (stack : IsStack k feed.lut_mass_fracs)
      (z_num : IsNum feed.z_h2o_mole) (nonzero : fl.eq feed.p_system (lit 0 0) ≡ false)
      (scaled : (y : F) → IsNum y → IsNum (feed.p_system ⊗ max y (lit 1 6))) where
    water_in_gas-IsNum : (k_w beta : F) → IsNum (water_in_gas feed.z_h2o_mole k_w beta)
    water_in_gas-IsNum k_w beta = elim (Bool-cases (lt beta (lit 9999 4))) [
      | inl y ↦ elim (Bool-cases (lt k_w (lit 1 0))) [
        | inl y' ↦ rw (y, y') (le_num _ _ (le_of_lt _ _ y')).0
        | inr n ↦ rw (y, n) z_num
      ]
      | inr n ↦ rw n z_num
    ]

    partial_pressure-some :
        (y : F) → IsNum y → (p : F) × (partial_pressure np feed k y ≡ some p) × IsNum p
    partial_pressure-some y num =
        let grid = k.p_grid in
        let long = stack.pressures.long in
        let (first, a) = get_elem?-some grid 0 (omega (arith, long)) in
        let (last, b) = get_elem?-some grid (length grid - 1) (omega (arith, long)) in
        let first_num = All-get (λ x. IsNum x) grid 0 stack.pressures.numbers a in
        let p = max first (feed.p_system ⊗ max y (lit 1 6)) in
        let p_num = (le_num _ _ (max_lem first _ first_num (scaled y num)).0).1 in
        elim (Bool-cases (lt last p)) [
          | inl over ↦
              (last, rw (a, b, over) refl, All-get (λ x. IsNum x) grid _ stack.pressures.numbers b)
          | inr n ↦ (p, rw (a, b, n) refl, p_num)
        ]

    split_at-some :
        (ix : ℕ) (wp t_mid : F)
        → IsUpper k.p_grid ix
        → IsNum t_mid
        → (h beta : F) × (clamped : Bool) × (split_at np feed k ix wp t_mid
            ≡ some (h, beta, clamped))
          × (IsNum beta → Within (lit 0 0) (lit 1 0) beta)
    unfolding split_at
    split_at-some ix wp t_mid ux num =
        let k_w = water_psat_antoine t_mid ⊘ feed.p_system in
        let beta = solve_rachford_rice_single_condensable feed.z_h2o_mole k_w in
        let y_w = water_in_gas feed.z_h2o_mole k_w beta in
        let (t_lookup, clamped, a, t_num) =
          lookup_within-some k.t_grid t_mid stack.temperatures num in
        let (iy, wt, b, uy, _) =
          interp_weight_bounds np laws numpy rounded k.t_grid t_lookup stack.temperatures t_num in
        let ((h_spec, total), c) =
          inert_loop-some k.p_grid k.t_grid ix iy wp wt ux uy k.stacked_h feed.lut_mass_fracs 0
            (lit 0 0) (lit 0 0) stack.tables stack.fractions in
        let (p_h2o, d, p_num) = partial_pressure-some y_w (water_in_gas-IsNum k_w beta) in
        let (ix_pw, wpw, e, uw, _) =
          interp_weight_bounds np laws numpy rounded k.p_grid p_h2o stack.pressures p_num in
        let (h_w, f) = get_elem?-some k.stacked_h 5 (omega (arith, stack.water)) in
        let shape = All-get (λ t. IsTable k.p_grid k.t_grid t) k.stacked_h 5 stack.tables f in
        let (h_vap, g) = interp_some k.p_grid k.t_grid h_w ix_pw iy wpw wt shape uw uy in
        let (h_liq, h) = interp_some k.p_grid k.t_grid h_w ix iy wp wt shape ux uy in
        (
          mixed_enthalpy (split_masses (mw_inerts_avg feed.z_h2o_mole feed.m_mix_feed) y_w beta)
              h_spec total h_vap h_liq,
          beta,
          clamped,
          rw (nonzero, a, b, c, d, e, f, g, h) refl,
          rachford_rice_Within laws feed.z_h2o_mole k_w,
        )

    module _ (midpoint : IsMidpoint F) (h_target tol t_h_in : F) (hot_num : IsNum t_h_in)
        (hot : Le t_h_in (lit 1_000_000_000_000_000 0)) where
      open midpoint use {mid_between}

      top_small : Le (max t_h_in (lit 5000 1)) (lit 1_000_000_000_000_000 0)
      top_small = elim (max_either t_h_in (lit 5000 1)) [
        | inl e ↦ rw e hot
        | inr e ↦ rw e (lit_le 5000 1 1_000_000_000_000_000 0 (omega arith))
      ]

      split_loop-IsOutlet :
          (rounds ix : ℕ) (wp : F) (n : ℕ) (t_lo t_hi : F) (out : Outlet F)
          → IsUpper k.p_grid ix
          → Le (lit 27316 2) t_lo
          → Le t_lo t_hi
          → Le t_hi (max t_h_in (lit 5000 1))
          → (n ≡ 0 → IsOutlet rounds t_h_in out)
          → (out' : Outlet F) × (split_loop np feed k ix wp h_target tol n t_lo t_hi out
              ≡ some out')
            × IsOutlet rounds t_h_in out'
      unfolding split_loop
      split_loop-IsOutlet rounds ix wp zero t_lo t_hi out ux from ordered to g = (out, refl, g refl)
      split_loop-IsOutlet rounds ix wp (suc n) t_lo t_hi out ux from ordered to g =
          let t_mid = lit 5 1 ⊗ (t_lo ⊕ t_hi) in
          let (above, below) =
            mid_between t_lo t_hi (le_trans _ _ _ (lit_le 0 0 27316 2 (omega arith)) from) ordered
              (le_trans _ _ _ to top_small) in
          let (h, beta, clamped, e, unit) = split_at-some ix wp t_mid ux (le_num _ _ above).1 in
          let next : Outlet F = record {
            t_sol = t_mid;
            beta_sol = beta;
            was_clamped = out.was_clamped || clamped;
          } in
          let good : IsOutlet rounds t_h_in next = record {
            bracketed = inr (le_trans _ _ _ from above, le_trans _ _ _ below to);
            fraction = unit;
          } in
          elim (Bool-cases (lt (fl.abs (h ⊖ h_target)) tol)) [
            | inl near ↦ (next, rw (e, near) refl, good)
            | inr far ↦ elim (Bool-cases (lt h_target h)) [
              | inl y ↦
                  let (out', q, g') =
                    split_loop-IsOutlet rounds ix wp n t_lo t_mid next ux from above
                      (le_trans _ _ _ below to) (λ z. good) in
                  (out', rw (e, far, y) q, g')
              | inr m ↦
                  let (out', q, g') =
                    split_loop-IsOutlet rounds ix wp n t_mid t_hi next ux
                      (le_trans _ _ _ from above) below to (λ z. good) in
                  (out', rw (e, far, m) q, g')
            ]
          ]

      -- With sorted grids, tables of their shape for at least six fluids, a mass fraction for each, a
      -- water fraction and a pressure, not zero, that are numbers, whose products are too, and a hot inlet of at
      -- most 10^15 K, the solver reads only entries of its arrays and returns. The outlet's temperature
      -- lies between 273.16 K and the higher of the inlet's and 500 K, or is the inlet's if no round
      -- ran; the vapor fraction, if it is a number, lies between 0 and 1.
      pub solve_interchanger_flash_jit-IsOutlet :
          (max_iter : ℕ)
          → IsNum feed.p_system
          → (out : Outlet F) × (solve_interchanger_flash_jit np feed k h_target t_h_in max_iter tol
              ≡ some out)
            × IsOutlet max_iter t_h_in out
      unfolding solve_interchanger_flash_jit
      solve_interchanger_flash_jit-IsOutlet max_iter p_num =
          let (p_lookup, clamped, a, num) =
            lookup_within-some k.p_grid feed.p_system stack.pressures p_num in
          let (ix, wp, b, ux, _) =
            interp_weight_bounds np laws numpy rounded k.p_grid p_lookup stack.pressures num in
          let (_, high, _) = max_lem t_h_in (lit 5000 1) hot_num (IsNum-lit laws 5000 1) in
          let (out, e, g) =
            split_loop-IsOutlet max_iter ix wp max_iter (lit 27316 2) (max t_h_in (lit 5000 1))
              (record { t_sol = t_h_in; beta_sol = lit 1 0; was_clamped = clamped }) ux
              (IsNum-lit laws 27316 2) (le_trans _ _ _ (lit_le 27316 2 5000 1 (omega arith)) high)
              (le_num _ _ high).1
              (λ z. record {
                bracketed = inl (z, refl);
                fraction = λ n. (lit_le 0 0 1 0 (omega arith), IsNum-lit laws 1 0);
              }) in
          (out, rw (a, b) e, g)
