-- ===== src/Kernels/Exchanger.antt =====
-- Heat exchangers: effectiveness by transfer units, and the correlations for the coefficients.
use matrix_factory.Prelude.{Bool, ◌||◌, if◌then◌else◌}
use matrix_factory.Float.{Float, Numpy, ◌⊕◌, ◌⊖◌, ◌⊗◌, ◌⊘◌}

module _ {F : Type 0} ⦃fl : Float F⦄ where
  open fl use {lit, lt, le, eq, pow, neg, abs}

  pub calculate_reynolds_flux : F → F → F → F → F
  calculate_reynolds_flux mass_flow flow_area d_hydraulic visc =
      if le flow_area (lit 1 9) || le visc (lit 1 9)
      then lit 0 0
      else mass_flow ⊘ flow_area ⊗ d_hydraulic ⊘ visc

  pub calculate_nusselt_dittus_boelter : F → F → Bool → F
  calculate_nusselt_dittus_boelter re pr is_heating =
      if lt re (lit 23000 1)
      then lit 366 2
      else lit 23 3 ⊗ pow re (lit 8 1) ⊗ pow pr (if is_heating then lit 4 1 else lit 3 1)

  pub calculate_nusselt_crossflow : F → F → F
  calculate_nusselt_crossflow re pr =
      if lt re (lit 1000 1) then lit 1 0 else lit 27 2 ⊗ pow re (lit 63 2) ⊗ pow pr (lit 33 2)

  module _ (np : Numpy F) where
    -- The exponent has `1 + r`, where the source's docstring has `1 - R`.
    unfoldable pub dry_cooler_ntu_effectiveness : F → F → F
    dry_cooler_ntu_effectiveness ntu r =
        if le ntu (lit 0 0)
        then lit 0 0
        else if lt (abs (r ⊖ lit 1 0)) (lit 1 6)
        then ntu ⊘ (lit 1 0 ⊕ ntu)
        else (let term = np.exp (neg ntu ⊗ (lit 1 0 ⊕ r)) in
            (lit 1 0 ⊖ term) ⊘ (lit 1 0 ⊕ r ⊗ term))

    -- What follows the `return` is never run.
    unfoldable pub counter_flow_ntu_effectiveness : F → F → F
    counter_flow_ntu_effectiveness ntu r =
        if le ntu (lit 0 0)
        then lit 0 0
        else if lt (abs (r ⊖ lit 1 0)) (lit 1 6)
        then ntu ⊘ (lit 1 0 ⊕ ntu)
        else (let term = np.exp (neg ntu ⊗ (lit 1 0 ⊖ r)) in
            (lit 1 0 ⊖ term) ⊘ (lit 1 0 ⊖ r ⊗ term))

    abbrev pub is_flat : F → F → Bool
    is_flat d_in d_out = lt (abs (d_out ⊖ d_in)) (lit 1 9)

    abbrev pub wall_area_ratio : F → F → F
    wall_area_ratio d_in d_out = if is_flat d_in d_out then lit 1 0 else d_out ⊘ d_in

    abbrev pub wall_resistance : F → F → F → F
    wall_resistance d_in d_out k_wall =
        if is_flat d_in d_out
        then lit 2 3 ⊘ k_wall
        else d_out ⊗ np.log (d_out ⊘ d_in) ⊘ (lit 20 1 ⊗ k_wall)

    pub calculate_dynamic_u_fouled : F → F → F → F → F → F → F → F
    calculate_dynamic_u_fouled h_in h_out d_in d_out k_wall r_foul_in r_foul_out =
        if le h_in (lit 1 6) || le h_out (lit 1 6)
        then lit 0 0
        else if le d_in (lit 0 0) || lt d_out d_in
        then lit 0 0
        else (let area_ratio = wall_area_ratio d_in d_out in
            let r_total =
              area_ratio ⊘ h_in
              ⊕ r_foul_in ⊗ area_ratio
              ⊕ wall_resistance d_in d_out k_wall
              ⊕ r_foul_out
              ⊕ lit 10 1 ⊘ h_out in
            if lt (lit 0 0) r_total then lit 10 1 ⊘ r_total else lit 0 0)
