-- ===== src/Kernels/Interchanger.antt =====
-- `solve_interchanger_flash_jit`: the outlet of a heat interchanger, by bisection on the temperature,
-- with the water's phase split at each.
pub mod Reads
pub mod Range
use matrix_factory.Prelude.{
  ℕ, zero, suc, Bool, true, false, ◌&&◌, ◌||◌, List, [], ◌∷◌, Option, none, some, get_elem?, ◌==◌,
  if◌then◌else◌,
}
use matrix_factory.Float.{Float, Numpy, ◌⊕◌, ◌⊖◌, ◌⊗◌, ◌⊘◌}
use matrix_factory.Grid.{◌>>=◌, before, interp_weight, interp_from_weights_jit}
use matrix_factory.Kernels.Flash.{solve_rachford_rice_single_condensable}

-- The feed: its fraction of water, molar mass, pressure, and mass fractions in the tables' order.
pub record SplitFeed (F : Type 0) : Type 0 where
  pub z_h2o_mole : F
  pub m_mix_feed : F
  pub p_system : F
  pub lut_mass_fracs : List F

-- The stacked enthalpies and their grids.
pub record SplitTables (F : Type 0) : Type 0 where
  pub stacked_h : List (List (List F))
  pub p_grid : List F
  pub t_grid : List F

-- `T_sol`, `beta_sol`, `was_clamped`
pub record Outlet (F : Type 0) : Type 0 where
  pub t_sol : F
  pub beta_sol : F
  pub was_clamped : Bool

module _ {F : Type 0} ⦃fl : Float F⦄ where
  open fl use {lit, lt, le, eq, abs, max, pow}

  -- `_antoine_psat_water`
  pub water_psat_antoine : F → F
  water_psat_antoine t_k =
      let t_c = t_k ⊖ lit 27315 2 in
      let held = if lt t_c (lit 1 2) then lit 1 2 else t_c in
      pow (lit 100 1) (lit 807131 5 ⊖ lit 173063 2 ⊘ (lit 233426 3 ⊕ held)) ⊗ lit 133322 3

  -- A value held to the ends of a grid, and whether it was outside.
  abbrev pub lookup_within : List F → F → Option (F × Bool)
  lookup_within grid v = do
    first ← get_elem? grid 0
    last ← before grid 0
    some (if lt v first then (first, true) else if lt last v then (last, true) else (v, false))

  abbrev pub mw_h2o : F
  mw_h2o = lit 18015 6

  abbrev pub mw_inerts_avg : F → F → F
  mw_inerts_avg z m_mix =
      if lt (lit 1 9) (lit 1 0 ⊖ z) then (m_mix ⊖ z ⊗ mw_h2o) ⊘ (lit 1 0 ⊖ z) else lit 28 3

  -- The water's mole fraction in the gas.
  abbrev pub water_in_gas : F → F → F → F
  water_in_gas z k beta = if lt beta (lit 9999 4) && lt k (lit 1 0) then k else z

  -- The mass fraction of the gas, and that of the water in it.
  abbrev pub split_masses : F → F → F → F × F
  split_masses mw_inerts y_w beta =
      let mw_gas = y_w ⊗ mw_h2o ⊕ (lit 1 0 ⊖ y_w) ⊗ mw_inerts in
      let mass_gas = beta ⊗ mw_gas in
      let total = mass_gas ⊕ (lit 1 0 ⊖ beta) ⊗ mw_h2o in
      (
        if lt (lit 0 0) total then mass_gas ⊘ total else lit 1 0,
        if lt (lit 0 0) mw_gas then y_w ⊗ mw_h2o ⊘ mw_gas else lit 0 0,
      )

  -- The enthalpies of all fluids but the water, number 5, from fluid `i` on.
  unfoldable pub inert_loop :
      ℕ → ℕ → F → F → List (List (List F)) → List F → ℕ → F → F → Option (F × F)
  inert_loop ix iy wp wt [] fracs i h_spec total = some (h_spec, total)
  inert_loop ix iy wp wt (table ∷ tables) [] i h_spec total = none
  inert_loop ix iy wp wt (table ∷ tables) (w ∷ ws) i h_spec total = do
    (h, w_total) ← if lt w (lit 1 12) || i == 5 then some (h_spec, total) else (do
      h_i ← interp_from_weights_jit table ix iy wp wt
      some (h_spec ⊕ w ⊗ h_i, total ⊕ w))
    inert_loop ix iy wp wt tables ws (suc i) h w_total

  -- The enthalpy of the mixture, from the masses, the sums over the inerts and the water's enthalpies.
  abbrev pub mixed_enthalpy : F × F → F → F → F → F → F
  mixed_enthalpy (psi_gas, w_w_gas) h_spec total h_vap_w h_liq_w =
      let h_inert = if lt (lit 0 0) total then h_spec ⊘ total else h_spec in
      let h_gas = w_w_gas ⊗ h_vap_w ⊕ (lit 1 0 ⊖ w_w_gas) ⊗ h_inert in
      psi_gas ⊗ h_gas ⊕ (lit 1 0 ⊖ psi_gas) ⊗ h_liq_w

  module _ (np : Numpy F) (feed : SplitFeed F) (k : SplitTables F) where
    open feed use {z_h2o_mole, m_mix_feed, p_system, lut_mass_fracs}
    open k use {stacked_h, p_grid, t_grid}

    -- The water's partial pressure, held to the grid.
    abbrev pub partial_pressure : F → Option F
    partial_pressure y_w = do
      first ← get_elem? p_grid 0
      last ← before p_grid 0
      let p = max first (p_system ⊗ max y_w (lit 1 6))
      some (if lt last p then last else p)

    -- A zero pressure divides by zero, which is `none`. The enthalpy at a temperature, the vapor fraction, and whether the temperature was clamped; `ix`
    -- and `wp` are the cell and the weight of the pressure.
    unfoldable pub split_at : ℕ → F → F → Option (F × F × Bool)
    unfolding inert_loop
    split_at ix wp t_mid = do
      k_w ← if eq p_system (lit 0 0) then none else some (water_psat_antoine t_mid ⊘ p_system)
      let beta = solve_rachford_rice_single_condensable z_h2o_mole k_w
      let y_w = water_in_gas z_h2o_mole k_w beta
      let masses = split_masses (mw_inerts_avg z_h2o_mole m_mix_feed) y_w beta
      (t_lookup, clamped) ← lookup_within t_grid t_mid
      (iy, wt) ← interp_weight np t_grid t_lookup
      (h_spec, total) ← inert_loop ix iy wp wt stacked_h lut_mass_fracs 0 (lit 0 0) (lit 0 0)
      p_h2o ← partial_pressure y_w
      (ix_pw, wpw) ← interp_weight np p_grid p_h2o
      h_w ← get_elem? stacked_h 5
      h_vap_w ← interp_from_weights_jit h_w ix_pw iy wpw wt
      h_liq_w ← interp_from_weights_jit h_w ix iy wp wt
      some (mixed_enthalpy masses h_spec total h_vap_w h_liq_w, beta, clamped)

    -- The bisection, with `n` rounds left.
    unfoldable pub split_loop : ℕ → F → F → F → ℕ → F → F → Outlet F → Option (Outlet F)
    unfolding split_at
    split_loop ix wp h_target tol zero t_lo t_hi out = some out
    split_loop ix wp h_target tol (suc n) t_lo t_hi out = do
      let t_mid = lit 5 1 ⊗ (t_lo ⊕ t_hi)
      (h_calc, beta, clamped) ← split_at ix wp t_mid
      let next : Outlet F = record {
        t_sol = t_mid;
        beta_sol = beta;
        was_clamped = out.was_clamped || clamped;
      }
      if lt (abs (h_calc ⊖ h_target)) tol
          then some next
          else split_loop ix wp h_target tol n (if lt h_target h_calc then t_lo else t_mid)
              (if lt h_target h_calc then t_mid else t_hi) next

    -- The defaults: `max_iter = 40`, `tol = 100`.
    unfoldable pub solve_interchanger_flash_jit : F → F → ℕ → F → Option (Outlet F)
    unfolding split_loop
    solve_interchanger_flash_jit h_target t_h_in max_iter tol = do
      (p_lookup, clamped) ← lookup_within p_grid p_system
      (ix, wp) ← interp_weight np p_grid p_lookup
      split_loop ix wp h_target tol max_iter (lit 27316 2) (max t_h_in (lit 5000 1))
          (record { t_sol = t_h_in; beta_sol = lit 1 0; was_clamped = clamped })
