-- ===== src/Stations/Bolts.antt =====
-- physical_engine/factory_simulation/station4_stack_clamping.py.
use matrix_factory.Prelude.{
  Bool, ◌||◌, if◌then◌else◌, List, [], ◌∷◌, Option, some, none, false, or_raise, ◌>>=◌, Result, ok,
  ◌>>◌, guard, not, value_error,
}
use matrix_factory.Float.{Float, Numpy, ◌⊕◌, ◌⊖◌, ◌⊗◌, ◌⊘◌}
use matrix_factory.Stations.{Bolt, Clamping}

module _ {F : Type 0} ⦃fl : Float F⦄ (np : Numpy F) where
  open fl use {lit, lt, pow, abs, min, max}

  -- `mu if mu > 0.0 else 0.15`
  abbrev pub friction : F → F
  friction mu = if lt (lit 0 0) mu then mu else lit 15 2

  -- The nominal preload.
  abbrev pub preload : Bolt F → F
  preload b =
      b.torque
      ⊘ (lit 125 5 ⊘ (lit 2 0 ⊗ np.pi)
          ⊕ friction b.mu_th ⊗ lit 7188 6 ⊘ (lit 2 0 ⊗ np.cos (np.radians (lit 30 0)))
          ⊕ friction b.mu_b ⊗ lit 5125 6)

  -- A bolt's load, less its neighbour's share, if it is positive.
  abbrev pub load : Bolt F → Bolt F → F
  load b neighbour = max (lit 0 0) (preload b ⊖ lit 18 2 ⊗ preload neighbour)

  unfoldable pub clamping_pressure_mpa : Bolt F → Bolt F → Bolt F → Bolt F → F
  clamping_pressure_mpa b0 b1 b2 b3 =
      let f_total_n = lit 0 0 ⊕ load b0 b3 ⊕ load b1 b0 ⊕ load b2 b1 ⊕ load b3 b2 in
      f_total_n ⊘ lit 225 4 ⊘ lit 1000000 0

  -- The porosity of the gas diffusion layer under a pressure, held within [0.01, 0.95].
  unfoldable pub compressed_porosity : F → F
  compressed_porosity p_clamp_mpa =
      let gdl_tsolid_um = lit 2100 1 ⊗ (lit 1 0 ⊖ lit 78 2) in
      let t_comp_raw =
        lit 2100 1 ⊗ (lit 1 0 ⊖ p_clamp_mpa ⊘ (lit 280 2 ⊕ lit 285 1 ⊗ p_clamp_mpa)) in
      let t_comp_um = max (gdl_tsolid_um ⊕ lit 1 0) t_comp_raw in
      max (lit 1 2) (min (lit 95 2) (lit 1 0 ⊖ (lit 1 0 ⊖ lit 78 2) ⊗ (lit 2100 1 ⊘ t_comp_um)))

  -- The standard deviation of the torques.
  unfoldable pub tau_std_unbiased : F → F → F → F → F
  tau_std_unbiased t0 t1 t2 t3 =
      let tau_mean = (lit 0 0 ⊕ t0 ⊕ t1 ⊕ t2 ⊕ t3) ⊘ lit 4 0 in
      let sq : F → F = λ t. pow (t ⊖ tau_mean) (lit 2 0) in
      np.sqrt ((lit 0 0 ⊕ sq t0 ⊕ sq t1 ⊕ sq t2 ⊕ sq t3) ⊘ lit 3 0)

  unfoldable pub simulate_stage2_clamping :
      Bolt F → Bolt F → Bolt F → Bolt F → Bool → F → Clamping F
  unfolding clamping_pressure_mpa compressed_porosity tau_std_unbiased
  simulate_stage2_clamping b0 b1 b2 b3 is_station_4 k_time =
      let t_base = if is_station_4 then lit 24 0 else lit 3 0 in
      let p_clamp_mpa = clamping_pressure_mpa b0 b1 b2 b3 in
      let tau_std = tau_std_unbiased b0.torque b1.torque b2.torque b3.torque in
      let p_dev = abs (p_clamp_mpa ⊖ lit 425 2) ⊘ lit 425 2 in
      record {
        proc_time_s = k_time ⊗ t_base ⊗ (lit 1 0 ⊕ lit 8 2 ⊗ tau_std);
        is_defective =
            lt p_clamp_mpa (lit 3 0)
            || lt (lit 55 1) p_clamp_mpa
            || lt (if is_station_4 then lit 12 1 else lit 18 1) tau_std;
        var_ratio = lit 1 0 ⊕ lit 35 2 ⊗ p_dev ⊕ lit 25 2 ⊗ tau_std;
        gdl_porosity = compressed_porosity p_clamp_mpa;
        e_tangent_mpa = lit 280 2 ⊗ pow (lit 1 0 ⊕ (lit 285 1 ⊘ lit 280 2) ⊗ p_clamp_mpa) (lit 2 0);
        p_clamp_mpa = p_clamp_mpa;
      }

  -- Four torques, and eight friction coefficients: those of the four threads, then those of the four
  -- bearings.
  abbrev pub four_bolts : List F → List F → Option (Bolt F × Bolt F × Bolt F × Bolt F)
  four_bolts (a0 ∷ a1 ∷ a2 ∷ a3 ∷ []) (m0 ∷ m1 ∷ m2 ∷ m3 ∷ n0 ∷ n1 ∷ n2 ∷ n3 ∷ []) = some (
    record { torque = a0; mu_th = m0; mu_b = n0 },
    record { torque = a1; mu_th = m1; mu_b = n1 },
    record { torque = a2; mu_th = m2; mu_b = n2 },
    record { torque = a3; mu_th = m3; mu_b = n3 },
  )
  four_bolts _ _ = none

  abbrev pub any_negative : List F → Bool
  any_negative [] = false
  any_negative (t ∷ ts) = lt t (lit 0 0) || any_negative ts

  unfoldable pub simulate_stage2_clamping_safe : List F → List F → Bool → F → Result (Clamping F)
  unfolding simulate_stage2_clamping
  simulate_stage2_clamping_safe applied_torques friction_coefficients is_station_4 k_time = do
    (b0, b1, b2, b3) ← or_raise (four_bolts applied_torques friction_coefficients) value_error
    guard (not (any_negative applied_torques)) value_error
    ok (simulate_stage2_clamping b0 b1 b2 b3 is_station_4 k_time)
