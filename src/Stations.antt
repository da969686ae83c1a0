-- ===== src/Stations.antt =====
-- physical_engine/factory_simulation/station1_mea_preparation.py to station4_stack_clamping.py: the
-- process kernels of the four manufacturing stations, each with the wrapper that validates its input.
pub mod Quality
pub mod Bolts
use matrix_factory.Prelude.{
  ℕ, zero, suc, Bool, true, false, not, ◌&&◌, ◌||◌, if◌then◌else◌, List, [], ◌∷◌, Result, ok, err,
  ◌>>◌, guard, Error, value_error,
}
use matrix_factory.Prelude.Int.{ℤ, pos, negsuc}
use matrix_factory.Float.{Float, Numpy, ◌⊕◌, ◌⊖◌, ◌⊗◌, ◌⊘◌}

-- The tuples that the kernels return.
pub record Mea (F : Type 0) : Type 0 where
  pub proc_time_s : F
  pub is_defective : Bool
  pub var_ratio : F
  pub alpha_final : F
  pub delamination_risk : F
  pub pinhole_risk : F

pub record Deposition (F : Type 0) : Type 0 where
  pub proc_time_s : F
  pub is_defective : Bool
  pub var_ratio : F
  pub ecsa_ratio : F

pub record Stamping (F : Type 0) : Type 0 where
  pub proc_time_s : F
  pub is_defective : Bool
  pub var_ratio : F
  pub damage_index : F

pub record Clamping (F : Type 0) : Type 0 where
  pub proc_time_s : F
  pub is_defective : Bool
  pub var_ratio : F
  pub gdl_porosity : F
  pub e_tangent_mpa : F
  pub p_clamp_mpa : F

-- A bolt of station 4: its torque and its two friction coefficients.
pub record Bolt (F : Type 0) : Type 0 where
  pub torque : F
  pub mu_th : F
  pub mu_b : F

module _ {F : Type 0} ⦃fl : Float F⦄ (np : Numpy F) where
  open fl use {lit, lt, le, pow, neg, abs, min, max}

  abbrev pub t_press_nominal_k : F
  t_press_nominal_k = lit 43315 2

  abbrev pub dwell_time_nominal_s : F
  dwell_time_nominal_s = lit 180 0

  abbrev pub alpha_min_bond : F
  alpha_min_bond = lit 85 2

  abbrev pub alpha_max_safe : F
  alpha_max_safe = lit 98 2

  -- `rate`, of the constants `k1` and `k2`.
  unfoldable pub cure_rate : F → F → F → F
  cure_rate k1 k2 a =
      let a_clamped = max (lit 0 0) (min (lit 9999 4) a) in
      let term2 = if lt (lit 1 6) a_clamped then k2 ⊗ pow a_clamped (lit 48 2) else lit 0 0 in
      (k1 ⊕ term2) ⊗ pow (lit 1 0 ⊖ a_clamped) (lit 152 2)

  -- One RK4 step.
  unfoldable pub cure_step : F → F → F → F → F
  unfolding cure_rate
  cure_step k1 k2 dt alpha =
      let rk1 = cure_rate k1 k2 alpha in
      let rk2 = cure_rate k1 k2 (alpha ⊕ lit 5 1 ⊗ dt ⊗ rk1) in
      let rk3 = cure_rate k1 k2 (alpha ⊕ lit 5 1 ⊗ dt ⊗ rk2) in
      let rk4 = cure_rate k1 k2 (alpha ⊕ dt ⊗ rk3) in
      max (lit 0 0)
        (min (lit 9999 4) (alpha ⊕ (dt ⊘ lit 6 0) ⊗ (rk1 ⊕ lit 2 0 ⊗ rk2 ⊕ lit 2 0 ⊗ rk3 ⊕ rk4)))

  unfoldable pub cure_loop : F → F → F → ℕ → F → F
  cure_loop k1 k2 dt zero alpha = alpha
  cure_loop k1 k2 dt (suc n) alpha = cure_loop k1 k2 dt n (cure_step k1 k2 dt alpha)

  unfoldable pub integrate_kamal_sourour : F → F → ℕ → F
  unfolding cure_loop cure_step
  integrate_kamal_sourour t_press_k dwell_time_s n_steps =
      let dt = dwell_time_s ⊘ lit n_steps 0 in
      let r_gas = lit 83145 4 in
      let k1 = lit 12000 0 ⊗ np.exp (neg (lit 58200 0) ⊘ (r_gas ⊗ t_press_k)) in
      let k2 = lit 5500000 0 ⊗ np.exp (neg (lit 68500 0) ⊘ (r_gas ⊗ t_press_k)) in
      cure_loop k1 k2 dt n_steps (lit 0 0)

  unfoldable pub simulate_stage1_mea_prep : F → F → F → Mea F
  simulate_stage1_mea_prep t_press_k dwell_time_s k_time =
      let alpha_final = integrate_kamal_sourour t_press_k dwell_time_s 100 in
      let delamination_risk = max (lit 0 0) (alpha_min_bond ⊖ alpha_final) ⊘ alpha_min_bond in
      let pinhole_risk =
        max (lit 0 0) (alpha_final ⊖ alpha_max_safe) ⊘ (lit 1 0 ⊖ alpha_max_safe) in
      let temp_dev = abs (t_press_k ⊖ t_press_nominal_k) ⊘ t_press_nominal_k in
      let dwell_dev = abs (dwell_time_s ⊖ dwell_time_nominal_s) ⊘ dwell_time_nominal_s in
      record {
        proc_time_s = k_time ⊗ lit 5 0 ⊗ (lit 1 0 ⊕ lit 15 2 ⊗ temp_dev ⊕ lit 10 2 ⊗ dwell_dev);
        is_defective = lt alpha_final alpha_min_bond || lt alpha_max_safe alpha_final;
        var_ratio = lit 1 0 ⊕ lit 30 2 ⊗ delamination_risk ⊕ lit 25 2 ⊗ pinhole_risk;
        alpha_final = alpha_final;
        delamination_risk = delamination_risk;
        pinhole_risk = pinhole_risk;
      }

  unfoldable pub simulate_stage1_mea_prep_safe : F → F → F → Result (Mea F)
  unfolding simulate_stage1_mea_prep
  simulate_stage1_mea_prep_safe t_press_k dwell_time_s k_time = do
    guard (not (lt t_press_k (lit 27315 2))) value_error
    guard (not (le dwell_time_s (lit 0 0))) value_error
    ok (simulate_stage1_mea_prep t_press_k dwell_time_s k_time)

  unfoldable pub simulate_stage2_catalyst_deposition : F → F → F → Deposition F
  simulate_stage2_catalyst_deposition v_coat_m_s mu_slurry_pa_s k_time =
      let v_dev = abs (v_coat_m_s ⊖ lit 15 2) ⊘ lit 15 2 in
      let mu_dev = abs (mu_slurry_pa_s ⊖ lit 50 3) ⊘ lit 50 3 in
      let loading_variance =
        lit 35 2 ⊗ pow v_dev (lit 2 0)
        ⊕ lit 25 2 ⊗ pow mu_dev (lit 2 0)
        ⊕ lit 15 2 ⊗ v_dev ⊗ mu_dev in
      let ecsa_ratio_raw = lit 1 0 ⊖ lit 45 2 ⊗ loading_variance ⊖ lit 20 2 ⊗ v_dev in
      let ecsa_ratio = max (lit 10 2) (min (lit 100 2) ecsa_ratio_raw) in
      record {
        proc_time_s = k_time ⊗ lit 12 0 ⊗ (lit 1 0 ⊕ lit 12 2 ⊗ v_dev ⊕ lit 10 2 ⊗ mu_dev);
        is_defective = lt ecsa_ratio (lit 70 2) || lt (lit 30 2) loading_variance;
        var_ratio = lit 1 0 ⊕ lit 40 2 ⊗ loading_variance;
        ecsa_ratio = ecsa_ratio;
      }

  unfoldable pub simulate_stage2_catalyst_deposition_safe : F → F → F → Result (Deposition F)
  unfolding simulate_stage2_catalyst_deposition
  simulate_stage2_catalyst_deposition_safe v_coat_m_s mu_slurry_pa_s k_time = do
    guard (not (le v_coat_m_s (lit 0 0))) value_error
    guard (not (le mu_slurry_pa_s (lit 0 0))) value_error
    ok (simulate_stage2_catalyst_deposition v_coat_m_s mu_slurry_pa_s k_time)

  abbrev pub f_nom_s3 : F
  f_nom_s3 = lit 120 0

  -- Archard's wear, held within [0, 0.99999].
  unfoldable pub wear_of : F → ℕ → F → Bool → F
  wear_of press_force_kn die_stroke_count w0_initial_wear use_duplex_coating =
      let k_wear = if use_duplex_coating then lit 147 12 else lit 350 8 in
      min (lit 99999 5) (
        max (lit 0 0) (
          w0_initial_wear
          ⊕ k_wear ⊗ lit die_stroke_count 0 ⊗ pow (press_force_kn ⊘ f_nom_s3) (lit 135 2)))

  unfoldable pub damage_of : F → F → F
  damage_of press_force_kn wear_ratio =
      let k_strength = lit 1280 0 in
      let n_hardening = lit 43 2 in
      let a_channel_m2 = (lit 1 0 ⊗ lit 1 3) ⊗ (lit 20 0 ⊗ lit 1 3) in
      let a_total_channels_m2 = lit 60 0 ⊗ a_channel_m2 in
      let mu_local = lit 12 2 ⊕ lit 45 2 ⊗ wear_ratio in
      let eps_p_final = lit 1456 4 ⊗ (press_force_kn ⊘ f_nom_s3) in
      let sigma_mem_mpa = (press_force_kn ⊗ lit 1000 0 ⊘ a_total_channels_m2) ⊘ lit 1000000 0 in
      let sigma_flow_mpa = k_strength ⊗ pow (max eps_p_final (lit 1 6)) n_hardening in
      let sigma_1_mpa =
        sigma_mem_mpa ⊗ np.exp (mu_local ⊗ np.radians (lit 10 0)) ⊕ sigma_flow_mpa in
      let work_plastic =
        (sigma_1_mpa ⊘ k_strength)
        ⊗ pow eps_p_final (lit 1 0 ⊖ n_hardening)
        ⊘ (lit 1 0 ⊖ n_hardening) in
      let damage_ncl = if lt (lit 1 4) eps_p_final then work_plastic ⊘ lit 35 2 else lit 0 0 in
      min (lit 2 0) (max (lit 0 0) damage_ncl)

  unfoldable pub simulate_stage1_stamping : F → ℕ → F → Bool → F → Stamping F
  unfolding wear_of damage_of
  simulate_stage1_stamping press_force_kn die_stroke_count w0_initial_wear use_duplex_coating
        k_time =
      let wear_ratio = wear_of press_force_kn die_stroke_count w0_initial_wear use_duplex_coating in
      let damage_index = damage_of press_force_kn wear_ratio in
      let force_dev = abs (press_force_kn ⊖ f_nom_s3) ⊘ f_nom_s3 in
      record {
        proc_time_s = k_time ⊗ lit 3 0 ⊗ (lit 1 0 ⊕ lit 12 2 ⊗ force_dev ⊕ lit 18 2 ⊗ wear_ratio);
        is_defective = lt (lit 1 0) damage_index || le (lit 75 2) wear_ratio;
        var_ratio = lit 1 0 ⊕ lit 40 2 ⊗ wear_ratio ⊕ lit 30 2 ⊗ pow damage_index (lit 2 0);
        damage_index = damage_index;
      }

  -- A negative stroke count raises.
  unfoldable pub simulate_stage1_stamping_safe : F → ℤ → F → Bool → F → Result (Stamping F)
  unfolding simulate_stage1_stamping
  simulate_stage1_stamping_safe press_force_kn (negsuc n) w0_initial_wear use_duplex_coating
        k_time =
      err value_error
  simulate_stage1_stamping_safe press_force_kn (pos n) w0_initial_wear use_duplex_coating k_time =
      do
        guard (not (lt press_force_kn (lit 0 0))) value_error
        guard (le (lit 0 0) w0_initial_wear && lt w0_initial_wear (lit 1 0)) value_error
        ok (simulate_stage1_stamping press_force_kn n w0_initial_wear use_duplex_coating k_time)
