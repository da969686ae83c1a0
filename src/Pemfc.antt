-- ===== src/Pemfc.antt =====
-- physical_engine/factory_simulation/pemfc_model.py: the fuel cell of station 5. A sequence of
-- arguments that the functions hand on unchanged is a record `Stack`.
pub mod Newton
pub mod Sweep
use matrix_factory.Prelude.{
  ◌≡◌, refl, >>=-eq-ok, guard-eq-ok, ℕ, Bool, true, false, ◌&&◌, if◌then◌else◌, Error, value_error,
  Result, ok, err, ◌>>=◌, ◌>>◌, guard,
}
use matrix_factory.Float.{Float, Numpy, ◌⊕◌, ◌⊖◌, ◌⊗◌, ◌⊘◌}
use matrix_factory.Membrane.{compute_membrane_resistance}

-- The bits of `failure_flags`.
abbrev pub ohmic_degradation : ℕ
ohmic_degradation = 0x01

abbrev pub mass_transport_starvation : ℕ
mass_transport_starvation = 0x02

abbrev pub thermal_shutdown : ℕ
thermal_shutdown = 0x04

abbrev pub low_activation : ℕ
low_activation = 0x08

abbrev pub solver_did_not_converge : ℕ
solver_did_not_converge = 0x10

pub record Stack (F : Type 0) : Type 0 where
  pub a_h2 : F
  pub a_o2 : F
  pub r_internal : F
  pub n_cells : ℕ
  pub ecsa_ratio : F
  pub lambda_mem : F
  pub j_lim : F

-- What `calculate_pemfc_voltage` returns.
pub record Cell (F : Type 0) : Type 0 where
  pub v_stack : F
  pub eta_act : F
  pub eta_ohm : F
  pub eta_conc : F
  pub e_ocv : F

module _ {F : Type 0} ⦃fl : Float F⦄ where
  open fl use {lit, lt, le, pow, neg, min, max}

  abbrev pub gas_constant : F
  gas_constant = lit 8314462618 9

  abbrev pub faraday : F
  faraday = lit 9648533212 5

  abbrev pub ohmic_degradation_eta_v : F
  ohmic_degradation_eta_v = lit 35 2

  abbrev pub thermal_shutdown_temp_k : F
  thermal_shutdown_temp_k = lit 35815 2

  abbrev pub low_activation_activity_floor : F
  low_activation_activity_floor = lit 7 1

  abbrev pub j0_orr : F
  j0_orr = lit 25 9

  abbrev pub b_conc : F
  b_conc = lit 5 2

  -- `0.5 <= a <= 10.0`
  abbrev pub activity_in_bounds : F → Bool
  activity_in_bounds a = le (lit 5 1) a && le a (lit 10 0)

  pub step_liquid_saturation : F → F → F → F → F
  step_liquid_saturation s_current current_density_a_cm2 m_dot_air_removal dt =
      let water_production = (current_density_a_cm2 ⊗ lit 10000 0) ⊘ (lit 2 0 ⊗ faraday) in
      let water_removal = m_dot_air_removal ⊗ lit 1 4 in
      let ds_dt = (water_production ⊖ water_removal) ⊘ lit 35 2 in
      min (lit 99 2) (max (lit 0 0) (s_current ⊕ dt ⊗ ds_dt))

  pub effective_diffusivity : F → F → F
  effective_diffusivity epsilon s =
      let s_clamped = min (lit 99 2) (max (lit 0 0) s) in
      lit 22 6 ⊗ epsilon ⊗ pow (lit 1 0 ⊖ s_clamped) (lit 15 1)

  -- The largest stable step of the forward Euler method.
  abbrev pub dt_max : F → F → F → F → F
  dt_max c_core c_skin h_a_int h_a_ext =
      lit 2 0 ⊘ max (h_a_int ⊘ c_core) ((h_a_int ⊕ h_a_ext) ⊘ c_skin)

  unfoldable pub thermal_step : F → F → F → F → F → F → F → F → F → Result (F × F)
  thermal_step t_core t_skin dt q_gen t_coolant c_core c_skin h_a_int h_a_ext =
      if le (dt_max c_core c_skin h_a_int h_a_ext) dt
      then err value_error
      else let q_int = (t_core ⊖ t_skin) ⊗ h_a_int in
        let q_ext = (t_skin ⊖ t_coolant) ⊗ h_a_ext in
        let dt_core = (q_gen ⊖ q_int) ⊘ c_core ⊗ dt in
        let dt_skin = (q_int ⊖ q_ext) ⊘ c_skin ⊗ dt in ok (t_core ⊕ dt_core, t_skin ⊕ dt_skin)

  module _ (np : Numpy F) where
    abbrev pub e_ocv_formula : F → F → F → F
    e_ocv_formula t a_h2 a_o2 =
        lit 1229 3
        ⊖ lit 85 5 ⊗ (t ⊖ lit 29815 2)
        ⊕ (gas_constant ⊗ t) ⊘ (lit 2 0 ⊗ faraday) ⊗ np.log (a_h2 ⊗ pow a_o2 (lit 5 1))

    unfoldable pub calculate_nernst_potential : F → F → F → Result F
    calculate_nernst_potential t a_h2 a_o2 = do
      guard (activity_in_bounds a_h2) value_error
      guard (activity_in_bounds a_o2) value_error
      ok (e_ocv_formula t a_h2 a_o2)

    unfoldable pub effective_j0 : F → F → F → F → F → F
    effective_j0 j0_ref ecsa_ratio t e_act t_ref =
        let ecsa_clamped = max (lit 1 4) ecsa_ratio in
        let arrhenius = np.exp (neg (e_act ⊘ (gas_constant ⊗ t)) ⊗ (lit 1 0 ⊖ t ⊘ t_ref)) in
        j0_ref ⊗ ecsa_clamped ⊗ arrhenius

    -- η_conc, with its linear extension above 0.99 of the limiting current.
    unfoldable pub concentration_loss : F → F → F
    concentration_loss j j_lim =
        let ratio = j ⊘ j_lim in
        let penalty_slope = b_conc ⊘ (j_lim ⊗ lit 1 2) in
        if le ratio (lit 99 2)
        then neg b_conc ⊗ np.log (lit 1 0 ⊖ ratio)
        else neg b_conc ⊗ np.log (lit 1 2) ⊕ penalty_slope ⊗ (ratio ⊖ lit 99 2)

    abbrev pub overpotentials : F → F → Stack F → F → Cell F
    overpotentials j t c e_ocv =
        let j0 = effective_j0 j0_orr c.ecsa_ratio t (lit 68500 0) (lit 35315 2) in
        let j_safe = max j (lit 1 10) in
        let eta_act = (gas_constant ⊗ t) ⊘ (lit 5 1 ⊗ lit 4 0 ⊗ faraday) ⊗ np.log (j_safe ⊘ j0) in
        let r_mem = compute_membrane_resistance np c.lambda_mem t (lit 5 3) in
        let eta_ohm = j ⊗ (c.r_internal ⊕ r_mem) in
        let eta_conc = concentration_loss j c.j_lim in
        let v_cell = e_ocv ⊖ eta_act ⊖ eta_ohm ⊖ eta_conc in
        record {
          v_stack = lit c.n_cells 0 ⊗ v_cell;
          eta_act = eta_act;
          eta_ohm = eta_ohm;
          eta_conc = eta_conc;
          e_ocv = e_ocv;
        }

    unfoldable pub calculate_pemfc_voltage : F → F → Stack F → Result (Cell F)
    unfolding calculate_nernst_potential effective_j0 concentration_loss
    calculate_pemfc_voltage j t c = do
      e_ocv ← calculate_nernst_potential t c.a_h2 c.a_o2
      ok (overpotentials j t c e_ocv)

    -- A polarization point is defined if both activities are in bounds.
    pub voltage_returns :
        (j t : F) (c : Stack F)
        → activity_in_bounds c.a_h2 ≡ true
        → activity_in_bounds c.a_o2 ≡ true
        → calculate_pemfc_voltage j t c ≡ ok (overpotentials j t c (e_ocv_formula t c.a_h2 c.a_o2))
    unfolding calculate_pemfc_voltage calculate_nernst_potential
    voltage_returns j t c h o = rw (h, o) refl

    -- A point that is defined has both activities in bounds.
    pub voltage_in_bounds :
        (j t : F) (c : Stack F) {cell : Cell F}
        → calculate_pemfc_voltage j t c ≡ ok cell
        → (activity_in_bounds c.a_h2 ≡ true) × (activity_in_bounds c.a_o2 ≡ true)
    unfolding calculate_pemfc_voltage calculate_nernst_potential
    voltage_in_bounds j t c e =
        let (_, e1, _) = >>=-eq-ok (calculate_nernst_potential t c.a_h2 c.a_o2) _ e in
        let (h, e2) = guard-eq-ok (activity_in_bounds c.a_h2) value_error _ e1 in
        (h, (guard-eq-ok (activity_in_bounds c.a_o2) value_error _ e2).0)
