-- ===== src/Server/Batch.antt =====
-- `RunBatchTest`: the end-of-line test, run to its end with no other call in between.
pub mod Certificate
pub mod Effect
use matrix_factory.Prelude.{
  ◌≡◌, ℕ, zero, suc, Bool, true, false, ◌||◌, List, [], ◌∷◌, Option, none, some, set, if◌then◌else◌,
  ◌==◌, Result, ok, err, Error,
}
use Prim.Native.Nat.{bit_or}
use matrix_factory.Float.{Float, Numpy, ◌⊕◌, ◌⊖◌, ◌⊗◌, ◌⊘◌}
use matrix_factory.Air.{compute_contact_resistance}
use matrix_factory.Pemfc.{
  Stack, Cell, calculate_pemfc_voltage, mass_transport_starvation, solver_did_not_converge,
}
use matrix_factory.Pemfc.Sweep.{Trace, Heat, batch_polarization_sweep_thermal}
use matrix_factory.Server.{
  Servicer, read, chiller_temp_k, stack_current_a_cm2, stack_voltage_v, stack_core_temp_k,
  stack_skin_temp_k, stack_temp_k,
}

pub data Fluid : Type 0 where
  h2 o2 : Fluid

-- What `real_gas_activity` calls: CoolProp's compressibility factor, and the saturation pressure of
-- water from the tables. Both may raise.
pub record FluidProperties (F : Type 0) : Type 0 where
  pub props_si_z : Fluid → F → F → Option F
  pub lookup_water_saturation : F → Option F

pub record BatchTestRequest (F : Type 0) : Type 0 where
  pub operating_temp_k : F
  pub num_cells : ℕ
  pub inlet_pressure_h2_bar : F
  pub inlet_pressure_o2_bar : F
  pub rh_anode : F
  pub r_internal_penalty_ohm_cm2 : F
  pub activity_derate_fraction : F
  pub p_clamp_mpa : F
  pub gdl_porosity : F
  pub j_lim_derate_fraction : F
  pub current_densities : List F
  pub ecsa_ratio : F
  pub lambda_mem : F

pub record BatchTestResponse (F : Type 0) : Type 0 where
  pub passed : Bool
  pub measured_voltages : List F
  pub failure_flags : ℕ

module _ {F : Type 0} ⦃fl : Float F⦄ (np : Numpy F) (fluids : FluidProperties F) where
  open fl use {lit, lt, le, eq, pow, min, max}

  unfoldable pub antoine_psat_water : F → F
  antoine_psat_water t_k =
      let t_c = if lt (t_k ⊖ lit 27315 2) (lit 1 2) then lit 1 2 else t_k ⊖ lit 27315 2 in
      pow (lit 10 0) (lit 807131 5 ⊖ lit 173063 2 ⊘ (lit 233426 3 ⊕ t_c)) ⊗ lit 133322 3

  unfoldable pub water_vapor_partial_pressure : F → F → F
  unfolding antoine_psat_water
  water_vapor_partial_pressure t_k rh =
      let rh = max (lit 0 0) (min (lit 1 0) rh) in
      let p_sat : F = elim (fluids.lookup_water_saturation t_k) [
        | some p ↦ p
        | none ↦ antoine_psat_water t_k
      ] in
      if eq rh (lit 0 0) then lit 0 0 else p_sat ⊗ rh

  -- The activity; the fugacity coefficient with it is not used.
  unfoldable pub real_gas_activity : Fluid → F → F → F → F
  unfolding water_vapor_partial_pressure
  real_gas_activity fluid p_total_pa t_k rh =
      let p_partial = max (lit 0 0) (p_total_pa ⊖ water_vapor_partial_pressure t_k rh) in
      let z : F = elim (fluids.props_si_z fluid p_partial t_k) [ some z ↦ z | none ↦ lit 1 0 ] in
      let phi = if lt (lit 0 0) p_partial then z else lit 1 0 in (phi ⊗ p_partial) ⊘ lit 100000 0

  -- `x if x > 0.0 else default`
  abbrev pub positive_or : F → F → F
  positive_or default x = if le x (lit 0 0) then default else x

  -- The stack under test, with the penalties that the stations before it handed on.
  unfoldable pub stack_under_test : BatchTestRequest F → Servicer F → Stack F
  unfolding real_gas_activity
  stack_under_test request s =
      let t =
        if eq request.operating_temp_k (lit 0 0) then lit 35315 2 else request.operating_temp_k in
      let activity : Fluid → F → F → F = λ fluid bar rh.
        np.clip (real_gas_activity fluid (bar ⊗ lit 100000 0) t rh) (lit 5 1) (lit 10 0) in
      let derate = np.clip request.activity_derate_fraction (lit 0 0) (lit 95 2) in
      let derated : F → F = λ a. np.clip (a ⊗ (lit 1 0 ⊖ derate)) (lit 5 1) (lit 10 0) in
      let r_internal_penalty = max (lit 0 0) request.r_internal_penalty_ohm_cm2 in
      let r_contact =
        compute_contact_resistance (positive_or (lit 425 2) request.p_clamp_mpa) (lit 42 4) in
      let j_lim_derate = np.clip request.j_lim_derate_fraction (lit 0 0) (lit 90 2) in
      record {
        a_h2 = derated (activity h2 request.inlet_pressure_h2_bar request.rh_anode);
        a_o2 = derated (activity o2 request.inlet_pressure_o2_bar (lit 0 0));
        r_internal = s.r_internal ⊕ r_internal_penalty ⊕ r_contact;
        n_cells = if request.num_cells == 0 then s.num_cells else request.num_cells;
        ecsa_ratio = positive_or (lit 1 0) request.ecsa_ratio;
        lambda_mem = positive_or (lit 14 0) request.lambda_mem;
        j_lim = max (lit 2 1) (lit 25 1 ⊗ (lit 1 0 ⊖ j_lim_derate));
      }

  -- The currents asked for, or a sweep of twelve points.
  unfoldable pub sweep_currents : BatchTestRequest F → F → List F
  sweep_currents request j_lim = elim request.current_densities [
    | [] ↦ np.linspace (lit 5 2) (min (lit 24 1) (lit 95 2 ⊗ j_lim)) 12
    | j ∷ js ↦ j ∷ js
  ]

  abbrev pub heat_model : Servicer F → F → Heat F
  heat_model s t_coolant = record {
    dt = lit 5 1;
    c_core = s.thermal.c_core;
    c_skin = s.thermal.c_skin;
    h_a_int = s.thermal.h_a_internal;
    h_a_ext = s.thermal.h_a_external;
    t_coolant = t_coolant;
  }

  abbrev pub last : List F → Option F
  last [] = none
  last (x ∷ []) = some x
  last (x ∷ y ∷ ys) = last (y ∷ ys)

  -- `np.max`, which is NaN if one of the values is.
  abbrev pub peak : List F → F
  peak [] = lit 0 0
  peak (x ∷ []) = x
  peak (x ∷ y ∷ ys) =
      let m = peak (y ∷ ys) in if le x x then (if le x m then m else if le m m then x else m) else x

  -- One write of the pacing loop: current, voltage, core, skin.
  abbrev pub show_point : F → F → F → F → List F → List F
  show_point j v core skin xs =
      set
        (set (set (set (set xs stack_current_a_cm2 j) stack_voltage_v v) stack_core_temp_k core)
          stack_skin_temp_k skin)
        stack_temp_k (lit 5 1 ⊗ (core ⊕ skin))

  unfoldable pub pace : List F → List F → List F → List F → List F → List F
  pace (j ∷ js) (v ∷ vs) (core ∷ cores) (skin ∷ skins) xs =
      pace js vs cores skins (show_point j v core skin xs)
  pace _ _ _ _ xs = xs

  -- Whether a voltage is above the one before it, by more than 1e-6.
  unfoldable pub rises : List F → Bool
  rises [] = false
  rises (v ∷ []) = false
  rises (v ∷ w ∷ ws) = lt (v ⊕ lit 1 6) w || rises (w ∷ ws)

  abbrev pub respond : Trace F → BatchTestResponse F
  respond trace =
      let flags =
        if rises trace.voltages
        then bit_or trace.failure mass_transport_starvation
        else trace.failure in
      record { passed = flags == 0; measured_voltages = trace.voltages; failure_flags = flags }

  abbrev pub failed : BatchTestResponse F
  failed = record {
    passed = false;
    measured_voltages = [];
    failure_flags = solver_did_not_converge;
  }

  -- The servicer after the loop.
  abbrev pub paced : Servicer F → List F → Trace F → F → F → Servicer F
  paced s js trace core skin = record s {
    thermal = record (s.thermal) { t_core = core; t_skin = skin };
    state =
        set (pace js trace.voltages trace.t_core_arr trace.t_skin_arr s.state) stack_current_a_cm2
          (lit 0 0);
  }

  abbrev pub after_check :
      Servicer F → List F → Trace F → F → F → Result (Cell F) → Servicer F × BatchTestResponse F
  after_check s js trace core skin (err e) =
      (record s { thermal = record (s.thermal) { t_core = core; t_skin = skin } }, failed)
  after_check s js trace core skin (ok cell) = (paced s js trace core skin, respond trace)

  -- What follows the sweep. The check at the peak current takes the default limiting current.
  abbrev pub after_ends :
      Servicer F
      → Stack F
      → List F
      → Trace F
      → Option F
      → Option F
      → Servicer F × BatchTestResponse F
  after_ends s c js trace (some core) (some skin) =
      after_check s js trace core skin
        (calculate_pemfc_voltage np (peak js) core (record c { j_lim = lit 25 1 }))
  after_ends s c js trace (some core) none =
      (record s { thermal = record (s.thermal) { t_core = core } }, failed)
  after_ends s c js trace none skin = (s, failed)

  abbrev pub after_sweep :
      Servicer F → Stack F → List F → Result (Trace F) → Servicer F × BatchTestResponse F
  after_sweep s c js (err e) = (s, failed)
  after_sweep s c js (ok trace) =
      after_ends s c js trace (last trace.t_core_arr) (last trace.t_skin_arr)

  abbrev pub after_coolant :
      BatchTestRequest F → Servicer F → Result F → Servicer F × BatchTestResponse F
  after_coolant request s (err e) = (s, failed)
  after_coolant request s (ok t_coolant) =
      let c = stack_under_test request s in
      let js = sweep_currents request c.j_lim in
      after_sweep s c js
        (batch_polarization_sweep_thermal np js s.thermal.t_core c (heat_model s t_coolant))

  unfoldable pub run_batch_test : BatchTestRequest F → Servicer F → Servicer F × BatchTestResponse F
  unfolding stack_under_test sweep_currents
  run_batch_test request s = after_coolant request s (read s.state chiller_temp_k)
