-- ===== src/Examples/Bench.antt =====
-- A bench with one cell, its calls, and the stations.
use matrix_factory.Prelude.{
  arith, ◌≢◌, refl, ◌≡◌, some, length, get_elem?, true, false, [], ◌∷◌, none,
}
use matrix_factory.Server.Seed.{derive_seed, derive_seed-injective}
use matrix_factory.Prelude.Int.{◌-ℤ◌, ◌+ℤ◌}
use matrix_factory.Float.Fixed.{
  Fixed, fixed_float, fixed_numpy, on_fixed, exp_fixed, pow_loop, clip_fixed,
}
use matrix_factory.Float.Fixed.Laws.{Fixed-IsOrdered}
use matrix_factory.Membrane.{springer_membrane_conductivity, compute_membrane_resistance}
use matrix_factory.Air.{compute_contact_resistance}
use matrix_factory.Pemfc.{
  calculate_nernst_potential, effective_j0, concentration_loss, calculate_pemfc_voltage,
  thermal_step,
}
use matrix_factory.Pemfc.Sweep.{
  Trace, batch_polarization_sweep_thermal, thermal_loop, thermal_point,
}
use matrix_factory.Thermal.{stack_thermal_model}
use matrix_factory.Server.{
  vector_length, stack_current_a_cm2, Servicer, IsBench, sim_bridge_servicer, new-IsBench,
}
use matrix_factory.Server.Clock.{Outcome, advance_time, advance_time-Outcome}
use matrix_factory.Server.Batch.{
  BatchTestRequest, FluidProperties, antoine_psat_water, water_vapor_partial_pressure,
  real_gas_activity, stack_under_test, sweep_currents, rises, run_batch_test,
}
use matrix_factory.Server.Batch.Certificate.{IsCertified, passed_certifies}
use matrix_factory.Server.Batch.Effect.{IsDone, run_batch_test-IsDone}
use matrix_factory.Server.Interleaving.{
  assign_core, assign_skin, show, reset, apply, finished, written, beside, Interleaved-IsBench,
}
use matrix_factory.Server.Process.{
  s4, station4, clamped, IsGood, simulate_station_process, process_passes-IsGood,
}
use matrix_factory.Stations.{
  Mea, Deposition, Stamping, Clamping, Bolt, simulate_stage1_mea_prep,
  simulate_stage2_catalyst_deposition, simulate_stage1_stamping,
}
use matrix_factory.Stations.Bolts.{
  clamping_pressure_mpa, compressed_porosity, tau_std_unbiased, simulate_stage2_clamping,
  simulate_stage2_clamping_safe,
}
use matrix_factory.Examples.Data.{num}

-- No CoolProp, no tables.
abbrev bare : FluidProperties Fixed
bare = record { props_si_z = λ f p t. none; lookup_water_saturation = λ t. none }

abbrev request : BatchTestRequest Fixed
request = record {
  operating_temp_k = num 353 0;
  num_cells = 0;
  inlet_pressure_h2_bar = num 1 0;
  inlet_pressure_o2_bar = num 1 0;
  rh_anode = num 0 0;
  r_internal_penalty_ohm_cm2 = num 0 0;
  activity_derate_fraction = num 0 0;
  p_clamp_mpa = num 425 2;
  gdl_porosity = num 78 2;
  j_lim_derate_fraction = num 0 0;
  current_densities = num 1 1 ∷ num 2 1 ∷ [];
  ecsa_ratio = num 1 0;
  lambda_mem = num 14 0;
}

abbrev bench : Servicer Fixed
bench = sim_bridge_servicer 1 (num 6 2) (num 35315 2)

advance_time-Outcome_example :
    Outcome fixed_numpy
      (num 1 0)
      (num 0 0)
      bench
      (advance_time fixed_numpy (num 1 0) (num 0 0) bench).0
      (advance_time fixed_numpy (num 1 0) (num 0 0) bench).1
advance_time-Outcome_example =
    advance_time-Outcome fixed_numpy (num 1 0) (num 0 0) bench
      (new-IsBench 1 (num 6 2) (num 35315 2))

run_batch_test-IsDone_example :
    IsDone fixed_numpy bare request bench (run_batch_test fixed_numpy bare request bench)
run_batch_test-IsDone_example =
    run_batch_test-IsDone fixed_numpy bare request bench (new-IsBench 1 (num 6 2) (num 35315 2))

passed_certifies_example :
    IsCertified fixed_numpy bare request bench (run_batch_test fixed_numpy bare request bench).1
unfolding run_batch_test stack_under_test sweep_currents rises real_gas_activity
    water_vapor_partial_pressure antoine_psat_water compute_contact_resistance
    batch_polarization_sweep_thermal thermal_loop thermal_point thermal_step calculate_pemfc_voltage
    calculate_nernst_potential effective_j0 concentration_loss compute_membrane_resistance
    springer_membrane_conductivity sim_bridge_servicer stack_thermal_model ◌-ℤ◌ ◌+ℤ◌ on_fixed
    exp_fixed pow_loop clip_fixed
passed_certifies_example = passed_certifies fixed_numpy bare request bench refl

abbrev pressed : Mea Fixed
pressed = simulate_stage1_mea_prep fixed_numpy (num 43315 2) (num 84 7) (num 1 0)

abbrev coating : Deposition Fixed
coating = simulate_stage2_catalyst_deposition fixed_numpy (num 15 2) (num 6 2) (num 1 0)

abbrev plate : Stamping Fixed
plate = simulate_stage1_stamping fixed_numpy (num 120 0) 10 (num 5 2) false (num 1 0)

abbrev bolt : Bolt Fixed
bolt = record { torque = num 46 0; mu_th = num 15 2; mu_b = num 15 2 }

abbrev clamping : Clamping Fixed
clamping = simulate_stage2_clamping fixed_numpy bolt bolt bolt bolt true (num 1 0)

process_passes-IsGood_example : IsGood fixed_numpy (clamped clamping)
unfolding simulate_station_process simulate_stage2_clamping_safe simulate_stage2_clamping
    clamping_pressure_mpa compressed_porosity tau_std_unbiased ◌-ℤ◌ ◌+ℤ◌ on_fixed exp_fixed pow_loop
    clip_fixed
process_passes-IsGood_example =
    process_passes-IsGood fixed_numpy Fixed-IsOrdered true s4 (station4 [] []) (num 1 0)
      (clamped clamping) refl refl refl

abbrev short_trace : Trace Fixed
short_trace = record {
  voltages = num 7 1 ∷ [];
  failure = 0;
  t_core_arr = num 354 0 ∷ [];
  t_skin_arr = num 353 0 ∷ [];
}

-- The bench after each write of a test of one point, with a step before the reset.
abbrev core_assigned : Servicer Fixed
core_assigned = apply fixed_numpy bare (assign_core (num 354 0)) bench

abbrev both_assigned : Servicer Fixed
both_assigned = apply fixed_numpy bare (assign_skin (num 353 0)) core_assigned

abbrev shown : Servicer Fixed
shown = apply fixed_numpy bare (show (num 1 0) (num 7 1) (num 354 0) (num 353 0)) both_assigned

abbrev stepped : Servicer Fixed
stepped = (advance_time fixed_numpy (num 1 0) (num 0 0) shown).0

abbrev interrupted : Servicer Fixed
interrupted = apply fixed_numpy bare reset stepped

-- A step falls between the write of the point and the reset.
Interleaved-IsBench_example :
    (length interrupted.state ≡ vector_length)
    × (get_elem? interrupted.state stack_current_a_cm2 ≡ some (num 0 0))
    × ((advance_time fixed_numpy (num 1 0) (num 1 0) interrupted).1.success ≡ true
        → IsBench (advance_time fixed_numpy (num 1 0) (num 1 0) interrupted).0)
Interleaved-IsBench_example =
    Interleaved-IsBench fixed_numpy bare (num 1 0 ∷ []) short_trace (num 354 0) (num 353 0)
      (num 1 0) (num 1 0) (new-IsBench 1 (num 6 2) (num 35315 2)).full
      (written (assign_core (num 354 0)) bench (
        written (assign_skin (num 353 0)) core_assigned (
          written (show (num 1 0) (num 7 1) (num 354 0) (num 353 0)) both_assigned
            (beside (num 1 0) (num 0 0) shown (written reset stepped (finished interrupted))))))

-- The stack id "S5".
derive_seed-injective_example : derive_seed (b'S' ∷ b'5' ∷ []) 7 ≢ derive_seed (b'S' ∷ b'5' ∷ []) 8
derive_seed-injective_example =
    derive_seed-injective (b'S' ∷ b'5' ∷ []) 7 8 (λ e. absurd (omega (arith, e)))
