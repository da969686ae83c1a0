-- ===== src/Examples/FuelCell.antt =====
-- The fuel cell, its sweeps, its thermal model, the membrane and the stations.
use matrix_factory.Prelude.{
  refl, ◌≡◌, [], ◌∷◌, arith, if◌then◌else◌, ok, err, value_error, map, Result, List, replicate,
}
use matrix_factory.Prelude.Int.{◌-ℤ◌, ◌+ℤ◌}
use matrix_factory.Float.{Le}
use matrix_factory.Float.Fixed.{
  Fixed, fixed_float, fixed_numpy, on_fixed, exp_fixed, pow_loop, clip_fixed,
}
use matrix_factory.Float.Fixed.Laws.{Fixed-IsOrdered, Fixed-IsRounded}
use matrix_factory.Membrane.{springer_membrane_conductivity, compute_membrane_resistance}
use matrix_factory.Pemfc.{
  calculate_nernst_potential, effective_j0, concentration_loss, calculate_pemfc_voltage,
  overpotentials, e_ocv_formula, dt_max, thermal_step, low_activation, ohmic_degradation,
}
use matrix_factory.Pemfc.Newton.{
  newton_raphson_solver, newton_loop, newton_pass, IsSolution, newton_converged-IsSolution,
  newton_converged_range,
}
use matrix_factory.Pemfc.Sweep.{
  Heat, batch_polarization_sweep, Trace, starved, flag_if, batch_polarization_sweep_thermal,
  thermal_loop, thermal_point, or_all,
}
use matrix_factory.Pemfc.Sweep.Flags.{
  Point, IsRun, any, is_ohmic, is_hot, word, thermal_sweep-IsRun,
}
use matrix_factory.Pemfc.Sweep.Race.{fetch, store, interleaved, lost_updates_harmless}
use matrix_factory.Pemfc.Sweep.Threads.{sweep_spec, sweep_threads_irrelevant}
use matrix_factory.Thermal.{StackThermalModel, stack_thermal_model, step}
use matrix_factory.Thermal.Euler.{thermal_step-step}
use matrix_factory.Thermal.Nodes.{Chain}
use matrix_factory.Examples.Data.{num, stack}

sweep_threads_irrelevant_example :
    batch_polarization_sweep fixed_numpy (num 1 1 ∷ num 2 1 ∷ num 3 1 ∷ []) (num 353 0) stack 2
    ≡ sweep_spec fixed_numpy (num 353 0) stack (num 1 1 ∷ num 2 1 ∷ num 3 1 ∷ [])
sweep_threads_irrelevant_example =
    sweep_threads_irrelevant fixed_numpy (num 353 0) stack (num 1 1 ∷ num 2 1 ∷ num 3 1 ∷ []) 2
      (omega arith)

abbrev heat : Heat Fixed
heat = record {
  dt = num 5 1;
  c_core = num 12500 0;
  c_skin = num 12500 0;
  h_a_int = num 500 0;
  h_a_ext = num 50 0;
  t_coolant = num 298 0;
}

abbrev bench_model : StackThermalModel Fixed
bench_model = stack_thermal_model (num 353 0)

thermal_step-step_example :
    thermal_step bench_model.t_core bench_model.t_skin
      (num 1 0)
      (num 900 0)
      (num 298 0)
      bench_model.c_core
      bench_model.c_skin
      bench_model.h_a_internal
      bench_model.h_a_external
    ≡ (if fixed_float.le
          (dt_max bench_model.c_core bench_model.c_skin bench_model.h_a_internal
            bench_model.h_a_external)
          (num 1 0)
        then err value_error
        else ok (
          (step (num 1 0) (num 900 0) (num 298 0) bench_model).0.t_core,
          (step (num 1 0) (num 900 0) (num 298 0) bench_model).0.t_skin,
        ))
thermal_step-step_example =
    thermal_step-step Fixed-IsRounded bench_model (num 1 0) (num 900 0) (num 298 0)

abbrev chain : Chain Fixed
chain = record {
  c_cell = num 250 0;
  cp_coolant = num 4184 0;
  h_a_cell_ext = num 5 1;
  h_a_inter_cell = num 10 0;
}

-- The voltage at the solver's first guess.
abbrev first_voltage : Fixed
first_voltage =
    (overpotentials fixed_numpy (num 125 2) (num 353 0) stack
      (e_ocv_formula fixed_numpy (num 353 0) (num 1 0) (num 1 0))).v_stack

newton_converged-IsSolution_example :
    IsSolution fixed_numpy first_voltage (num 353 0) stack (num 125 2)
unfolding newton_raphson_solver newton_loop newton_pass calculate_pemfc_voltage
    calculate_nernst_potential effective_j0 concentration_loss compute_membrane_resistance
    springer_membrane_conductivity ◌-ℤ◌ ◌+ℤ◌ on_fixed exp_fixed pow_loop clip_fixed
newton_converged-IsSolution_example =
    newton_converged-IsSolution fixed_numpy first_voltage (num 353 0) stack (num 125 2) refl

newton_converged_range_example : Le (num 1 10) (num 125 2) × Le (num 125 2) (num 24975 4)
unfolding newton_raphson_solver newton_loop newton_pass calculate_pemfc_voltage
    calculate_nernst_potential effective_j0 concentration_loss compute_membrane_resistance
    springer_membrane_conductivity ◌-ℤ◌ ◌+ℤ◌ on_fixed exp_fixed pow_loop clip_fixed
newton_converged_range_example =
    newton_converged_range fixed_numpy first_voltage (num 353 0) stack Fixed-IsOrdered
      Fixed-IsRounded (num 125 2) refl refl refl

-- The sweep of two points.
abbrev trace : Result (Trace Fixed)
trace = batch_polarization_sweep_thermal fixed_numpy (num 1 1 ∷ num 2 1 ∷ []) (num 353 0) stack heat

abbrev returned : Result (Trace Fixed) → Trace Fixed
returned (ok s) = s
returned (err e) = record { voltages = []; t_core_arr = []; t_skin_arr = []; failure = 0 }

thermal_sweep-IsRun_example :
    (ps : List (Point Fixed)) × IsRun fixed_numpy stack heat
      (num 353 0)
      (num 353 0)
      (num 1 1 ∷ num 2 1 ∷ [])
      ps
    × ((returned trace).voltages ≡ map (λ p. p.cell.v_stack) ps)
    × ((returned trace).t_core_arr ≡ map (λ p. p.t_core) ps)
    × ((returned trace).t_skin_arr ≡ map (λ p. p.t_skin) ps)
    × ((returned trace).failure
        ≡ flag_if fixed_numpy (starved fixed_numpy stack) low_activation (
            word fixed_numpy stack heat
              (any fixed_numpy stack heat (is_ohmic fixed_numpy stack heat) ps)
              (any fixed_numpy stack heat (is_hot fixed_numpy stack heat) ps)))
unfolding batch_polarization_sweep_thermal thermal_loop thermal_point thermal_step
    calculate_pemfc_voltage calculate_nernst_potential effective_j0 concentration_loss
    compute_membrane_resistance springer_membrane_conductivity ◌-ℤ◌ ◌+ℤ◌ on_fixed exp_fixed pow_loop
thermal_sweep-IsRun_example =
    thermal_sweep-IsRun fixed_numpy stack heat (num 1 1 ∷ num 2 1 ∷ []) (num 353 0)
      {s = returned trace} refl

-- Two iterations that both read the row before either writes it.
lost_updates_harmless_example :
    or_all 0 (interleaved 2 (fetch 0 ∷ fetch 2 ∷ store 0 ∷ store 2 ∷ []) (λ _. 0) (replicate 2 0))
    ≡ ohmic_degradation
lost_updates_harmless_example =
    lost_updates_harmless 2 (fetch 0 ∷ fetch 2 ∷ store 0 ∷ store 2 ∷ []) (omega arith)
