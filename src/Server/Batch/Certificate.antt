-- ===== src/Server/Batch/Certificate.antt =====
-- What a pass of the end-of-line test certifies, and what the test leaves of the servicer.
use matrix_factory.Prelude.{
  ◌≡◌, refl, subst, Bool, true, false, List, Option, none, some, map, ◌==◌, if◌then◌else◌, Result,
  ok, err,
}
use Prim.Native.Nat.{bit_or}
use matrix_factory.Float.{Float, Numpy}
use matrix_factory.Pemfc.{Stack, Cell}
use matrix_factory.Pemfc.Sweep.{Trace, Heat, starved, batch_polarization_sweep_thermal}
use matrix_factory.Pemfc.Sweep.Flags.{Point, IsRun, any, is_ohmic, is_hot, thermal_sweep-IsRun}
use matrix_factory.Server.{Servicer, read, chiller_temp_k}
use matrix_factory.Server.Batch.{
  BatchTestRequest, BatchTestResponse, FluidProperties, stack_under_test, sweep_currents,
  heat_model, rises, after_check, after_ends, after_sweep, after_coolant, run_batch_test,
}

flags_clear :
    (rise weak ohmic hot : Bool)
    → ((if rise
          then bit_or
              (if weak
                then bit_or (if ohmic then (if hot then 5 else 1) else if hot then 4 else 0) 8
                else (if ohmic then (if hot then 5 else 1) else if hot then 4 else 0))
              2
          else (if weak
              then bit_or (if ohmic then (if hot then 5 else 1) else if hot then 4 else 0) 8
              else (if ohmic then (if hot then 5 else 1) else if hot then 4 else 0)))
        == 0)
      ≡ true
    → (rise ≡ false) × (weak ≡ false) × (ohmic ≡ false) × (hot ≡ false)
flags_clear true true true true h = cc
flags_clear true true true false h = cc
flags_clear true true false true h = cc
flags_clear true true false false h = cc
flags_clear true false true true h = cc
flags_clear true false true false h = cc
flags_clear true false false true h = cc
flags_clear true false false false h = cc
flags_clear false true true true h = cc
flags_clear false true true false h = cc
flags_clear false true false true h = cc
flags_clear false true false false h = cc
flags_clear false false true true h = cc
flags_clear false false true false h = cc
flags_clear false false false true h = cc
flags_clear false false false false h = (refl, refl, refl, refl)

module _ {F : Type 0} ⦃fl : Float F⦄ (np : Numpy F) (fluids : FluidProperties F) where
  open fl use {lit}

  module _ (request : BatchTestRequest F) (s : Servicer F) where
    abbrev tested : Stack F
    tested = stack_under_test np fluids request s

    abbrev currents : List F
    currents = sweep_currents np fluids request tested.j_lim

    abbrev heat : F → Heat F
    heat t_coolant = heat_model np fluids s t_coolant

    -- A run of the sweep that meets every criterion of the test.
    abbrev pub IsCertified : BatchTestResponse F → Type 0
    IsCertified r =
        (t_coolant : F) × (ps : List (Point F)) × IsRun np tested (heat t_coolant) s.thermal.t_core
          s.thermal.t_core currents ps
        × (r.measured_voltages ≡ map (λ p. p.cell.v_stack) ps)
        × (any np tested (heat t_coolant) (is_ohmic np tested (heat t_coolant)) ps ≡ false)
        × (any np tested (heat t_coolant) (is_hot np tested (heat t_coolant)) ps ≡ false)
        × (starved np tested ≡ false)
        × (rises np fluids r.measured_voltages ≡ false)

    -- A passed test certifies its stack: there is a run of the sweep through the currents of the
    -- request, or the default ones, from the core temperature of the thermal model, whose voltages the
    -- response lists; no point of it tests as ohmically degraded or too hot, the stack does not test as
    -- starved, and no voltage tests as more than 1e-6 V above the one before it.
    pub passed_certifies :
        (run_batch_test np fluids request s).1.passed ≡ true
        → IsCertified (run_batch_test np fluids request s).1
    unfolding run_batch_test
    passed_certifies = by_coolant (read s.state chiller_temp_k)
      where
        by_check :
            (t_coolant : F) (trace : Trace F) (core skin : F) (v : Result (Cell F))
            → batch_polarization_sweep_thermal np currents s.thermal.t_core tested (heat t_coolant)
              ≡ ok trace
            → (after_check np fluids s currents trace core skin v).1.passed ≡ true
            → IsCertified (after_check np fluids s currents trace core skin v).1
        by_check t_coolant trace core skin (err e) et h = cc
        by_check t_coolant trace core skin (ok cell) et h =
            let (ps, run, vs, _, _, flags) =
              thermal_sweep-IsRun np tested (heat t_coolant) _ _ et in
            let (calm, strong, cool, fresh) =
              flags_clear (rises np fluids trace.voltages) (starved np tested) _ _ (
                subst
                  (λ w. ((if rises np fluids trace.voltages then bit_or w 2 else w) == 0) ≡ true)
                  flags h) in
            (t_coolant, ps, run, vs, cool, fresh, strong, calm)

        by_ends :
            (t_coolant : F) (trace : Trace F) (a b : Option F)
            → batch_polarization_sweep_thermal np currents s.thermal.t_core tested (heat t_coolant)
              ≡ ok trace
            → (after_ends np fluids s tested currents trace a b).1.passed ≡ true
            → IsCertified (after_ends np fluids s tested currents trace a b).1
        by_ends t_coolant trace (some core) (some skin) et = by_check t_coolant trace core skin _ et
        by_ends t_coolant trace (some core) none et = λ h. cc
        by_ends t_coolant trace none b et = λ h. cc

        by_sweep :
            (t_coolant : F) (q : Result (Trace F))
            → batch_polarization_sweep_thermal np currents s.thermal.t_core tested (heat t_coolant)
              ≡ q
            → (after_sweep np fluids s tested currents q).1.passed ≡ true
            → IsCertified (after_sweep np fluids s tested currents q).1
        by_sweep t_coolant (err e) et = λ h. cc
        by_sweep t_coolant (ok trace) et = by_ends t_coolant trace _ _ et

        by_coolant :
            (q : Result F)
            → (after_coolant np fluids request s q).1.passed ≡ true
            → IsCertified (after_coolant np fluids request s q).1
        by_coolant (err e) = λ h. cc
        by_coolant (ok t_coolant) = by_sweep t_coolant _ refl
