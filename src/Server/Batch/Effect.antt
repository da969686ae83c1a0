-- ===== src/Server/Batch/Effect.antt =====
-- What the test leaves of the servicer.
use matrix_factory.Prelude.{
  ◌≡◌, refl, sym, ap, ◌∙◌, inl, inr, ◌⊎◌, suc, true, List, [], ◌∷◌, Option, none, some, length, map,
  length-map, get_elem?, get_elem?-set_other, get_elem?-set_self, length-set, set, arith, Result,
  ok, err,
}
use matrix_factory.Float.{Float, Numpy}
use matrix_factory.Pemfc.{Stack, activity_in_bounds, voltage_returns, voltage_in_bounds}
use matrix_factory.Pemfc.Sweep.{Trace, Heat, batch_polarization_sweep_thermal}
use matrix_factory.Pemfc.Sweep.Flags.{Point, IsRun, done, point, thermal_sweep-IsRun}
use matrix_factory.Server.{
  Servicer, read, chiller_temp_k, stack_current_a_cm2, stack_core_temp_k, stack_skin_temp_k,
  vector_length, IsBench,
}
use matrix_factory.Server.Batch.{
  BatchTestRequest, BatchTestResponse, FluidProperties, stack_under_test, sweep_currents,
  heat_model, last, peak, show_point, pace, respond, failed, paced, after_ends, after_sweep,
  after_coolant, run_batch_test,
}

module _ {F : Type 0} ⦃fl : Float F⦄ (np : Numpy F) (fluids : FluidProperties F) where
  open fl use {lit}

  -- The vector after a point shows the point.
  record Shows (core skin : F) (xs : List F) : Type 0 where
    full : length xs ≡ vector_length
    core_shown : get_elem? xs stack_core_temp_k ≡ some core
    skin_shown : get_elem? xs stack_skin_temp_k ≡ some skin

  show_point-Shows :
      (j v core skin : F) (xs : List F)
      → length xs ≡ vector_length
      → Shows core skin (show_point np fluids j v core skin xs)
  show_point-Shows j v core skin xs n =
      let full4 =
        length-set (set (set xs 5 j) 4 v) 7 core
        ∙ length-set (set xs 5 j) 4 v
        ∙ length-set xs 5 j in
      record {
        full = length-set _ 6 _ ∙ length-set _ 8 skin ∙ full4 ∙ n;
        core_shown =
            get_elem?-set_other _ 6 7 _ (λ e. cc)
            ∙ get_elem?-set_other _ 8 7 skin (λ e. cc)
            ∙ get_elem?-set_self (set (set xs 5 j) 4 v) 7 core
                (omega (arith, length-set (set xs 5 j) 4 v, length-set xs 5 j, n));
        skin_shown =
            get_elem?-set_other _ 6 8 _ (λ e. cc)
            ∙ get_elem?-set_self (set (set (set xs 5 j) 4 v) 7 core) 8 skin
                (omega (arith, full4, n));
      }

  -- After the loop over the points of a run the vector shows the last of them.
  pace-Shows :
      (js : List F) (ps : List (Point F)) (core skin : F) (xs : List F)
      → length js ≡ length ps
      → length xs ≡ vector_length
      → last np fluids (map (λ p. p.t_core) ps) ≡ some core
      → last np fluids (map (λ p. p.t_skin) ps) ≡ some skin
      → Shows core skin (
          pace np fluids js
            (map (λ p. p.cell.v_stack) ps)
            (map (λ p. p.t_core) ps)
            (map (λ p. p.t_skin) ps)
            xs)
  unfolding pace
  pace-Shows js [] core skin xs l n ec ek = cc
  pace-Shows [] (p ∷ ps) core skin xs l n ec ek = absurd (omega (arith, l))
  pace-Shows (j ∷ []) (p ∷ []) core skin xs l n ec ek =
      let shown = show_point-Shows j p.cell.v_stack p.t_core p.t_skin xs n in
      record {
        full = shown.full;
        core_shown = shown.core_shown ∙ ec;
        skin_shown = shown.skin_shown ∙ ek;
      }
  pace-Shows (j ∷ j1 ∷ js) (p ∷ []) core skin xs l n ec ek = absurd (omega (arith, l))
  pace-Shows (j ∷ js) (p ∷ q ∷ ps) core skin xs l n ec ek =
      pace-Shows js (q ∷ ps) core skin (show_point np fluids j p.cell.v_stack p.t_core p.t_skin xs)
        (omega (arith, l)) (show_point-Shows _ _ _ _ xs n).full ec ek

  run-length :
      (c : Stack F) (h : Heat F) {core skin : F} {js : List F} {ps : List (Point F)}
      → IsRun np c h core skin js ps
      → length js ≡ length ps
  run-length c h done = refl
  run-length c h (point _ _ r) = ap suc (run-length c h r)

  -- A run with a point in it has activities in bounds.
  run-in_bounds :
      (c : Stack F) (h : Heat F) {core skin : F} {js : List F} {p : Point F} {ps : List (Point F)}
      → IsRun np c h core skin js (p ∷ ps)
      → (activity_in_bounds c.a_h2 ≡ true) × (activity_in_bounds c.a_o2 ≡ true)
  run-in_bounds c h (point {j = j} e _ _) = voltage_in_bounds np j _ c e

  last-some :
      (p : Point F) (ps : List (Point F)) (f : Point F → F)
      → (x : F) × (last np fluids (map f (p ∷ ps)) ≡ some x)
  last-some p [] f = (f p, refl)
  last-some p (q ∷ ps) f = last-some q ps f

  module _ (request : BatchTestRequest F) (s : Servicer F) where
    abbrev tested : Stack F
    tested = stack_under_test np fluids request s

    abbrev currents : List F
    currents = sweep_currents np fluids request tested.j_lim

    abbrev heat : F → Heat F
    heat t_coolant = heat_model np fluids s t_coolant

    -- Either the test ran, or it failed and changed nothing.
    abbrev pub IsDone : Servicer F × BatchTestResponse F → Type 0
    IsDone (s', r) =
        IsBench s'
        × (s'.step_counter ≡ s.step_counter)
        × (((get_elem? s'.state stack_current_a_cm2 ≡ some (lit 0 0))
              × (length r.measured_voltages ≡ length currents))
            ⊎ ((s' ≡ s) × (r ≡ failed np fluids)))

    ran :
        (t_coolant : F) (trace : Trace F) (ps : List (Point F)) (core skin : F)
        → IsBench s
        → IsRun np tested (heat t_coolant) s.thermal.t_core s.thermal.t_core currents ps
        → trace.voltages ≡ map (λ p. p.cell.v_stack) ps
        → trace.t_core_arr ≡ map (λ p. p.t_core) ps
        → trace.t_skin_arr ≡ map (λ p. p.t_skin) ps
        → last np fluids trace.t_core_arr ≡ some core
        → last np fluids trace.t_skin_arr ≡ some skin
        → IsDone (paced np fluids s currents trace core skin, respond np fluids trace)
    ran t_coolant trace ps core skin b run vs cs ks ec ek =
        let xs = pace np fluids currents trace.voltages trace.t_core_arr trace.t_skin_arr s.state in
        let shown : Shows core skin xs =
          rw (vs, cs, ks)
            (pace-Shows currents ps core skin s.state (run-length _ _ run) b.full
              (sym (ap (last np fluids) cs) ∙ ec) (sym (ap (last np fluids) ks) ∙ ek)) in
        (
          record {
            full = length-set xs 5 (lit 0 0) ∙ shown.full;
            core = get_elem?-set_other xs 5 7 (lit 0 0) (λ e. cc) ∙ shown.core_shown;
            skin = get_elem?-set_other xs 5 8 (lit 0 0) (λ e. cc) ∙ shown.skin_shown;
          },
          refl,
          inl (
            get_elem?-set_self xs 5 (lit 0 0) (omega (arith, shown.full)),
            ap (λ ys. length ys) vs
                ∙ length-map (λ p. p.cell.v_stack) ps
                ∙ sym (run-length _ _ run),
          ),
        )

    -- From a vector that shows the thermal model's temperatures, the test leads to such a vector and
    -- counts no step, on every branch. Either it ran, lists a voltage for each current, and has set the
    -- stack's current back to 0, or it failed as a whole: the servicer is as it was, the test is not
    -- passed, no voltage is listed, and the one flag is that of the solver.
    pub run_batch_test-IsDone : IsBench s → IsDone (run_batch_test np fluids request s)
    unfolding run_batch_test
    run_batch_test-IsDone b = by_coolant (read s.state chiller_temp_k)
      where
        nothing : IsDone (s, failed np fluids)
        nothing = (b, refl, inr (refl, refl))

        by_points :
            (t_coolant : F) (trace : Trace F) (ps : List (Point F)) (x y : Option F)
            → IsRun np tested (heat t_coolant) s.thermal.t_core s.thermal.t_core currents ps
            → trace.voltages ≡ map (λ p. p.cell.v_stack) ps
            → trace.t_core_arr ≡ map (λ p. p.t_core) ps
            → trace.t_skin_arr ≡ map (λ p. p.t_skin) ps
            → last np fluids trace.t_core_arr ≡ x
            → last np fluids trace.t_skin_arr ≡ y
            → IsDone (after_ends np fluids s tested currents trace x y)
        by_points t_coolant trace ps none y run vs cs ks ec ek = nothing
        by_points t_coolant trace [] (some core) y run vs cs ks ec ek =
            cc (sym ec ∙ ap (last np fluids) cs)
        by_points t_coolant trace (p ∷ ps) (some core) none run vs cs ks ec ek =
            cc (sym (last-some p ps (λ p. p.t_skin)).1 ∙ sym (ap (last np fluids) ks) ∙ ek)
        by_points t_coolant trace (p ∷ ps) (some core) (some skin) run vs cs ks ec ek =
            let (h, o) = run-in_bounds tested (heat t_coolant) run in
            rw
              (voltage_returns np (peak np fluids currents) core
                (record tested { j_lim = lit 25 1 }) h o)
              (ran t_coolant trace (p ∷ ps) core skin b run vs cs ks ec ek)

        by_sweep :
            (t_coolant : F) (q : Result (Trace F))
            → batch_polarization_sweep_thermal np currents s.thermal.t_core tested (heat t_coolant)
              ≡ q
            → IsDone (after_sweep np fluids s tested currents q)
        by_sweep t_coolant (err e) et = nothing
        by_sweep t_coolant (ok trace) et =
            let (ps, run, vs, cs, ks, _) = thermal_sweep-IsRun np tested (heat t_coolant) _ _ et in
            by_points t_coolant trace ps _ _ run vs cs ks refl refl

        by_coolant : (q : Result F) → IsDone (after_coolant np fluids request s q)
        by_coolant (err e) = nothing
        by_coolant (ok t_coolant) = by_sweep t_coolant _ refl
