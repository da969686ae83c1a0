-- ===== src/Server/Process.antt =====
-- `SimulateStationProcess`: the four stations behind one call.
use matrix_factory.Prelude.{
  ◌≡◌, subst, ℕ, Bool, true, false, List, Option, none, some, length, replicate, if◌then◌else◌,
  ◌==◌, Result, ok, err, ◌>>=◌, >>=-eq-ok, ok-injective, invalid_argument, value_error,
}
use matrix_factory.Prelude.Int.{ℤ, pos}
use matrix_factory.Float.{Float, Numpy, IsNum, IsOrdered}
use matrix_factory.Stations.{
  Mea, Deposition, Stamping, Clamping, t_press_nominal_k, dwell_time_nominal_s, f_nom_s3,
  simulate_stage1_mea_prep_safe, simulate_stage2_catalyst_deposition_safe,
  simulate_stage1_stamping_safe,
}
use matrix_factory.Stations.Bolts.{simulate_stage2_clamping_safe}
use matrix_factory.Stations.Quality.{
  Within, mea_bonded, deposition_active, stamping_undamaged, clamping_in_window,
}

-- `station_id`, of which the code tells four.
pub data StationId : Type 0 where
  s1 s2 s3 s4 other : StationId

-- The `oneof params` of a request. A field that the message need not carry is an option.
pub data Params (F : Type 0) : Type 0 where
  no_params : Params F
  station1 : (t_press_k dwell_time_s : Option F) → Params F
  station2 : (v_coat_m_s mu_slurry_pa_s : Option F) → Params F
  station3 :
      (press_force_kn : Option F) (die_stroke_count : Option ℤ) (w0_initial_wear : Option F)
      (use_duplex_coating : Option Bool)
      → Params F
  station4 : (applied_torques_nm friction_coefficients : List F) → Params F

pub data StationProcessResponse (F : Type 0) : Type 0 where
  prepared : Mea F → StationProcessResponse F
  coated : Deposition F → StationProcessResponse F
  stamped : Stamping F → StationProcessResponse F
  clamped : Clamping F → StationProcessResponse F

abbrev pub or_default {ℓ} : {A : Type ℓ} → Option A → A → A
or_default none default = default
or_default (some a) default = a

module _ {F : Type 0} ⦃fl : Float F⦄ (np : Numpy F) where
  open fl use {lit, eq}

  -- `request.k_time or 1.0`
  abbrev pub time_scale : F → F
  time_scale k_time = if eq k_time (lit 0 0) then lit 1 0 else k_time

  -- `list(xs) if len(xs) == n else [default] * n`
  abbrev pub exactly : ℕ → F → List F → List F
  exactly n default xs = if length xs == n then xs else replicate n default

  -- With a gRPC context a combination that is not served aborts the call; without one it raises.
  unfoldable pub simulate_station_process :
      Bool → StationId → Params F → F → Result (StationProcessResponse F)
  simulate_station_process has_context s1 (station1 t_press dwell) k_time = do
    r ←
        simulate_stage1_mea_prep_safe np (or_default t_press (t_press_nominal_k np))
          (or_default dwell (dwell_time_nominal_s np)) (time_scale k_time)
    ok (prepared r)
  simulate_station_process has_context s2 (station2 v_coat mu_slurry) k_time = do
    r ←
        simulate_stage2_catalyst_deposition_safe np (or_default v_coat (lit 15 2))
          (or_default mu_slurry (lit 50 3)) (time_scale k_time)
    ok (coated r)
  simulate_station_process has_context s3 (station3 press_force strokes w0 duplex) k_time = do
    r ←
        simulate_stage1_stamping_safe np (or_default press_force (f_nom_s3 np))
          (or_default strokes (pos 0)) (or_default w0 (lit 0 0)) (or_default duplex false)
          (time_scale k_time)
    ok (stamped r)
  simulate_station_process has_context s4 (station4 torques frictions) k_time = do
    r ←
        simulate_stage2_clamping_safe np (exactly 4 (lit 46 0) torques)
          (exactly 8 (lit 15 2) frictions) true (time_scale k_time)
    ok (clamped r)
  simulate_station_process has_context _ _ k_time =
      err (if has_context then invalid_argument else value_error)

  -- The verdict of a response, and the indicator that it rests on.
  abbrev pub defective : StationProcessResponse F → Bool
  defective (prepared r) = r.is_defective
  defective (coated r) = r.is_defective
  defective (stamped r) = r.is_defective
  defective (clamped r) = r.is_defective

  abbrev pub indicator : StationProcessResponse F → F
  indicator (prepared r) = r.alpha_final
  indicator (coated r) = r.ecsa_ratio
  indicator (stamped r) = r.damage_index
  indicator (clamped r) = r.p_clamp_mpa

  -- The window of the indicator: degree of cure, active area ratio, damage index, pressure in MPa.
  abbrev pub IsGood : StationProcessResponse F → Type 0
  IsGood (prepared r) = Within (lit 85 2) (lit 98 2) r.alpha_final
  IsGood (coated r) = Within (lit 70 2) (lit 100 2) r.ecsa_ratio
  IsGood (stamped r) = Within (lit 0 0) (lit 1 0) r.damage_index
  IsGood (clamped r) = Within (lit 3 0) (lit 55 1) r.p_clamp_mpa

  module _ (laws : IsOrdered F) where
    -- A part that the call does not report as defective has its indicator, if that is a number, in its
    -- station's window, whatever the request.
    pub process_passes-IsGood :
        (has_context : Bool) (station : StationId) (params : Params F) (k_time : F)
        (r : StationProcessResponse F)
        → simulate_station_process has_context station params k_time ≡ ok r
        → defective r ≡ false
        → IsNum (indicator r)
        → IsGood r
    unfolding simulate_station_process
    process_passes-IsGood b s1 (station1 t d) k r e =
        let (x, ex, same) = >>=-eq-ok (simulate_stage1_mea_prep_safe np _ _ _) _ e in
        subst (λ r. defective r ≡ false → IsNum (indicator r) → IsGood r) (ok-injective same)
          (mea_bonded np laws _ _ _ x ex)
    process_passes-IsGood b s2 (station2 v m) k r e =
        let (x, ex, same) = >>=-eq-ok (simulate_stage2_catalyst_deposition_safe np _ _ _) _ e in
        subst (λ r. defective r ≡ false → IsNum (indicator r) → IsGood r) (ok-injective same)
          (λ good num.
            let (range, window) = deposition_active np laws _ _ _ x ex num in
            (window good, range.1))
    process_passes-IsGood b s3 (station3 p n w d) k r e =
        let (x, ex, same) = >>=-eq-ok (simulate_stage1_stamping_safe np _ _ _ _ _) _ e in
        subst (λ r. defective r ≡ false → IsNum (indicator r) → IsGood r) (ok-injective same)
          (λ good num.
            let (range, window) = stamping_undamaged np laws _ _ _ _ _ x ex num in
            (range.0, window good))
    process_passes-IsGood b s4 (station4 ts fs) k r e =
        let (x, ex, same) = >>=-eq-ok (simulate_stage2_clamping_safe np _ _ _ _) _ e in
        subst (λ r. defective r ≡ false → IsNum (indicator r) → IsGood r) (ok-injective same)
          (clamping_in_window np laws _ _ _ _ x ex)
    process_passes-IsGood b _ _ k r e = cc
