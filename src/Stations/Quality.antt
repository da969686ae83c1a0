-- ===== src/Stations/Quality.antt =====
-- What the stations' results say of the part that leaves them.
use matrix_factory.Prelude.{
  ◌≡◌, subst, ℕ, zero, suc, Bool, false, List, arith, or_raise, >>=-eq-ok, ok, value_error,
  ok-injective, guard-eq-ok, or-eq-false,
}
use matrix_factory.Prelude.Int.{ℤ, pos, negsuc}
use matrix_factory.Float.{Float, Numpy, IsNum, Le, IsOrdered, IsNum-lit, clamp_num, clamp_num'}
use matrix_factory.Stations.{
  Mea, Deposition, Stamping, Clamping, cure_step, cure_loop, integrate_kamal_sourour,
  simulate_stage1_mea_prep, simulate_stage1_mea_prep_safe, simulate_stage2_catalyst_deposition,
  simulate_stage2_catalyst_deposition_safe, damage_of, simulate_stage1_stamping,
  simulate_stage1_stamping_safe,
}
use matrix_factory.Stations.Bolts.{
  four_bolts, simulate_stage2_clamping, simulate_stage2_clamping_safe,
}

module _ {F : Type 0} ⦃fl : Float F⦄ where
  -- Between two literals.
  abbrev pub Within : F → F → F → Type 0
  Within lo hi x = Le lo x × Le x hi

module _ {F : Type 0} ⦃fl : Float F⦄ (np : Numpy F) (laws : IsOrdered F) where
  open fl use {lit}
  open laws use {lit_le, le_of_not_lt}

  abbrev IsCure : F → Type 0
  IsCure a = IsNum a → Within (lit 0 0) (lit 9999 4) a

  cure_loop-IsCure : (k1 k2 dt : F) (n : ℕ) (a : F) → IsCure a → IsCure (cure_loop np k1 k2 dt n a)
  unfolding cure_loop cure_step
  cure_loop-IsCure k1 k2 dt zero a h = h
  cure_loop-IsCure k1 k2 dt (suc n) a h =
      cure_loop-IsCure k1 k2 dt n _
        (clamp_num laws (lit 0 0) (lit 9999 4) _ (lit_le 0 0 9999 4 (omega arith)))

  -- The degree of cure that the integration gives, if it is a number, is within [0, 0.9999], whatever
  -- the temperature, the dwell time and the number of steps.
  pub integrate-IsCure :
      (t_press_k dwell_time_s : F) (n_steps : ℕ)
      → IsNum (integrate_kamal_sourour np t_press_k dwell_time_s n_steps)
      → Within (lit 0 0) (lit 9999 4) (integrate_kamal_sourour np t_press_k dwell_time_s n_steps)
  unfolding integrate_kamal_sourour
  integrate-IsCure t_press_k dwell_time_s n_steps =
      cure_loop-IsCure _ _ _ n_steps (lit 0 0) (λ n. (n, lit_le 0 0 9999 4 (omega arith)))

  -- A part that station 1 passes as not defective, with a number for its degree of cure, is cured
  -- from 0.85 to 0.98.
  pub mea_bonded :
      (t_press_k dwell_time_s k_time : F) (r : Mea F)
      → simulate_stage1_mea_prep_safe np t_press_k dwell_time_s k_time ≡ ok r
      → r.is_defective ≡ false
      → IsNum r.alpha_final
      → Within (lit 85 2) (lit 98 2) r.alpha_final
  unfolding simulate_stage1_mea_prep_safe simulate_stage1_mea_prep
  mea_bonded t_press_k dwell_time_s k_time r e =
      let (_, e1) = guard-eq-ok _ value_error _ e in
      let (_, e2) = guard-eq-ok _ value_error _ e1 in
      subst
        (λ (r : Mea F).
          r.is_defective ≡ false → IsNum r.alpha_final → Within (lit 85 2) (lit 98 2) r.alpha_final)
        (ok-injective e2)
        (λ good num. (
          le_of_not_lt _ _ num (IsNum-lit laws 85 2) (or-eq-false good).0,
          le_of_not_lt _ _ (IsNum-lit laws 98 2) num (or-eq-false good).1,
        ))

  -- Station 2 reports an active area ratio within [0.10, 1.00], and at least 0.70 for a part that it
  -- passes, if the ratio is a number.
  pub deposition_active :
      (v_coat_m_s mu_slurry_pa_s k_time : F) (r : Deposition F)
      → simulate_stage2_catalyst_deposition_safe np v_coat_m_s mu_slurry_pa_s k_time ≡ ok r
      → IsNum r.ecsa_ratio
      → Within (lit 10 2) (lit 100 2) r.ecsa_ratio
        × (r.is_defective ≡ false → Le (lit 70 2) r.ecsa_ratio)
  unfolding simulate_stage2_catalyst_deposition_safe simulate_stage2_catalyst_deposition
  deposition_active v_coat_m_s mu_slurry_pa_s k_time r e =
      let (_, e1) = guard-eq-ok _ value_error _ e in
      let (_, e2) = guard-eq-ok _ value_error _ e1 in
      subst
        (λ (r : Deposition F).
          IsNum r.ecsa_ratio
          → Within (lit 10 2) (lit 100 2) r.ecsa_ratio
            × (r.is_defective ≡ false → Le (lit 70 2) r.ecsa_ratio))
        (ok-injective e2)
        (λ num. (
          clamp_num laws (lit 10 2) (lit 100 2) _ (lit_le 10 2 100 2 (omega arith)) num,
          λ good. le_of_not_lt _ _ num (IsNum-lit laws 70 2) (or-eq-false good).0,
        ))

  -- Station 3 reports a damage index within [0, 2], and at most 1 for a plate that it passes, if the
  -- index is a number.
  pub stamping_undamaged :
      (press_force_kn : F) (die_stroke_count : ℤ) (w0 : F) (duplex : Bool) (k_time : F)
      (r : Stamping F)
      → simulate_stage1_stamping_safe np press_force_kn die_stroke_count w0 duplex k_time ≡ ok r
      → IsNum r.damage_index
      → Within (lit 0 0) (lit 2 0) r.damage_index
        × (r.is_defective ≡ false → Le r.damage_index (lit 1 0))
  unfolding simulate_stage1_stamping_safe simulate_stage1_stamping damage_of
  stamping_undamaged press_force_kn (negsuc n) w0 duplex k_time r e = cc
  stamping_undamaged press_force_kn (pos n) w0 duplex k_time r e =
      let (_, e1) = guard-eq-ok _ value_error _ e in
      let (_, e2) = guard-eq-ok _ value_error _ e1 in
      subst
        (λ (r : Stamping F).
          IsNum r.damage_index
          → Within (lit 0 0) (lit 2 0) r.damage_index
            × (r.is_defective ≡ false → Le r.damage_index (lit 1 0)))
        (ok-injective e2)
        (λ num. (
          clamp_num' laws (lit 0 0) (lit 2 0) _ (lit_le 0 0 2 0 (omega arith)) num,
          λ good. le_of_not_lt _ _ (IsNum-lit laws 1 0) num (or-eq-false good).0,
        ))

  -- A stack that station 4 passes, with a number for its clamping pressure, is clamped with 3.0 to
  -- 5.5 MPa.
  pub clamping_in_window :
      (torques frictions : List F) (is_station_4 : Bool) (k_time : F) (r : Clamping F)
      → simulate_stage2_clamping_safe np torques frictions is_station_4 k_time ≡ ok r
      → r.is_defective ≡ false
      → IsNum r.p_clamp_mpa
      → Within (lit 3 0) (lit 55 1) r.p_clamp_mpa
  unfolding simulate_stage2_clamping_safe simulate_stage2_clamping
  clamping_in_window torques frictions is_station_4 k_time r e =
      let (_, _, e1) = >>=-eq-ok (or_raise (four_bolts np torques frictions) value_error) _ e in
      let (_, e2) = guard-eq-ok _ value_error _ e1 in
      subst
        (λ (r : Clamping F).
          r.is_defective ≡ false → IsNum r.p_clamp_mpa → Within (lit 3 0) (lit 55 1) r.p_clamp_mpa)
        (ok-injective e2)
        (λ good num. (
          le_of_not_lt _ _ num (IsNum-lit laws 3 0) (or-eq-false (or-eq-false good).0).0,
          le_of_not_lt _ _ (IsNum-lit laws 55 1) num (or-eq-false (or-eq-false good).0).1,
        ))
