-- ===== src/Deoxo/Multizone.antt =====
-- `solve_deoxo_multizone_jit`, the bed in zones.
use matrix_factory.Prelude.{
  ℕ, zero, suc, Bool, ◌+◌, ◌*◌, ◌&&◌, ◌||◌, ◌==◌, List, [], ◌∷◌, ◌++◌, not, Result, ok, err,
  index_error, zero_division, ◌>>=◌, length, ltb, if◌then◌else◌,
}
use matrix_factory.Float.{Float, Numpy, ◌⊕◌, ◌⊖◌, ◌⊗◌, ◌⊘◌}
use matrix_factory.Deoxo.{BedPoint, Reactor, Run, get_grads, combined}

-- An entry of the arrays of the zones.
pub record Zone (F : Type 0) : Type 0 where
  pub l_zone : F
  pub k0 : F
  pub u_a : F

-- The state of the loop over the zones.
pub record Walk (F : Type 0) : Type 0 where
  pub offset : F
  pub t_curr : F
  pub y_o2_curr : F
  pub t_max_global : F
  pub x_global : F
  pub profile : List (BedPoint F)

-- The state of the loop within a zone.
pub record Local (F : Type 0) : Type 0 where
  pub x_local : F
  pub t_local : F
  pub l_local : F
  pub t_max : F
  pub history : List (BedPoint F)

-- A write behind the end of the arrays, which compiled code does not check, is an `index_error`.
abbrev pub record_point :
    {F : Type 0} → ℕ → List (BedPoint F) → BedPoint F → Result (List (BedPoint F))
record_point capacity profile p =
    if ltb (length profile) capacity then ok (profile ++ (p ∷ [])) else err index_error

-- `1.0 - (1.0 - X_global) * (1.0 - X_local)`
abbrev pub joined : {F : Type 0} ⦃fl : Float F⦄ → F → F → F
joined ⦃fl⦄ x_global x_local = fl.lit 1 0 ⊖ (fl.lit 1 0 ⊖ x_global) ⊗ (fl.lit 1 0 ⊖ x_local)

module _ {F : Type 0} ⦃fl : Float F⦄ (np : Numpy F) (b : Reactor F) where
  open fl use {lit, lt, le, eq, neg, abs, min, max}
  open b use {p_in_pa, molar_flow_total, ea, r_gas, delta_h, t_jacket, area, cp_mix}

  -- Whether a division of the gradients is by zero.
  abbrev pub divides_by_zero : F → F → F → Bool
  divides_by_zero f_o2 x t =
      eq (molar_flow_total ⊗ cp_mix) (lit 0 0)
      || (not (le (lit 1 0) x) && (eq (r_gas ⊗ t) (lit 0 0) || eq f_o2 (lit 0 0)))

  abbrev pub checked_grads : F → F → F → F → F → F → Result (F × F)
  checked_grads k0 u_a y_o2 f_o2 x t =
      if divides_by_zero f_o2 x t
      then err zero_division
      else ok (get_grads np b k0 u_a y_o2 f_o2 x t)

  -- `X_next` and `T_next`
  abbrev pub checked_rk4 : (F → F → Result (F × F)) → F → F → F → Result (F × F)
  checked_rk4 grads dl x t = do
    (x1, t1) ← grads x t
    (x2, t2) ← grads (x ⊕ lit 5 1 ⊗ dl ⊗ x1) (t ⊕ lit 5 1 ⊗ dl ⊗ t1)
    (x3, t3) ← grads (x ⊕ lit 5 1 ⊗ dl ⊗ x2) (t ⊕ lit 5 1 ⊗ dl ⊗ t2)
    (x4, t4) ← grads (x ⊕ dl ⊗ x3) (t ⊕ dl ⊗ t3)
    ok (combined np b dl x x1 x2 x3 x4, combined np b dl t t1 t2 t3 t4)

  module _ (max_steps_per_zone capacity : ℕ) where
    -- The temperature behind a zone that only cools.
    abbrev pub relaxed : Zone F → F → F
    relaxed z t =
        let flow_cp = molar_flow_total ⊗ cp_mix in
        if lt (lit 0 0) z.u_a && lt (lit 0 0) flow_cp
        then t_jacket ⊕ (t ⊖ t_jacket) ⊗ np.exp (neg (z.u_a ⊗ area ⊗ z.l_zone ⊘ flow_cp))
        else t

    -- A zone without oxygen: the peak is not updated.
    unfoldable pub inert_zone : Zone F → Walk F → Result (Walk F)
    inert_zone z w = do
      profile ← record_point capacity w.profile (record {
        length_m = w.offset ⊕ z.l_zone;
        temperature = relaxed z w.t_curr;
        conversion = w.x_global;
      })
      ok (record w { offset = w.offset ⊕ z.l_zone; t_curr = relaxed z w.t_curr; profile = profile })

    -- What follows the gradients in a step.
    abbrev pub record_step : Zone F → Walk F → Local F → F × F → Result (Local F)
    record_step z w s (x_next, t_next) = do
      let dl = z.l_zone ⊘ lit max_steps_per_zone 0
      let x = min (lit 1 0) (max (lit 0 0) x_next)
      profile ← record_point capacity s.history (record {
        length_m = w.offset ⊕ (s.l_local ⊕ dl);
        temperature = t_next;
        conversion = joined w.x_global x;
      })
      ok (record {
        x_local = x;
        t_local = t_next;
        l_local = s.l_local ⊕ dl;
        t_max = if lt s.t_max t_next then t_next else s.t_max;
        history = profile;
      })

    abbrev pub zone_step : Zone F → Walk F → F → Local F → Result (Local F)
    zone_step z w f_o2 s = do
      let dl = z.l_zone ⊘ lit max_steps_per_zone 0
      next ← checked_rk4 (checked_grads z.k0 z.u_a w.y_o2_curr f_o2) dl s.x_local s.t_local
      record_step z w s next

    unfoldable pub zone_loop : Zone F → Walk F → F → ℕ → Local F → Result (Local F)
    zone_loop z w f_o2 zero s = ok s
    zone_loop z w f_o2 (suc n) s = do s' ← zone_step z w f_o2 s; zone_loop z w f_o2 n s'

    -- A zone divided into no steps divides by zero.
    unfoldable pub reacting_zone : Zone F → Walk F → F → Result (Walk F)
    unfolding zone_loop
    reacting_zone z w f_o2 = do
      steps ← if max_steps_per_zone == 0 then err zero_division else ok max_steps_per_zone
      s ← zone_loop z w f_o2 steps (record {
        x_local = lit 0 0;
        t_local = w.t_curr;
        l_local = lit 0 0;
        t_max = w.t_max_global;
        history = w.profile;
      })
      ok (record {
        offset = w.offset ⊕ z.l_zone;
        t_curr = s.t_local;
        y_o2_curr = w.y_o2_curr ⊗ (lit 1 0 ⊖ s.x_local);
        t_max_global = s.t_max;
        x_global = joined w.x_global s.x_local;
        profile = s.history;
      })

    -- A zone of hardly any length is passed over.
    unfoldable pub walk_zone : Zone F → Walk F → Result (Walk F)
    unfolding reacting_zone inert_zone
    walk_zone z w =
        let f_o2 = molar_flow_total ⊗ w.y_o2_curr in
        if le z.l_zone (lit 1 6)
        then ok w
        else if le f_o2 (lit 1 12)
        then inert_zone z w
        else reacting_zone z w f_o2

    unfoldable pub walk_zones : List (Zone F) → Walk F → Result (Walk F)
    unfolding walk_zone
    walk_zones [] w = ok w
    walk_zones (z ∷ zs) w = do w' ← walk_zone z w; walk_zones zs w'

  -- The arrays have `num_zones * (max_steps_per_zone + 1) + 1` entries.
  unfoldable pub solve_deoxo_multizone_jit : List (Zone F) → F → F → ℕ → Result (Run F)
  unfolding walk_zones
  solve_deoxo_multizone_jit zones t_in y_o2_in max_steps_per_zone = do
    w ← walk_zones max_steps_per_zone (length zones * (max_steps_per_zone + 1) + 1) zones (record {
      offset = lit 0 0;
      t_curr = t_in;
      y_o2_curr = y_o2_in;
      t_max_global = t_in;
      x_global = lit 0 0;
      profile = record { length_m = lit 0 0; temperature = t_in; conversion = lit 0 0 } ∷ [];
    })
    ok (record {
      x_total = w.x_global;
      t_out = w.t_curr;
      t_peak = w.t_max_global;
      profile = w.profile;
    })
