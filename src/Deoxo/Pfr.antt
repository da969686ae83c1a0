-- ===== src/Deoxo/Pfr.antt =====
-- `solve_deoxo_pfr_step`, the bed in adaptive steps.
use matrix_factory.Prelude.{
  ℕ, zero, suc, Bool, ◌&&◌, List, [], ◌∷◌, ◌++◌, length, ltb, if◌then◌else◌,
}
use matrix_factory.Float.{Float, Numpy, ◌⊕◌, ◌⊖◌, ◌⊗◌, ◌⊘◌}
use matrix_factory.Deoxo.{BedPoint, Reactor, Run, cooling, get_grads, rk4}

-- The history takes `max_iter` entries, and later ones are not recorded.
abbrev pub recorded : {F : Type 0} → ℕ → List (BedPoint F) → BedPoint F → List (BedPoint F)
recorded max_iter profile p = if ltb (length profile) max_iter then profile ++ (p ∷ []) else profile

module _ {F : Type 0} ⦃fl : Float F⦄ (np : Numpy F) (b : Reactor F) where
  open fl use {lit, lt, le, neg, abs, min, max}
  open b use {p_in_pa, molar_flow_total, ea, r_gas, delta_h, t_jacket, area, cp_mix}

  -- `max_iter` is 10000 in the source.
  module _ (k0 u_a y_o2_in y_o2_target l_total : F) (max_iter : ℕ) where
    abbrev pub is_on_target : F → Bool
    is_on_target x = lt (lit 0 0) y_o2_target && le (y_o2_in ⊗ (lit 1 0 ⊖ x)) y_o2_target

    -- The length of the adaptive step.
    abbrev pub adapted : F → F → F → F
    adapted dx dt l_curr =
        let wanted = if lt (lit 1 9) dx then lit 5 3 ⊘ dx else l_total ⊗ lit 1 1 in
        let cautious = if lt (lit 1 9) (abs dt) then min wanted (lit 50 1 ⊘ abs dt) else wanted in
        max (min cautious (l_total ⊖ l_curr)) (lit 1 6)

    -- A step with the rate at 0: the peak is not updated.
    unfoldable pub cooled_step : F → Run F → F × Run F
    cooled_step l_curr run =
        let dt = if lt (lit 0 0) u_a then cooling np b u_a run.t_out else lit 0 0 in
        let dl = min (l_total ⊖ l_curr) (l_total ⊘ lit 1000 1) in
        let t = run.t_out ⊕ dt ⊗ dl in
        (
          l_curr ⊕ dl,
          record run {
            t_out = t;
            profile =
                recorded max_iter run.profile
                  (record { length_m = l_curr ⊕ dl; temperature = t; conversion = run.x_total });
          },
        )

    unfoldable pub reacting_step : F → F → Run F → F × Run F
    reacting_step f_o2_in l_curr run =
        let grads = get_grads np b k0 u_a y_o2_in f_o2_in in
        let (dx, dt) = grads run.x_total run.t_out in
        let dl = adapted dx dt l_curr in
        let (x_next, t) = rk4 np b grads dl run.x_total run.t_out in
        let x = min (lit 1 0) x_next in
        (
          l_curr ⊕ dl,
          record {
            x_total = x;
            t_out = t;
            t_peak = if lt run.t_peak t then t else run.t_peak;
            profile =
                recorded max_iter run.profile
                  (record { length_m = l_curr ⊕ dl; temperature = t; conversion = x });
          },
        )

    unfoldable pub pfr_loop : F → ℕ → F → Run F → Run F
    unfolding cooled_step reacting_step
    pfr_loop f_o2_in zero l_curr run = run
    pfr_loop f_o2_in (suc n) l_curr run =
        let (l_next, next) =
          if is_on_target run.x_total
          then cooled_step l_curr run
          else reacting_step f_o2_in l_curr run in
        let rest = pfr_loop f_o2_in n l_next next in if le l_total l_curr then run else rest

    unfoldable pub solve_deoxo_pfr_step : F → Run F
    unfolding pfr_loop
    solve_deoxo_pfr_step t_in =
        let start : Run F = record {
          x_total = lit 0 0;
          t_out = t_in;
          t_peak = t_in;
          profile = record { length_m = lit 0 0; temperature = t_in; conversion = lit 0 0 } ∷ [];
        } in
        let f_o2_in = molar_flow_total ⊗ y_o2_in in
        if le f_o2_in (lit 1 12) then start else pfr_loop f_o2_in max_iter (lit 0 0) start
