-- ===== src/Kernels/Stages.antt =====
-- Compression of a mixture: `calculate_mixture_compression_jit`, `_compute_T_out_for_P_jit` and
-- `solve_temp_limited_pressure_jit`, with `calculate_mixture_density_jit`.
use matrix_factory.Prelude.{ℕ, zero, suc, List, Option, some, if◌then◌else◌}
use matrix_factory.Float.{Float, Numpy, ◌⊕◌, ◌⊖◌, ◌⊗◌, ◌⊘◌}
use matrix_factory.Grid.{◌>>=◌, get_interp_weights_jit}
use matrix_factory.Kernels.{held}
use matrix_factory.Kernels.Mixtures.{
  get_mix_cp_jit, get_mix_enthalpy_fast_jit, get_mix_density_jit, get_mix_entropy_fast_jit,
}

-- The grids and the stacked tables of enthalpy, entropy and heat capacity, with the mixture: mass
-- fractions, molar mass and the sum of the mixing entropy.
pub record MixtureTables (F : Type 0) : Type 0 where
  pub p_grid : List F
  pub t_grid : List F
  pub h_luts : List (List (List F))
  pub s_luts : List (List (List F))
  pub c_luts : List (List (List F))
  pub weights : List F
  pub m_mix_kg_mol : F
  pub sum_ylny : F

module _ {F : Type 0} ⦃fl : Float F⦄ (np : Numpy F) where
  open fl use {lit, lt, le, abs, neg, pow}

  pub calculate_mixture_density_jit :
      F → F → List F → List F → List (List (List F)) → List F → Option F
  calculate_mixture_density_jit p_pa t_k p_grid t_grid d_luts weights = do
    (ix, wx, iy, wy) ← get_interp_weights_jit np p_grid t_grid p_pa t_k
    get_mix_density_jit d_luts weights ix iy wx wy

  -- The limiter of a step: first from above, then from below.
  abbrev pub limited : F → F → F
  limited delta_max delta =
      let low = if lt delta_max delta then delta_max else delta in
      if lt low (neg delta_max) then neg delta_max else low

  -- `if abs(cp) < 1e-9: cp = 14000.0`
  abbrev pub safe_cp : F → F
  safe_cp cp = if lt (abs cp) (lit 1 9) then lit 140000 1 else cp

  -- The next temperature: the step is limited, the result held.
  abbrev pub next_temperature : F → F → F → F → F
  next_temperature delta_max t_high t delta = held (lit 1000 1) t_high (t ⊖ limited delta_max delta)

  -- The guess for an ideal gas.
  abbrev pub ideal_guess : F → F → F → F
  ideal_guess p_in p_out t_in =
      held (lit 2000 1) (lit 12000 1) (t_in ⊗ pow (p_out ⊘ p_in) (lit 286 3))

  module _ (m : MixtureTables F) where
    abbrev pub entropy_at : F → F → Option F
    entropy_at p t = do
      (ix, wx, iy, wy) ← get_interp_weights_jit np m.p_grid m.t_grid p t
      get_mix_entropy_fast_jit m.s_luts m.weights m.m_mix_kg_mol m.sum_ylny ix iy wx wy

    abbrev pub enthalpy_at : F → F → Option F
    enthalpy_at p t = do
      (ix, wx, iy, wy) ← get_interp_weights_jit np m.p_grid m.t_grid p t
      get_mix_enthalpy_fast_jit m.h_luts m.weights ix iy wx wy

    abbrev pub cp_at : F → F → Option F
    cp_at p t = do
      (ix, wx, iy, wy) ← get_interp_weights_jit np m.p_grid m.t_grid p t
      get_mix_cp_jit m.c_luts m.weights ix iy wx wy

    -- Newton's steps to the temperature at which the entropy is `s_in`.
    unfoldable pub isentropic_loop : F → F → F → F → F → ℕ → F → Option F
    isentropic_loop tol delta_max t_high s_in p_out zero t = some t
    isentropic_loop tol delta_max t_high s_in p_out (suc n) t = do
      s_guess ← entropy_at p_out t
      let diff = s_guess ⊖ s_in
      if lt (abs diff) tol then some t else (do
        cp_mix ← cp_at p_out t
        isentropic_loop tol delta_max t_high s_in p_out n
            (next_temperature delta_max t_high t (diff ⊘ (safe_cp cp_mix ⊘ t))))

    -- Newton's steps to the temperature at which the enthalpy is `h_out`.
    unfoldable pub actual_loop : F → F → ℕ → F → Option F
    actual_loop h_out p_out zero t = some t
    actual_loop h_out p_out (suc n) t = do
      h_val ← enthalpy_at p_out t
      cp_val ← cp_at p_out t
      let diff = h_val ⊖ h_out
      if lt (abs diff) (lit 10 1)
          then some t
          else actual_loop h_out p_out n
              (next_temperature (lit 500 1) (lit 20000 1) t (diff ⊘ safe_cp cp_val))

    -- Those of the estimate, which reads the heat capacity only for a step.
    unfoldable pub estimate_loop : F → F → ℕ → F → Option F
    estimate_loop h_out p_out zero t = some t
    estimate_loop h_out p_out (suc n) t = do
      h_val ← enthalpy_at p_out t
      let diff = h_val ⊖ h_out
      if lt (abs diff) (lit 100 1) then some t else (do
        cp_val ← cp_at p_out t
        estimate_loop h_out p_out n
            (next_temperature (lit 300 1) (lit 20000 1) t (diff ⊘ safe_cp cp_val)))

    -- The work, the outlet temperature and the outlet enthalpy.
    unfoldable pub calculate_mixture_compression_jit : F → F → F → F → Option (F × F × F)
    unfolding isentropic_loop actual_loop
    calculate_mixture_compression_jit p_in p_out t_in efficiency = do
      s_in ← entropy_at p_in t_in
      h_in ← enthalpy_at p_in t_in
      t_isen ←
          isentropic_loop (lit 1 4) (lit 500 1) (lit 20000 1) s_in p_out 8
            (ideal_guess p_in p_out t_in)
      h_out_isen ← enthalpy_at p_out t_isen
      let w_actual = (h_out_isen ⊖ h_in) ⊘ efficiency
      t_act ← actual_loop (h_in ⊕ w_actual) p_out 8 t_isen
      some (w_actual, t_act, h_in ⊕ w_actual)

    unfoldable pub compute_t_out_for_p_jit : F → F → F → F → Option F
    unfolding isentropic_loop estimate_loop
    compute_t_out_for_p_jit p_in p_out t_in efficiency = do
      s_in ← entropy_at p_in t_in
      h_in ← enthalpy_at p_in t_in
      t_isen ←
          isentropic_loop (lit 1 3) (lit 300 1) (lit 15000 1) s_in p_out 6
            (ideal_guess p_in p_out t_in)
      h_out_isen ← enthalpy_at p_out t_isen
      estimate_loop (h_in ⊕ (h_out_isen ⊖ h_in) ⊘ efficiency) p_out 6 t_isen

    module _ (p_in t_in t_max efficiency : F) where
      -- The bisection, with `n` rounds left.
      unfoldable pub pressure_loop : ℕ → F → F → Option F
      unfolding compute_t_out_for_p_jit
      pressure_loop zero p_low p_high = some p_low
      pressure_loop (suc n) p_low p_high = do
        let p_mid = (p_low ⊕ p_high) ⊗ lit 5 1
        t_mid ← compute_t_out_for_p_jit p_in p_mid t_in efficiency
        let low = if le t_mid t_max then p_mid else p_low
        let high = if le t_mid t_max then p_high else p_mid
        if lt (abs (high ⊖ low) ⊘ low) (lit 1 3) then some low else pressure_loop n low high

      -- The pressure, the outlet temperature and the work.
      unfoldable pub solve_temp_limited_pressure_jit : F → Option (F × F × F)
      unfolding compute_t_out_for_p_jit calculate_mixture_compression_jit pressure_loop
      solve_temp_limited_pressure_jit p_max = do
        t_at_max ← compute_t_out_for_p_jit p_in p_max t_in efficiency
        p_out ← if le t_at_max t_max then some p_max else pressure_loop 25 p_in p_max
        (w_act, t_out, h_out) ← calculate_mixture_compression_jit p_in p_out t_in efficiency
        some (p_out, t_out, w_act)
