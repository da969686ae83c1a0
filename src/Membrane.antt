-- ===== src/Membrane.antt =====
-- physical_engine/factory_simulation/membrane_hydration.py: the water content λ of the membrane and
-- its resistance.
pub mod Range
use matrix_factory.Prelude.{if◌then◌else◌}
use matrix_factory.Float.{Float, Numpy, ◌⊕◌, ◌⊖◌, ◌⊗◌, ◌⊘◌}

module _ {F : Type 0} ⦃fl : Float F⦄ (np : Numpy F) where
  open fl use {lit, lt, le, pow, min, max}

  unfoldable pub springer_membrane_conductivity : F → F → F
  springer_membrane_conductivity lambda_val t_k =
      let lambda_clamped = max (lit 1 0) (min (lit 14 0) lambda_val) in
      let t_safe = max (lit 250 0) (min (lit 420 0) t_k) in
      let sigma_303 = max (lit 1 4) (lit 5139 6 ⊗ lambda_clamped ⊖ lit 326 5) in
      let temp_scaling = np.exp (lit 1268 0 ⊗ (lit 1 0 ⊘ lit 30315 2 ⊖ lit 1 0 ⊘ t_safe)) in
      sigma_303 ⊗ temp_scaling

  unfoldable pub equilibrium_water_content : F → F
  equilibrium_water_content a_water =
      let a_safe = max (lit 0 0) (min (lit 3 0) a_water) in
      let lam =
        if le a_safe (lit 1 0)
        then lit 43 3
          ⊕ lit 1781 2 ⊗ a_safe
          ⊖ lit 3985 2 ⊗ pow a_safe (lit 2 0)
          ⊕ lit 36 0 ⊗ pow a_safe (lit 3 0)
        else lit 14 0 ⊕ lit 14 1 ⊗ (a_safe ⊖ lit 1 0) in
      max (lit 1 0) (min (lit 14 0) lam)

  abbrev pub tau_sorption_s : F
  tau_sorption_s = lit 12 0

  abbrev pub tau_desorption_s : F
  tau_desorption_s = lit 45 0

  unfoldable pub step_membrane_hydration : F → F → F → F
  unfolding equilibrium_water_content
  step_membrane_hydration lambda_current activity_water dt =
      let lambda_eq = equilibrium_water_content activity_water in
      let tau = if lt lambda_current lambda_eq then tau_sorption_s else tau_desorption_s in
      let dlambda_dt = (lambda_eq ⊖ lambda_current) ⊘ tau in
      min (lit 14 0) (max (lit 1 0) (lambda_current ⊕ dt ⊗ dlambda_dt))

  unfoldable pub compute_membrane_resistance : F → F → F → F
  unfolding springer_membrane_conductivity
  compute_membrane_resistance lambda_val t_k delta_mem_cm =
      delta_mem_cm ⊘ springer_membrane_conductivity lambda_val t_k
