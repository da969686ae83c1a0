-- ===== src/Thermal/Euler.antt =====
-- Two integrators of the same equations: `_thermal_step_jit`, which the sweep calls, and
-- `StackThermalModel.step`, which `AdvanceTime` calls.
use matrix_factory.Prelude.{◌≡◌, ap, ap₂, ◌∙◌, if◌then◌else◌, ok, err, value_error}
use matrix_factory.Float.{Float, ◌⊕◌, ◌⊖◌, ◌⊗◌, ◌⊘◌, IsRounded}
use matrix_factory.Pemfc.{dt_max, thermal_step}
use matrix_factory.Thermal.{StackThermalModel, new_core, new_skin, step}

module _ {F : Type 0} ⦃fl : Float F⦄ (rounded : IsRounded F) where
  open rounded use {mul_comm}

  -- On the temperatures, capacities and conductances of a thermal model, `_thermal_step_jit` either
  -- raises, if the step is not below the stability bound, or computes to the last bit the two
  -- temperatures that the model's own step stores.
  pub thermal_step-step :
      (m : StackThermalModel F) (dt q_gen t_coolant : F)
      → thermal_step m.t_core m.t_skin dt q_gen t_coolant m.c_core m.c_skin m.h_a_internal
          m.h_a_external
        ≡ (if fl.le (dt_max m.c_core m.c_skin m.h_a_internal m.h_a_external) dt
            then err value_error
            else ok ((step dt q_gen t_coolant m).0.t_core, (step dt q_gen t_coolant m).0.t_skin))
  unfolding thermal_step step
  thermal_step-step m dt q_gen t_coolant =
      ap₂
        (λ core skin.
          if fl.le (dt_max m.c_core m.c_skin m.h_a_internal m.h_a_external) dt
          then err value_error
          else ok (core, skin))
        core skin
    where
      q_int : (m.t_core ⊖ m.t_skin) ⊗ m.h_a_internal ≡ m.h_a_internal ⊗ (m.t_core ⊖ m.t_skin)
      q_int = mul_comm _ _

      core :
          m.t_core ⊕ (q_gen ⊖ (m.t_core ⊖ m.t_skin) ⊗ m.h_a_internal) ⊘ m.c_core ⊗ dt
          ≡ new_core m dt q_gen
      core = ap (λ x. m.t_core ⊕ x) (mul_comm _ _ ∙ ap (λ q. dt ⊗ ((q_gen ⊖ q) ⊘ m.c_core)) q_int)

      skin :
          m.t_skin
            ⊕ ((m.t_core ⊖ m.t_skin) ⊗ m.h_a_internal ⊖ (m.t_skin ⊖ t_coolant) ⊗ m.h_a_external)
              ⊘ m.c_skin
              ⊗ dt
          ≡ new_skin m dt t_coolant
      skin =
          ap (λ x. m.t_skin ⊕ x)
            (mul_comm _ _ ∙ ap₂ (λ q p. dt ⊗ ((q ⊖ p) ⊘ m.c_skin)) q_int (mul_comm _ _))
