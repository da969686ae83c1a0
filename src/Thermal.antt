-- ===== src/Thermal.antt =====
-- physical_engine/factory_simulation/stack_thermal_model.py.
pub mod Nodes
pub mod Euler
use matrix_factory.Prelude.{ℕ, Bool, true, ◌||◌, if◌then◌else◌}
use matrix_factory.Float.{Float, ◌⊕◌, ◌⊖◌, ◌⊗◌, ◌⊘◌}

-- The fields of `StackThermalModel`. The fields that no step writes come first.
pub record StackThermalModel (F : Type 0) : Type 0 where
  pub h_external : F
  pub a_external : F
  pub k_stack : F
  pub l_char : F
  pub t_initial : F
  pub c_core : F
  pub c_skin : F
  pub h_a_internal : F
  pub h_a_external : F
  pub t_core : F
  pub t_skin : F
  pub last_yo : F
  pub last_bi : F
  pub last_valid : Bool
  pub last_q_output : F

module _ {F : Type 0} ⦃fl : Float F⦄ where
  open fl use {lit, lt, eq, pow, max}

  -- `StackThermalModel(T_initial=t_initial)`, the other fields at their defaults.
  unfoldable pub stack_thermal_model : F → StackThermalModel F
  stack_thermal_model t_initial = record {
    h_external = lit 25 0;
    a_external = lit 2 0;
    k_stack = lit 20 0;
    l_char = lit 5 2;
    t_initial = t_initial;
    c_core = lit 25 0 ⊗ lit 500 0;
    c_skin = lit 25 0 ⊗ lit 500 0;
    h_a_internal = lit 500 0 ⊗ lit 1 0;
    h_a_external = lit 25 0 ⊗ lit 2 0;
    t_core = t_initial;
    t_skin = t_initial;
    last_yo = lit 0 0;
    last_bi = lit 0 0;
    last_valid = true;
    last_q_output = lit 0 0;
  }

  -- The Yonkist and Biot numbers, and whether lumping is valid.
  pub validate_yonkist : StackThermalModel F → F → F → F × F × Bool
  validate_yonkist m q_gen_volumetric delta_t =
      let bi = m.h_external ⊗ m.l_char ⊘ m.k_stack in
      let yo =
        if lt (lit 1 6) delta_t
        then q_gen_volumetric ⊗ pow m.l_char (lit 2 0) ⊘ (m.k_stack ⊗ delta_t)
        else lit 0 0 in
      (yo, bi, lt yo bi || eq yo (lit 0 0))

  abbrev pub new_core : StackThermalModel F → F → F → F
  new_core m dt q_gen =
      m.t_core ⊕ dt ⊗ ((q_gen ⊖ m.h_a_internal ⊗ (m.t_core ⊖ m.t_skin)) ⊘ m.c_core)

  abbrev pub new_skin : StackThermalModel F → F → F → F
  new_skin m dt t_coolant =
      m.t_skin
      ⊕ dt
        ⊗ ((m.h_a_internal ⊗ (m.t_core ⊖ m.t_skin) ⊖ m.h_a_external ⊗ (m.t_skin ⊖ t_coolant))
            ⊘ m.c_skin)

  -- The model after the step, and the heat to the coolant.
  pub step : F → F → F → StackThermalModel F → StackThermalModel F × F
  unfolding validate_yonkist
  step dt q_gen t_coolant m =
      let core = new_core m dt q_gen in
      let skin = new_skin m dt t_coolant in
      let volume = m.a_external ⊗ m.l_char in
      let q_gen_volumetric = if lt (lit 0 0) volume then q_gen ⊘ volume else lit 0 0 in
      let delta_t = max (core ⊖ t_coolant) (lit 1 6) in
      let (yo, bi, is_valid) = validate_yonkist m q_gen_volumetric delta_t in
      let q_output = m.h_a_external ⊗ (skin ⊖ t_coolant) in
      (
        record m {
          t_core = core;
          t_skin = skin;
          last_yo = yo;
          last_bi = bi;
          last_valid = is_valid;
          last_q_output = q_output;
        },
        q_output,
      )

  pub reset : StackThermalModel F → StackThermalModel F
  reset m = record m {
    t_core = m.t_initial;
    t_skin = m.t_initial;
    last_yo = lit 0 0;
    last_bi = lit 0 0;
    last_valid = true;
    last_q_output = lit 0 0;
  }
