-- ===== src/Soec/Modules.antt =====
-- What the dispatch makes of one module.
use matrix_factory.Prelude.{◌≤◌, ◌≡◌, ◌≢◌, ◌↔◌, refl, inl, inr, ◌⊎◌, true, Bool-cases, arith}
use matrix_factory.Float.{Float, ◌⊕◌, ◌⊖◌, IsNum, Le, IsOrdered}
use matrix_factory.Soec.{
  Module, Rating, tolerance, promote, come_to_rest, is_between, floored, next_state,
  dispatch_module,
}

module _ {F : Type 0} ⦃fl : Float F⦄ (r : Rating F) where
  open fl use {lit, lt, le, abs, max}
  open r use {uniform_module_max_limit, power_standby_mw, power_first_step_mw}

  -- A module after its dispatch: a power that is a number is the stand-by power or reaches the first
  -- step, the tolerance apart, and the state is 1 exactly for a power at stand-by.
  pub record IsDispatched (m : Module F) : Type 0 where
    pub known : (1 ≤ m.state) × (m.state ≤ 5)
    pub hot : (m.state ≡ 1) ↔ (lt (abs (m.power ⊖ power_standby_mw)) tolerance ≡ true)
    pub apart :
        IsNum m.power → (m.power ≡ power_standby_mw) ⊎ Le (power_first_step_mw ⊖ tolerance) m.power

  -- A module at rest: not on a ramp.
  pub record IsSettled (m : Module F) : Type 0 where
    pub not_up : m.state ≢ 2
    pub not_down : m.state ≢ 5

  pub come_to_rest-IsSettled : (m : Module F) → IsSettled (come_to_rest r m)
  come_to_rest-IsSettled m = ground arith

  pub come_to_rest-power : (m : Module F) → (come_to_rest r m).power ≡ m.power
  come_to_rest-power m = ground arith

  pub promote-power : (m : Module F) → (promote r m).power ≡ m.power
  promote-power m = ground arith

  module _ (laws : IsOrdered F) (hot_num : IsNum (power_standby_mw ⊕ tolerance))
      (first_num : IsNum (power_first_step_mw ⊖ tolerance)) where
    open laws use {le_of_not_lt}

    floored_lem :
        (p : F)
        → IsNum (floored r p)
        → (floored r p ≡ power_standby_mw) ⊎ Le (power_first_step_mw ⊖ tolerance) (floored r p)
    floored_lem p n = elim (Bool-cases (is_between r p)) [
      | inl y ↦ elim (Bool-cases (le power_standby_mw (power_standby_mw ⊕ tolerance))) [
        | inl z ↦ inl (rw (y, z) refl)
        | inr z ↦ inl (rw (y, z) refl)
      ]
      | inr out ↦ elim (Bool-cases (le p (power_standby_mw ⊕ tolerance))) [
        | inl y ↦ inl (rw (out, y) refl)
        | inr above ↦
            let num : IsNum p = rw (out, above) at n in
            elim (Bool-cases (lt (power_standby_mw ⊕ tolerance) p)) [
              | inl y ↦ inr (
                  rw (out, above)
                    (le_of_not_lt p (power_first_step_mw ⊖ tolerance) num first_num (rw y at out)))
              | inr z ↦
                  let back : Le p (power_standby_mw ⊕ tolerance) =
                    le_of_not_lt (power_standby_mw ⊕ tolerance) p hot_num num z in
                  cc
            ]
      ]
    ]

    next_state_known :
        (p limit diff : F) → (1 ≤ next_state r p limit diff) × (next_state r p limit diff ≤ 5)
    next_state_known p limit diff = ground arith

    next_state_hot :
        (p limit diff : F)
        → (next_state r p limit diff ≡ 1) ↔ (lt (abs (p ⊖ power_standby_mw)) tolerance ≡ true)
    next_state_hot p limit diff = (λ h. ground arith, λ h. ground arith)

    pub dispatch_module-IsDispatched : (m : Module F) → IsDispatched (dispatch_module r m)
    unfolding dispatch_module
    dispatch_module-IsDispatched m = record {
      known = next_state_known _ m.limit _;
      hot = next_state_hot _ m.limit _;
      apart = floored_lem _;
    }
