-- ===== src/Soec/Dispatch.antt =====
-- What a step of the dispatch leaves in the arrays of the plant.
use matrix_factory.Prelude.{
  ℕ, zero, suc, ◌<◌, ◌≤◌, ◌≡◌, refl, ap, ◌∙◌, inl, inr, ◌⊎◌, Bool, true, false, List, [], ◌∷◌, map,
  none, some, length, length-map, get_elem?, ltb, All, Bool-cases, ltb→lt, ltb-eq-false, lt→ltb,
  le→ltb,
}
use matrix_factory.Float.{Float, ◌⊕◌, ◌⊖◌, IsNum, IsOrdered}
use matrix_factory.Soec.{
  Ints, Module, Rating, gather, scatter, target_index, tolerance, sum_powers, limit_to, fill_limits,
  promote, come_to_rest, dispatch_module, is_at_minimum, target_module_id, new_limit_calc,
  set_limits, dispatch, simulate_soec_step_jit,
}
use matrix_factory.Soec.Modules.{
  IsDispatched, IsSettled, come_to_rest-IsSettled, come_to_rest-power, promote-power,
  dispatch_module-IsDispatched,
}
use matrix_factory.Soec.Arrays.{
  IsMap, IsIdle, Holds, gather-some, length-scatter, scatter-idle, scatter-All, map-All,
  scatter-powers, gather-SamePowers, map-SamePowers,
}

length-fill_limits :
    {F : Type 0} ⦃fl : Float F⦄ (full v idle : F) (t : ℕ) (ms : List (Module F))
    → length (fill_limits full v idle t ms) ≡ length ms
length-fill_limits full v idle t [] = refl
length-fill_limits full v idle zero (m ∷ ms) = ap suc (length-map (limit_to idle) ms)
length-fill_limits full v idle (suc t) (m ∷ ms) = ap suc (length-fill_limits full v idle t ms)

module _ {F : Type 0} ⦃fl : Float F⦄ (r : Rating F) where
  open fl use {lit, lt, le, abs, max}
  open r use {uniform_module_max_limit, power_standby_mw, power_first_step_mw}

  module _ (ints : Ints F) (reference_power : F) where
    -- The way down to a target behind the last module.
    pub record IsOverrun (ms : List (Module F)) : Type 0 where
      pub far : lt (abs (reference_power ⊖ sum_powers (lit 0 0) ms)) (lit 1 2) ≡ false
      pub down : lt (lit 0 0) (reference_power ⊖ sum_powers (lit 0 0) ms) ≡ false
      pub above_minimum : is_at_minimum r ints reference_power ≡ false
      pub behind : length ms ≤ target_index (length ms) (target_module_id r ints reference_power)

    -- The modules that the map names keep their powers and are off the ramps, if the plant meets the
    -- reference; else they are dispatched.
    pub IsStep : List (Module F) → List ℕ → List (Module F) → List (Module F) → Type 0
    IsStep plant virtual_map ms plant' =
        ((lt (abs (reference_power ⊖ sum_powers (lit 0 0) ms)) (lit 1 2) ≡ true)
          × (map (λ m. m.power) plant' ≡ map (λ m. m.power) plant)
          × All (λ i. Holds (λ m. IsSettled r m) plant' i) virtual_map)
        ⊎ ((lt (abs (reference_power ⊖ sum_powers (lit 0 0) ms)) (lit 1 2) ≡ false)
            × All (λ i. Holds (λ m. IsDispatched r m) plant' i) virtual_map)

    length-set_limits :
        (up : Bool) (ms : List (Module F))
        → (up ≡ false
            → is_at_minimum r ints reference_power ≡ false
            → target_index (length ms) (target_module_id r ints reference_power) < length ms)
        → (limited : List (Module F)) × (set_limits r ints reference_power up ms ≡ some limited)
          × (length limited ≡ length ms)
    unfolding set_limits
    length-set_limits true ms inside = (_, refl, length-fill_limits _ _ _ _ ms)
    length-set_limits false ms inside = elim (Bool-cases (is_at_minimum r ints reference_power)) [
      | inl y ↦
          (map (limit_to power_standby_mw) ms, rw y refl, length-map (limit_to power_standby_mw) ms)
      | inr n ↦
          let t = target_index (length ms) (target_module_id r ints reference_power) in
          (
            fill_limits uniform_module_max_limit
                (max power_standby_mw (new_limit_calc r ints reference_power)) power_standby_mw t
                ms,
            rw (n, lt→ltb t (length ms) (inside refl n)) refl,
            length-fill_limits _ _ _ _ ms,
          )
    ]

    limits_fit :
        (ms : List (Module F))
        → ¬ IsOverrun ms
        → lt (abs (reference_power ⊖ sum_powers (lit 0 0) ms)) (lit 1 2) ≡ false
        → lt (lit 0 0) (reference_power ⊖ sum_powers (lit 0 0) ms) ≡ false
        → is_at_minimum r ints reference_power ≡ false
        → target_index (length (map (promote r) ms)) (target_module_id r ints reference_power)
          < length (map (promote r) ms)
    limits_fit ms fits far down above =
        elim (Bool-cases
          (ltb (target_index (length ms) (target_module_id r ints reference_power)) (length ms))) [
            | inl y ↦ rw (length-map (promote r) ms) (ltb→lt _ _ y)
            | inr n ↦ absurd (
                fits (record {
                  far = far;
                  down = down;
                  above_minimum = above;
                  behind = ltb-eq-false _ _ n;
                }))
          ]

    -- An overrun writes the limit of the target outside the array, or has divided by zero.
    pub simulate_soec_step_jit-overrun :
        (plant : List (Module F)) (virtual_map : List ℕ) (ms : List (Module F))
        → gather plant virtual_map ≡ some ms
        → IsOverrun ms
        → simulate_soec_step_jit r ints reference_power plant virtual_map ≡ none
    unfolding simulate_soec_step_jit dispatch set_limits
    simulate_soec_step_jit-overrun plant virtual_map ms read over =
        elim (Bool-cases (fl.eq uniform_module_max_limit (lit 0 0))) [
          | inl y ↦ rw (read, over.far, y) refl
          | inr n ↦
              rw
                (
                  read,
                  over.far,
                  n,
                  over.down,
                  over.above_minimum,
                  length-map (promote r) ms,
                  le→ltb _ _ over.behind,
                )
                refl
        ]

  module _ (laws : IsOrdered F) (hot_num : IsNum (power_standby_mw ⊕ tolerance))
      (first_num : IsNum (power_first_step_mw ⊖ tolerance)) where
    module _ (ints : Ints F) (reference_power : F) where
      -- If the map names modules of the plant, the rating is not zero and the step is not an overrun, a
      -- ramp down to a target behind the last module, the step returns a plant
      -- of the same length in which the modules that the map does not name are unchanged and the others
      -- are stepped: kept at their powers and off the ramps, if the plant is within 0.01 MW of the
      -- reference, and else each at a known state, hot stand-by exactly for a power at stand-by, with a
      -- power that, if it is a number, is the stand-by power or at least the first step less the
      -- tolerance of 0.005 MW.
      pub simulate_soec_step_jit-IsStep :
          (plant : List (Module F)) (virtual_map : List ℕ) (ms : List (Module F))
          → IsMap (length plant) virtual_map
          → gather plant virtual_map ≡ some ms
          → fl.eq uniform_module_max_limit (fl.lit 0 0) ≡ false
          → ¬ IsOverrun ints reference_power ms
          → (plant' : List (Module F)) × (simulate_soec_step_jit r ints reference_power plant
                virtual_map
              ≡ some plant')
            × (length plant' ≡ length plant)
            × ((j : ℕ) → IsIdle virtual_map j → get_elem? plant' j ≡ get_elem? plant j)
            × IsStep ints reference_power plant virtual_map ms plant'
      unfolding simulate_soec_step_jit dispatch IsStep
      simulate_soec_step_jit-IsStep plant virtual_map ms inside read rated fits =
          let (ms', e, n) = gather-some plant virtual_map inside in
          let same : ms ≡ ms' = cc (e, read) in
          let named : length ms ≡ length virtual_map = ap length same ∙ n in
          elim (Bool-cases (lt (abs (reference_power ⊖ sum_powers (lit 0 0) ms)) (lit 1 2))) [
            | inl y ↦
                let done = map (come_to_rest r) (map (promote r) ms) in
                (
                  scatter plant virtual_map done,
                  rw (read, y) refl,
                  length-scatter plant virtual_map done,
                  scatter-idle plant virtual_map done,
                  inl (
                    y,
                    scatter-powers plant virtual_map done (
                        map-SamePowers (come_to_rest r) (come_to_rest-power r)
                          (map (λ m. m.power) plant) virtual_map (map (promote r) ms)
                          (gather-SamePowers (promote r) (promote-power r) plant virtual_map ms
                            read)),
                    scatter-All (λ m. IsSettled r m) plant virtual_map done inside
                        (length-map (come_to_rest r) (map (promote r) ms)
                          ∙ length-map (promote r) ms
                          ∙ named)
                        (map-All (λ m. IsSettled r m) (come_to_rest r) (come_to_rest-IsSettled r)
                          (map (promote r) ms)),
                  ),
                )
            | inr far ↦
                let (limited, q, k) =
                  length-set_limits ints reference_power
                    (lt (lit 0 0) (reference_power ⊖ sum_powers (lit 0 0) ms)) (map (promote r) ms)
                    (limits_fit ints reference_power ms fits far) in
                let done = map (dispatch_module r) limited in
                (
                  scatter plant virtual_map done,
                  rw (read, far, rated, q) refl,
                  length-scatter plant virtual_map done,
                  scatter-idle plant virtual_map done,
                  inr (
                    far,
                    scatter-All (λ m. IsDispatched r m) plant virtual_map done inside
                        (length-map (dispatch_module r) limited
                          ∙ k
                          ∙ length-map (promote r) ms
                          ∙ named)
                        (map-All (λ m. IsDispatched r m) (dispatch_module r)
                          (dispatch_module-IsDispatched r laws hot_num first_num) limited),
                  ),
                )
          ]
