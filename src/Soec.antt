-- ===== src/Soec.antt =====
-- `simulate_soec_step_jit` of physical_engine/optimization/_numba_ops_core_python.py, the dispatch of
-- a plant of solid-oxide modules. The three arrays of the plant are one list of modules; the elementwise
-- loops over the arrays are one function of a module.
pub mod Arrays
pub mod Modules
pub mod Dispatch
use matrix_factory.Prelude.{
  ℕ, zero, suc, ◌+◌, ◌-◌, Bool, ◌&&◌, ◌||◌, List, [], ◌∷◌, map, Option, none, some, length,
  get_elem?, set, ltb, leb, ◌==◌, if◌then◌else◌,
}
use matrix_factory.Prelude.Int.{ℤ, pos, negsuc, ◌+ℤ◌}
use matrix_factory.Float.{Float, ◌⊕◌, ◌⊖◌, ◌⊗◌, ◌⊘◌}
use matrix_factory.Grid.{◌>>=◌}

-- `int(x)` of a float, and the float of an integer.
pub record Ints (F : Type 0) : Type 0 where
  pub int : F → ℤ
  pub of_int : ℤ → F

-- An entry of the arrays of powers, states and limits. The states are 1 hot stand-by, 2 ramp up,
-- 3 stationary, 4 optimal, 5 ramp down.
pub record Module (F : Type 0) : Type 0 where
  pub power : F
  pub state : ℕ
  pub limit : F

pub record Rating (F : Type 0) : Type 0 where
  pub uniform_module_max_limit : F
  pub power_standby_mw : F
  pub power_first_step_mw : F
  pub ramp_step_mw : F
  pub minimum_total_power : F

-- `xs[virtual_map]`
abbrev pub gather {ℓ} : {A : Type ℓ} → List A → List ℕ → Option (List A)
gather xs [] = some []
gather xs (i ∷ is) = do x ← get_elem? xs i; ys ← gather xs is; some (x ∷ ys)

-- `for i: xs[virtual_map[i]] = ys[i]`
abbrev pub scatter {ℓ} : {A : Type ℓ} → List A → List ℕ → List A → List A
scatter xs [] ys = xs
scatter xs (i ∷ is) [] = xs
scatter xs (i ∷ is) (y ∷ ys) = scatter (set xs i y) is ys

-- `max(1, min(n + 1, id)) - 1`
abbrev pub target_index : ℕ → ℤ → ℕ
target_index n (pos id) = if leb (n + 1) id then n else id - 1
target_index n (negsuc id) = 0

module _ {F : Type 0} ⦃fl : Float F⦄ where
  open fl use {lit, lt, le, eq, abs, min, max}

  abbrev pub tolerance : F
  tolerance = lit 5 3

  abbrev pub sum_powers : F → List (Module F) → F
  sum_powers total [] = total
  sum_powers total (m ∷ ms) = sum_powers (total ⊕ m.power) ms

  abbrev pub limit_to : F → Module F → Module F
  limit_to l m = record m { limit = l }

  -- `full` before the index `t`, `v` at it, `idle` behind it.
  abbrev pub fill_limits : F → F → F → ℕ → List (Module F) → List (Module F)
  fill_limits full v idle t [] = []
  fill_limits full v idle zero (m ∷ ms) = limit_to v m ∷ map (limit_to idle) ms
  fill_limits full v idle (suc t) (m ∷ ms) = limit_to full m ∷ fill_limits full v idle t ms

  module _ (r : Rating F) where
    open r use {
      uniform_module_max_limit, power_standby_mw, power_first_step_mw, ramp_step_mw,
      minimum_total_power,
    }

    abbrev pub promote : Module F → Module F
    promote m =
        if m.state == 3 && lt (abs (m.power ⊖ uniform_module_max_limit)) tolerance
        then record m { state = 4 }
        else m

    abbrev pub come_to_rest : Module F → Module F
    come_to_rest m = if m.state == 2 || m.state == 5 then record m { state = 3 } else m

    -- Between the stand-by power and the first step, the tolerance apart from both.
    abbrev pub is_between : F → Bool
    is_between p = lt (power_standby_mw ⊕ tolerance) p && lt p (power_first_step_mw ⊖ tolerance)

    -- Power and movement, after the startup logic.
    abbrev pub started : F → F → F × F
    started p diff =
        if lt (abs (p ⊖ power_standby_mw)) tolerance && lt tolerance diff
        then (power_first_step_mw, lit 0 0)
        else (
          p,
          min (abs diff) ramp_step_mw ⊗ (if le (lit 0 0) diff then lit 1 0 else fl.neg (lit 1 0)),
        )

    -- The shutdown logic and the floor of the hot stand-by.
    abbrev pub floored : F → F
    floored p =
        let shut = if is_between p then power_standby_mw else p in
        if le shut (power_standby_mw ⊕ tolerance) then power_standby_mw else shut

    abbrev pub next_power : F → F → F
    next_power p diff = let (p', movement) = started p diff in floored (p' ⊕ movement)

    abbrev pub next_state : F → F → F → ℕ
    next_state p limit diff =
        if lt (abs (p ⊖ power_standby_mw)) tolerance
        then 1
        else if lt (abs (p ⊖ uniform_module_max_limit)) tolerance
        then 4
        else if lt (abs (p ⊖ limit)) tolerance
        then 3
        else if lt (lit 0 0) diff
        then 2
        else 5

    unfoldable pub dispatch_module : Module F → Module F
    dispatch_module m =
        let diff = m.limit ⊖ m.power in
        let p = next_power m.power diff in record m { power = p; state = next_state p m.limit diff }

    module _ (ints : Ints F) (reference_power : F) where
      open ints use {int, of_int}

      abbrev pub broken_number : F
      broken_number =
          max (lit 0 0) (reference_power ⊖ minimum_total_power) ⊘ uniform_module_max_limit

      abbrev pub n_ceil : F
      n_ceil =
          if eq broken_number (of_int (int broken_number))
          then broken_number
          else of_int (int broken_number +ℤ pos 1)

      abbrev pub target_module_id : ℤ
      target_module_id =
          if lt (lit 1 2) broken_number && lt (abs (broken_number ⊖ n_ceil)) (lit 1 3)
          then int n_ceil +ℤ pos 1
          else int n_ceil

      abbrev pub new_limit_calc : F
      new_limit_calc =
          let v =
            reference_power ⊖ uniform_module_max_limit ⊗ of_int (int broken_number) ⊖ lit 0 0 in
          if is_between v then power_standby_mw else v

      abbrev pub is_at_minimum : Bool
      is_at_minimum = lt (abs (reference_power ⊖ minimum_total_power)) (lit 1 2)

      -- The limits. On the way down a target behind the last module is written outside the array.
      unfoldable pub set_limits : Bool → List (Module F) → Option (List (Module F))
      set_limits ramp_up ms =
          let t = target_index (length ms) target_module_id in
          let filled =
            fill_limits uniform_module_max_limit (max power_standby_mw new_limit_calc)
              power_standby_mw t ms in
          if ramp_up
          then some filled
          else if is_at_minimum
          then some (map (limit_to power_standby_mw) ms)
          else if ltb t (length ms)
          then some filled
          else none

      -- The limits take a division by the rating; by zero it is `none`.
      unfoldable pub dispatch : List (Module F) → Option (List (Module F))
      unfolding set_limits dispatch_module
      dispatch ms =
          let difference = reference_power ⊖ sum_powers (lit 0 0) ms in
          let promoted = map promote ms in
          if lt (abs difference) (lit 1 2) then some (map come_to_rest promoted) else (do
            limited ←
                if eq uniform_module_max_limit (lit 0 0)
                then none
                else set_limits (lt (lit 0 0) difference) promoted
            some (map dispatch_module limited))

      unfoldable pub simulate_soec_step_jit : List (Module F) → List ℕ → Option (List (Module F))
      unfolding dispatch
      simulate_soec_step_jit plant virtual_map = do
        ms ← gather plant virtual_map
        dispatched ← dispatch ms
        some (scatter plant virtual_map dispatched)
