-- ===== src/Tanks.antt =====
-- The storage bank of physical_engine/optimization/_numba_ops_core_python.py. The parallel arrays
-- `states`, `masses`, `capacities`, `temperatures`, `volumes` and `pressures` of one bank have one
-- length, and are modelled as one list of tanks.
pub mod Search
pub mod Balance
pub mod Filled
pub mod Energy
pub mod Mpc
use matrix_factory.Prelude.{
  ℕ, zero, suc, ◌+◌, Bool, true, false, Option, none, some, List, [], ◌∷◌, ◌&&◌, ◌||◌,
  if◌then◌else◌,
}
use matrix_factory.Float.{Float, Numpy, ◌⊕◌, ◌⊖◌, ◌⊗◌, ◌⊘◌}

-- TANK_STATE_IDLE = 0, …, TANK_STATE_FULL = 4
pub data TankState : Type 0 where
  idle filling discharging empty full : TankState

pub record Tank (F : Type 0) : Type 0 where
  pub state : TankState
  pub mass : F
  pub capacity : F
  pub temperature : F
  pub volume : F
  pub pressure : F

-- `states[i] == IDLE or states[i] == EMPTY`
abbrev pub accepts_mass : TankState → Bool
accepts_mass idle = true
accepts_mass empty = true
accepts_mass _ = false

-- `states[i] == IDLE or states[i] == FULL`
abbrev pub may_discharge : TankState → Bool
may_discharge idle = true
may_discharge full = true
may_discharge _ = false

abbrev pub same_state : TankState → TankState → Bool
same_state idle idle = true
same_state filling filling = true
same_state discharging discharging = true
same_state empty empty = true
same_state full full = true
same_state _ _ = false

module _ {F : Type 0} ⦃fl : Float F⦄ where
  open fl use {lit, lt, le, min}

  abbrev pub suits : F → Tank F → Bool
  suits min_capacity t = accepts_mass t.state && le min_capacity (t.capacity ⊖ t.mass)

  -- The index, counted from `i`; `none` is -1.
  pub find_available_from : List (Tank F) → F → ℕ → Option ℕ
  find_available_from [] min_capacity i = none
  find_available_from (t ∷ ts) min_capacity i =
      if suits min_capacity t then some i else find_available_from ts min_capacity (suc i)

  pub find_available_tank : List (Tank F) → F → Option ℕ
  unfolding find_available_from
  find_available_tank ts min_capacity = find_available_from ts min_capacity 0

  abbrev pub is_source : F → Tank F → Bool
  is_source min_mass t = may_discharge t.state && le min_mass t.mass

  -- The loop's `(max_mass, best_idx)`.
  pub find_fullest_from : List (Tank F) → F → ℕ → F → Option ℕ → Option ℕ
  find_fullest_from [] min_mass i max_mass best = best
  find_fullest_from (t ∷ ts) min_mass i max_mass best =
      let better = is_source min_mass t && lt max_mass t.mass in
      find_fullest_from ts min_mass (suc i) (if better then t.mass else max_mass)
        (if better then some i else best)

  pub find_fullest_tank : List (Tank F) → F → Option ℕ
  unfolding find_fullest_from
  find_fullest_tank ts min_mass = find_fullest_from ts min_mass 0 (fl.neg (lit 1 0)) none

  -- `if masses[i] >= capacities[i] * 0.99: states[i] = TANK_STATE_FULL`
  abbrev pub mark_full : Tank F → Tank F
  mark_full t = if le (t.capacity ⊗ lit 99 2) t.mass then record t { state = full } else t

  -- One tank's turn: the tank, and what remains.
  abbrev pub fill_one : F → Tank F → Tank F × F
  fill_one remaining t =
      let mass_to_add = min remaining (t.capacity ⊖ t.mass) in
      (mark_full (record t { mass = t.mass ⊕ mass_to_add }), remaining ⊖ mass_to_add)

  unfoldable pub distribute_mass_to_tanks : F → List (Tank F) → List (Tank F) × F
  distribute_mass_to_tanks remaining [] = ([], remaining)
  distribute_mass_to_tanks remaining (t ∷ ts) =
      let skipped = distribute_mass_to_tanks remaining ts in
      let filled = fill_one remaining t in
      let rest = distribute_mass_to_tanks filled.1 ts in
      if le remaining (lit 0 0)
      then (t ∷ ts, remaining)
      else (if accepts_mass t.state
          then (filled.0 ∷ rest.0, rest.1)
          else (t ∷ skipped.0, skipped.1))

  pub total_from : F → List (Tank F) → TankState → F
  total_from total [] target = total
  total_from total (t ∷ ts) target =
      total_from (if same_state t.state target then total ⊕ t.mass else total) ts target

  pub calculate_total_mass_by_state : List (Tank F) → TankState → F
  unfolding total_from
  calculate_total_mass_by_state = total_from (lit 0 0)

  -- `(stored, overflow)`, and the bank as it is left.
  pub simulate_filling_timestep : F → F → List (Tank F) → F × F × List (Tank F)
  unfolding distribute_mass_to_tanks
  simulate_filling_timestep production_rate dt ts =
      let production = production_rate ⊗ dt in
      let (ts', overflow) = distribute_mass_to_tanks production ts in
      (production ⊖ overflow, overflow, ts')

  -- Temperature after adding `mass_to_add` at `t_in`.
  abbrev pub mixed_temperature : F → F → F → Tank F → F
  mixed_temperature t_in gamma mass_to_add t =
      if lt (lit 0 0) t.mass
      then (t.mass ⊗ t.temperature ⊕ mass_to_add ⊗ gamma ⊗ t_in) ⊘ (t.mass ⊕ mass_to_add)
      else (if lt (lit 500 0) (gamma ⊗ t_in) then lit 500 0 else gamma ⊗ t_in)

  abbrev pub charge_one : F → F → F → Tank F → Tank F × F
  charge_one t_in gamma remaining t =
      let mass_to_add = min remaining (t.capacity ⊖ t.mass) in
      if lt (lit 0 0) mass_to_add
      then (
        mark_full (record t {
          mass = t.mass ⊕ mass_to_add;
          temperature = mixed_temperature t_in gamma mass_to_add t;
        }),
        remaining ⊖ mass_to_add,
      )
      else (t, remaining)

  pub distribute_mass_and_energy : F → F → F → List (Tank F) → List (Tank F) × F
  distribute_mass_and_energy t_in gamma remaining [] = ([], remaining)
  distribute_mass_and_energy t_in gamma remaining (t ∷ ts) =
      let skipped = distribute_mass_and_energy t_in gamma remaining ts in
      let charged = charge_one t_in gamma remaining t in
      let rest = distribute_mass_and_energy t_in gamma charged.1 ts in
      if le remaining (lit 0 0)
      then (t ∷ ts, remaining)
      else (if accepts_mass t.state
          then (charged.0 ∷ rest.0, rest.1)
          else (t ∷ skipped.0, skipped.1))

  abbrev pub pressure_one : F → F → Tank F → Tank F
  pressure_one temperature gas_constant t = record t {
    pressure =
        if lt (lit 0 0) t.volume then (t.mass ⊘ t.volume) ⊗ gas_constant ⊗ temperature else lit 0 0;
  }

  pub batch_pressure_update : F → F → List (Tank F) → List (Tank F)
  batch_pressure_update temperature gas_constant [] = []
  batch_pressure_update temperature gas_constant (t ∷ ts) =
      pressure_one temperature gas_constant t ∷ batch_pressure_update temperature gas_constant ts

  pub batch_pressure_update_vector_t : F → List (Tank F) → List (Tank F)
  batch_pressure_update_vector_t gas_constant [] = []
  batch_pressure_update_vector_t gas_constant (t ∷ ts) =
      pressure_one t.temperature gas_constant t ∷ batch_pressure_update_vector_t gas_constant ts

  module _ (np : Numpy F) where
    abbrev pub relaxed_temperature : F → F → F → F → Tank F → F
    relaxed_temperature t_amb dt_seconds ua cv t =
        let tau = t.mass ⊗ cv ⊘ ua in
        if lt (lit 1 6) t.mass
        then (if lt tau (lit 1 9)
            then t_amb
            else t_amb ⊕ (t.temperature ⊖ t_amb) ⊗ np.exp (fl.neg dt_seconds ⊘ tau))
        else t_amb

    pub apply_heat_loss_batch : F → F → F → F → List (Tank F) → List (Tank F)
    apply_heat_loss_batch t_amb dt_seconds ua cv [] = []
    apply_heat_loss_batch t_amb dt_seconds ua cv (t ∷ ts) =
        record t { temperature = relaxed_temperature t_amb dt_seconds ua cv t }
        ∷ apply_heat_loss_batch t_amb dt_seconds ua cv ts
