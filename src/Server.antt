-- ===== src/Server.antt =====
-- physical_engine/sim_bridge_server.py and physical_engine/proto_index.py: the state of a servicer,
-- and what reads it. Its tank and its compressor are not here, since no call uses them.
pub mod Seed
pub mod Clock
pub mod Batch
pub mod Process
pub mod Calls
pub mod Interleaving
use matrix_factory.Prelude.{
  ◌≡◌, refl, ℕ, ◌/◌, Bool, true, false, List, [], ◌∷◌, Option, none, some, length, set, get_elem?,
  if◌then◌else◌, ◌==◌, leb, Result, ok, err, Error, value_error, index_error, ◌+◌,
}
use Prim.Native.Nat.{max}
use matrix_factory.Float.{Float, ◌⊖◌}
use matrix_factory.Thermal.{StackThermalModel, stack_thermal_model}

-- `max(1, int(env_value))` of a NUMBA_NUM_THREADS that is set, or the share of one daemon in thirty.
-- A negative setting counts as 0 here.
pub derive_numba_threads : Option ℕ → Option ℕ → ℕ
derive_numba_threads (some n) cpu_count = max 1 n
derive_numba_threads none (some cpus) = max 1 ((if cpus == 0 then 1 else cpus) / 30)
derive_numba_threads none none = max 1 (1 / 30)

-- `max_workers` where the caller of `serve` gives none.
pub grpc_workers : Option ℕ → ℕ → ℕ
grpc_workers (some n) numba_threads = n
grpc_workers none numba_threads = max 2 (numba_threads + 1)

-- `ThermoStateIndex`.
abbrev pub h2_tank_pressure_bar : ℕ
h2_tank_pressure_bar = 0

abbrev pub h2_tank_fill_fraction : ℕ
h2_tank_fill_fraction = 1

abbrev pub chiller_temp_k : ℕ
chiller_temp_k = 2

abbrev pub compressor_power_kw : ℕ
compressor_power_kw = 3

abbrev pub stack_voltage_v : ℕ
stack_voltage_v = 4

abbrev pub stack_current_a_cm2 : ℕ
stack_current_a_cm2 = 5

abbrev pub stack_temp_k : ℕ
stack_temp_k = 6

abbrev pub stack_core_temp_k : ℕ
stack_core_temp_k = 7

abbrev pub stack_skin_temp_k : ℕ
stack_skin_temp_k = 8

abbrev pub vector_length : ℕ
vector_length = 9

pub record Servicer (F : Type 0) : Type 0 where
  pub num_cells : ℕ
  pub r_internal : F
  pub thermal : StackThermalModel F
  pub state : List F
  pub ready : Bool
  pub step_counter : ℕ

module _ {F : Type 0} ⦃fl : Float F⦄ where
  open fl use {lit}

  -- An array of the length of the state vector is valid; any other raises.
  pub validate_vector : List F → Result Bool
  validate_vector vec = if length vec == vector_length then ok true else err value_error

  -- `SimBridgeServicer(num_cells, R_internal, T_initial)`. The warm-up changes nothing and cannot fail.
  unfoldable pub sim_bridge_servicer : ℕ → F → F → Servicer F
  sim_bridge_servicer num_cells r_internal t_initial = record {
    num_cells = num_cells;
    r_internal = r_internal;
    thermal = stack_thermal_model t_initial;
    state =
        lit 3 0
        ∷ lit 1 0
        ∷ lit 29815 2
        ∷ lit 0 0
        ∷ lit 0 0
        ∷ lit 0 0
        ∷ t_initial
        ∷ t_initial
        ∷ t_initial
        ∷ [];
    ready = true;
    step_counter = 0;
  }

  pub health_check : Servicer F → Bool
  health_check s = s.ready

  -- `self._state[i]`; NumPy raises out of range, which no index of `ThermoStateIndex` is.
  abbrev pub read : List F → ℕ → Result F
  read xs i = elim (get_elem? xs i) [ none ↦ err index_error | some x ↦ ok x ]

  -- The vector has its length and shows the temperatures of the thermal model.
  pub record IsBench (s : Servicer F) : Type 0 where
    pub full : length s.state ≡ vector_length
    pub core : get_elem? s.state stack_core_temp_k ≡ some s.thermal.t_core
    pub skin : get_elem? s.state stack_skin_temp_k ≡ some s.thermal.t_skin

  pub new-IsBench :
      (num_cells : ℕ) (r_internal t_initial : F)
      → IsBench (sim_bridge_servicer num_cells r_internal t_initial)
  unfolding sim_bridge_servicer stack_thermal_model
  new-IsBench num_cells r_internal t_initial = record { full = refl; core = refl; skin = refl }
