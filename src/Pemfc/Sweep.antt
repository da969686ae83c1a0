-- ===== src/Pemfc/Sweep.antt =====
-- `batch_polarization_sweep` and `batch_polarization_sweep_thermal`.
pub mod Threads
pub mod Flags
pub mod Race
use matrix_factory.Prelude.{
  ◌≡◌, refl, ℕ, zero, suc, ◌+◌, ◌%◌, Bool, true, false, not, ◌||◌, List, [], ◌∷◌, ◌++◌, Option,
  none, some, replicate, if◌then◌else◌, length, ◌==◌, Error, value_error, index_error,
  zero_division, Result, ok, err, ◌>>=◌, ◌>>◌, guard,
}
use Prim.Native.Nat.{bit_or}
use matrix_factory.Float.{Float, Numpy, ◌⊕◌, ◌⊖◌, ◌⊗◌, ◌⊘◌}
use matrix_factory.Pemfc.{
  Stack, Cell, ohmic_degradation, thermal_shutdown, low_activation, ohmic_degradation_eta_v,
  thermal_shutdown_temp_k, low_activation_activity_floor, calculate_pemfc_voltage, thermal_step,
}

-- `xs[i] = f(xs[i])`; the index is in range wherever the code does this.
abbrev pub update {ℓ} : {A : Type ℓ} → List A → ℕ → (A → A) → List A
update [] i f = []
update (x ∷ xs) zero f = f x ∷ xs
update (x ∷ xs) (suc i) f = x ∷ update xs i f

-- `for t in range(numba_threads): failure |= flag_scratch[t]`
abbrev pub or_all : ℕ → List ℕ → ℕ
or_all failure [] = failure
or_all failure (w ∷ ws) = or_all (bit_or failure w) ws

-- The arrays of the sweep. A row of `scratch` is `none` until it is written.
pub record Arrays (F : Type 0) : Type 0 where
  pub voltages : List F
  pub scratch : List (Option (Cell F))
  pub flag_scratch : List ℕ

-- The arrays of the electro-thermal sweep, its flags, and its two temperatures.
pub record Trace (F : Type 0) : Type 0 where
  pub voltages : List F
  pub t_core_arr : List F
  pub t_skin_arr : List F
  pub failure : ℕ

pub record Heat (F : Type 0) : Type 0 where
  pub dt : F
  pub c_core : F
  pub c_skin : F
  pub h_a_int : F
  pub h_a_ext : F
  pub t_coolant : F

module _ {F : Type 0} ⦃fl : Float F⦄ (np : Numpy F) where
  open fl use {lit, lt, le}

  -- Whether some current density is at or above the limit.
  abbrev pub any_at_limit : F → List F → Bool
  any_at_limit j_lim [] = false
  any_at_limit j_lim (j ∷ js) = le j_lim j || any_at_limit j_lim js

  -- `if test: failure |= bit`
  abbrev pub flag_if : Bool → ℕ → ℕ → ℕ
  flag_if test bit failure = if test then bit_or failure bit else failure

  abbrev pub starved : Stack F → Bool
  starved c =
      lt c.ecsa_ratio (lit 3 1)
      || lt c.a_h2 low_activation_activity_floor
      || lt c.a_o2 low_activation_activity_floor

  -- One iteration, `i`, of the loop over the current densities.
  pub sweep_point : F → Stack F → ℕ → ℕ → F → Arrays F → Result (Arrays F)
  sweep_point t c numba_threads i j s = if numba_threads == 0 then err zero_division else (do
    cell ← calculate_pemfc_voltage np j t c
    let idx = i % numba_threads
    ok (record {
      voltages = s.voltages ++ cell.v_stack ∷ [];
      scratch = update s.scratch idx (λ _. some cell);
      flag_scratch =
          update s.flag_scratch idx
            (flag_if (lt ohmic_degradation_eta_v cell.eta_ohm) ohmic_degradation);
    }))

  pub sweep_loop : F → Stack F → ℕ → ℕ → List F → Arrays F → Result (Arrays F)
  sweep_loop t c numba_threads i [] s = ok s
  sweep_loop t c numba_threads i (j ∷ js) s = do
    s' ← sweep_point t c numba_threads i j s
    sweep_loop t c numba_threads (suc i) js s'

  pub batch_polarization_sweep : List F → F → Stack F → ℕ → Result (List F × ℕ)
  batch_polarization_sweep current_densities t c numba_threads = do
    guard (not (any_at_limit c.j_lim current_densities)) value_error
    s ← sweep_loop t c numba_threads 0 current_densities (record {
      voltages = [];
      scratch = replicate numba_threads none;
      flag_scratch = replicate numba_threads 0;
    })
    let failure = or_all 0 s.flag_scratch
    let failure = flag_if (lt thermal_shutdown_temp_k t) thermal_shutdown failure
    ok (s.voltages, flag_if (starved c) low_activation failure)

  -- One point of the electro-thermal sweep, and its temperatures after it.
  unfoldable pub thermal_point : Stack F → Heat F → F → F → F → Trace F → Result (Trace F × F × F)
  thermal_point c h j t_core t_skin s = do
    cell ← calculate_pemfc_voltage np j t_core c
    let failure = flag_if (lt ohmic_degradation_eta_v cell.eta_ohm) ohmic_degradation s.failure
    let failure = flag_if (lt thermal_shutdown_temp_k t_core) thermal_shutdown failure
    let q_gen = (j ⊗ lit c.n_cells 0) ⊗ (cell.eta_act ⊕ cell.eta_ohm)
    (core, skin) ←
        thermal_step t_core t_skin h.dt q_gen h.t_coolant h.c_core h.c_skin h.h_a_int h.h_a_ext
    ok (
      record {
        voltages = s.voltages ++ cell.v_stack ∷ [];
        t_core_arr = s.t_core_arr ++ t_core ∷ [];
        t_skin_arr = s.t_skin_arr ++ t_skin ∷ [];
        failure = failure;
      },
      core,
      skin,
    )

  unfoldable pub thermal_loop : Stack F → Heat F → List F → F → F → Trace F → Result (Trace F)
  thermal_loop c h [] t_core t_skin s = ok s
  thermal_loop c h (j ∷ js) t_core t_skin s = do
    (s', core, skin) ← thermal_point c h j t_core t_skin s
    thermal_loop c h js core skin s'

  unfoldable pub batch_polarization_sweep_thermal : List F → F → Stack F → Heat F → Result (Trace F)
  batch_polarization_sweep_thermal current_densities t_init c h = do
    guard (not (any_at_limit c.j_lim current_densities)) value_error
    s ←
        thermal_loop c h current_densities t_init t_init
          (record { voltages = []; t_core_arr = []; t_skin_arr = []; failure = 0 })
    ok (record {
      voltages = s.voltages;
      t_core_arr = s.t_core_arr;
      t_skin_arr = s.t_skin_arr;
      failure = flag_if (starved c) low_activation s.failure;
    })
