-- ===== src/Kernels/Boiler.antt =====
-- The electric boiler: `calc_boiler_batch_scenario`, `calc_boiler_flash_jit` and
-- `calc_boiler_batch_full`.
use matrix_factory.Prelude.{
  ℕ, suc, Bool, List, [], ◌∷◌, Option, none, some, get_elem?, if◌then◌else◌,
}
use matrix_factory.Float.{Float, ◌⊕◌, ◌⊖◌, ◌⊗◌, ◌⊘◌}
use matrix_factory.Grid.{◌>>=◌, before}
use matrix_factory.Grid.Mixture.{mixture_weight}
use matrix_factory.Kernels.Mixtures.{calc_boiler_outlet_enthalpy}
use matrix_factory.Kernels.Compression.{first_reaching, solve_temperature_from_enthalpy_jit}

-- The saturation arrays, by temperature: pressure, temperature, and the two enthalpies.
pub record SatCurve (F : Type 0) : Type 0 where
  pub p_sat_grid : List F
  pub t_sat_grid : List F
  pub h_liq_sat : List F
  pub h_vap_sat : List F

-- The grids and tables of enthalpy and heat capacity.
pub record BoilerTables (F : Type 0) : Type 0 where
  pub p_grid : List F
  pub t_grid : List F
  pub h_lut : List (List F)
  pub c_lut : List (List F)

-- `t_sat`, `h_sat_liq`, `h_sat_vap`
pub record SatPoint (F : Type 0) : Type 0 where
  pub t_sat : F
  pub h_sat_liq : F
  pub h_sat_vap : F

-- What the flash returns: the phase is 0 for liquid, 1 for a mixture, 2 for gas.
pub record Flashed (F : Type 0) : Type 0 where
  pub t_out : F
  pub vapor_frac : F
  pub phase : ℕ

-- A row of the four arrays that the batch returns.
pub record BoilerRow (F : Type 0) : Type 0 where
  pub h_out : F
  pub flashed : Flashed F

-- The arrays of the batch, but for the inlet enthalpies.
pub record BoilerInputs (F : Type 0) : Type 0 where
  pub flow_array : List F
  pub power_array : List F
  pub pressure_array : List F
  pub t_in_array : List F

module _ {F : Type 0} ⦃fl : Float F⦄ where
  open fl use {lit, lt, le, eq}

  -- The index that the linear search leaves: 0 if no pressure from index 1 on is reached.
  abbrev pub sat_index : List F → F → ℕ
  sat_index [] pressure = 0
  sat_index (p ∷ ps) pressure = first_reaching pressure ps 1

  -- `xs[idx-1] * (1 - w) + xs[idx] * w`
  abbrev pub weighted_at : List F → ℕ → F → Option F
  weighted_at xs idx w = do
    x0 ← before xs idx
    x1 ← get_elem? xs idx
    some (x0 ⊗ (lit 1 0 ⊖ w) ⊕ x1 ⊗ w)

  abbrev pub sat_read : (List F → Option F) → SatCurve F → Option (SatPoint F)
  sat_read f c = do
    t ← f c.t_sat_grid
    liq ← f c.h_liq_sat
    vap ← f c.h_vap_sat
    some (record { t_sat = t; h_sat_liq = liq; h_sat_vap = vap })

  unfoldable pub saturation_at : SatCurve F → F → Option (SatPoint F)
  saturation_at c pressure = do
    p_min ← get_elem? c.p_sat_grid 0
    p_max ← before c.p_sat_grid 0
    if le pressure p_min
        then sat_read (λ xs. get_elem? xs 0) c
        else if le p_max pressure
        then sat_read (λ xs. before xs 0) c
        else (do
          let idx = sat_index c.p_sat_grid pressure
          p0 ← before c.p_sat_grid idx
          p1 ← get_elem? c.p_sat_grid idx
          let w = mixture_weight p0 p1 pressure
          sat_read (λ xs. weighted_at xs idx w) c)

  -- The temperature of a single phase, from a guess and with a default heat capacity.
  abbrev pub phase_temperature : BoilerTables F → F → F → F → F → Option F
  phase_temperature k h_out pressure guess cp_default =
      solve_temperature_from_enthalpy_jit h_out pressure guess k.p_grid k.t_grid k.h_lut k.c_lut
        cp_default (lit 1 2) 20

  abbrev pub vapor_fraction : SatPoint F → F → F
  vapor_fraction s h_out =
      let denom = s.h_sat_vap ⊖ s.h_sat_liq in
      if lt (lit 1 6) denom then (h_out ⊖ s.h_sat_liq) ⊘ denom else lit 0 0

  abbrev pub flash_at : BoilerTables F → SatPoint F → F → F → Option (Flashed F)
  flash_at k s h_out pressure =
      if lt h_out s.h_sat_liq
      then (do
        t ← phase_temperature k h_out pressure (s.t_sat ⊖ lit 100 1) (lit 41800 1)
        some (record { t_out = t; vapor_frac = lit 0 0; phase = 0 }))
      else if lt s.h_sat_vap h_out
      then (do
        t ← phase_temperature k h_out pressure (s.t_sat ⊕ lit 100 1) (lit 20800 1)
        some (record { t_out = t; vapor_frac = lit 1 0; phase = 2 }))
      else some (record { t_out = s.t_sat; vapor_frac = vapor_fraction s h_out; phase = 1 })

  -- `T_in` is not read.
  unfoldable pub calc_boiler_flash_jit :
      SatCurve F → BoilerTables F → F → F → F → Option (Flashed F)
  unfolding saturation_at
  calc_boiler_flash_jit c k h_out pressure t_in = do
    s ← saturation_at c pressure
    flash_at k s h_out pressure

  unfoldable pub scenario_loop : List F → List F → F → List F → ℕ → Option (List F)
  scenario_loop flows powers efficiency [] i = some []
  scenario_loop flows powers efficiency (h_in ∷ rest) i = do
    flow ← get_elem? flows i
    power ← get_elem? powers i
    done ← scenario_loop flows powers efficiency rest (suc i)
    some (calc_boiler_outlet_enthalpy h_in flow power efficiency ∷ done)

  pub calc_boiler_batch_scenario : List F → List F → List F → F → Option (List F)
  unfolding scenario_loop
  calc_boiler_batch_scenario h_in_array flow_array power_array efficiency =
      scenario_loop flow_array power_array efficiency h_in_array 0

  module _ (c : SatCurve F) (k : BoilerTables F) (efficiency : F) (is_water : Bool) (cp_gas : F)
      (inputs : BoilerInputs F) where
    -- Only water reads the pressure; for a gas a zero heat capacity divides by zero, which is `none`.
    unfoldable pub boiler_row : F → ℕ → Option (BoilerRow F)
    unfolding calc_boiler_flash_jit
    boiler_row h_in i = do
      flow ← get_elem? inputs.flow_array i
      power ← get_elem? inputs.power_array i
      let h_out = calc_boiler_outlet_enthalpy h_in flow power efficiency
      if is_water
          then (do
            pressure ← get_elem? inputs.pressure_array i
            t_in ← get_elem? inputs.t_in_array i
            f ← calc_boiler_flash_jit c k h_out pressure t_in
            some (record { h_out = h_out; flashed = f }))
          else (do
            t_in ← get_elem? inputs.t_in_array i
            if eq cp_gas (lit 0 0)
                then none
                else some (record {
                  h_out = h_out;
                  flashed = record {
                    t_out = t_in ⊕ (h_out ⊖ h_in) ⊘ cp_gas;
                    vapor_frac = lit 0 0;
                    phase = 2;
                  };
                }))

    unfoldable pub boiler_loop : List F → ℕ → Option (List (BoilerRow F))
    unfolding boiler_row
    boiler_loop [] i = some []
    boiler_loop (h_in ∷ rest) i = do
      row ← boiler_row h_in i
      rows ← boiler_loop rest (suc i)
      some (row ∷ rows)

    unfoldable pub calc_boiler_batch_full : List F → Option (List (BoilerRow F))
    unfolding boiler_loop
    calc_boiler_batch_full h_in_array = boiler_loop h_in_array 0
