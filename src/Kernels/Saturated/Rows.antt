-- ===== src/Kernels/Saturated/Rows.antt =====
-- The rows of `calc_boiler_batch_full`.
use matrix_factory.Prelude.{
  ℕ, suc, ◌+◌, ◌≤◌, ◌<◌, ◌≡◌, refl, inl, inr, ◌⊎◌, Bool, true, false, List, [], ◌∷◌, some, length,
  get_elem?-some, Bool-cases, All, arith,
}
use matrix_factory.Float.{Float, ◌⊕◌, ◌⊖◌, ◌⊘◌, IsNum, IsOrdered, IsRounded}
use matrix_factory.Kernels.{Within}
use matrix_factory.Kernels.Mixtures.{calc_boiler_outlet_enthalpy}
use matrix_factory.Kernels.Boiler.{
  SatCurve, BoilerTables, BoilerRow, BoilerInputs, boiler_row, boiler_loop, calc_boiler_batch_full,
}
use matrix_factory.Kernels.Saturated.{
  IsCurve, IsBoilerTables, zero_unit, calc_boiler_flash_jit-Within,
}

-- Input arrays as long as that of the inlet enthalpies.
pub record IsInputs {F : Type 0} (n : ℕ) (inputs : BoilerInputs F) : Type 0 where
  pub flows : length inputs.flow_array ≡ n
  pub powers : length inputs.power_array ≡ n
  pub pressures : length inputs.pressure_array ≡ n
  pub temperatures_in : length inputs.t_in_array ≡ n

module _ {F : Type 0} ⦃fl : Float F⦄ (laws : IsOrdered F) (rounded : IsRounded F) where
  open fl use {lit}

  -- What a row of the batch satisfies.
  pub IsRow : BoilerRow F → Type 0
  IsRow row =
      (row.flashed.phase ≤ 2)
      × (IsNum row.flashed.vapor_frac → Within (lit 0 0) (lit 1 0) row.flashed.vapor_frac)

  module _ (c : SatCurve F) (k : BoilerTables F) (efficiency : F) (is_water : Bool) (cp_gas : F)
      (inputs : BoilerInputs F) (curve : IsCurve c) (tables : IsBoilerTables k)
      (divides : (is_water ≡ true) ⊎ (fl.eq cp_gas (lit 0 0) ≡ false)) where
    gas_divides :
        is_water ≡ false
        → (is_water ≡ true) ⊎ (fl.eq cp_gas (lit 0 0) ≡ false)
        → fl.eq cp_gas (lit 0 0) ≡ false
    gas_divides gas (inl water) = cc
    gas_divides gas (inr nonzero) = nonzero

    boiler_row-some :
        (n : ℕ) (h_in : F) (i : ℕ)
        → IsInputs n inputs
        → i < n
        → (row : BoilerRow F) × (boiler_row c k efficiency is_water cp_gas inputs h_in i ≡ some row)
          × IsRow row
    unfolding boiler_row IsRow
    boiler_row-some n h_in i long inside =
        let (flow, a) = get_elem?-some inputs.flow_array i (omega (arith, long.flows)) in
        let (power, b) = get_elem?-some inputs.power_array i (omega (arith, long.powers)) in
        let (p, d) = get_elem?-some inputs.pressure_array i (omega (arith, long.pressures)) in
        let (t_in, e) = get_elem?-some inputs.t_in_array i (omega (arith, long.temperatures_in)) in
        let h_out = calc_boiler_outlet_enthalpy h_in flow power efficiency in
        elim (Bool-cases is_water) [
          | inl y ↦
              let (f, q, small, range) =
                calc_boiler_flash_jit-Within laws rounded c k
                  (calc_boiler_outlet_enthalpy h_in flow power efficiency) p t_in curve tables in
              (record { h_out = h_out; flashed = f }, rw (a, b, y, d, e, q) refl, (small, range))
          | inr gas ↦
              let nonzero = gas_divides gas divides in
              (
                record {
                  h_out = h_out;
                  flashed = record {
                    t_out = t_in ⊕ (h_out ⊖ h_in) ⊘ cp_gas;
                    vapor_frac = lit 0 0;
                    phase = 2;
                  };
                },
                rw (a, b, gas, e, nonzero) refl,
                (omega arith, λ m. zero_unit laws rounded),
              )
        ]

    boiler_loop-some :
        (n : ℕ) (h_ins : List F) (i : ℕ)
        → IsInputs n inputs
        → i + length h_ins ≡ n
        → (rows : List (BoilerRow F)) × (boiler_loop c k efficiency is_water cp_gas inputs h_ins i
            ≡ some rows)
          × (length rows ≡ length h_ins)
          × All (λ row. IsRow row) rows
    unfolding boiler_loop
    boiler_loop-some n [] i long sum = ([], refl, refl, tt)
    boiler_loop-some n (h_in ∷ rest) i long sum =
        let (row, a, good) = boiler_row-some n h_in i long (omega arith) in
        let (rows, b, same, all) = boiler_loop-some n rest (suc i) long (omega arith) in
        (row ∷ rows, rw (a, b) refl, omega arith, (good, all))

    -- With saturation arrays of one length, tables of their grids' shape and input arrays of one
    -- length, and for a gas a heat capacity that is not zero, the batch returns a row for each inlet
    -- enthalpy, whatever the other values, and in each row the phase is 0, 1 or 2 and a vapor fraction that is a number lies between 0 and 1.
    pub calc_boiler_batch_full_lem :
        (h_in_array : List F)
        → IsInputs (length h_in_array) inputs
        → (rows : List (BoilerRow F)) × (calc_boiler_batch_full c k efficiency is_water cp_gas
              inputs h_in_array
            ≡ some rows)
          × (length rows ≡ length h_in_array)
          × All (λ row. IsRow row) rows
    unfolding calc_boiler_batch_full
    calc_boiler_batch_full_lem h_in_array long =
        boiler_loop-some (length h_in_array) h_in_array 0 long (omega arith)
