-- ===== src/Examples/Kernels.antt =====
-- The kernels for flashes, heat exchangers and compression.
use matrix_factory.Prelude.{inl, refl, ◌≡◌, List, [], ◌∷◌, some, arith, true, length, All}
use matrix_factory.Float.Fixed.{Fixed, fixed_float}
use matrix_factory.Float.Fixed.Laws.{Fixed-IsOrdered, Fixed-IsRounded}
use matrix_factory.Grid.Cells.{IsTable}
use matrix_factory.Kernels.Boiler.{
  SatCurve, BoilerTables, BoilerRow, BoilerInputs, calc_boiler_batch_full,
}
use matrix_factory.Kernels.Saturated.Rows.{IsRow, calc_boiler_batch_full_lem}
use matrix_factory.Examples.Data.{num}

abbrev flat : List (List Fixed)
flat = (num 1 0 ∷ num 2 0 ∷ []) ∷ (num 1 0 ∷ num 2 0 ∷ []) ∷ []

flat-IsTable : IsTable (num 1 0 ∷ num 2 0 ∷ []) (num 300 0 ∷ num 400 0 ∷ []) flat
flat-IsTable = record { rows = refl; columns = (refl, (refl, tt)) }

-- A saturation curve of two points.
abbrev curve : SatCurve Fixed
curve = record {
  p_sat_grid = num 1 0 ∷ num 2 0 ∷ [];
  t_sat_grid = num 300 0 ∷ num 400 0 ∷ [];
  h_liq_sat = num 10 0 ∷ num 20 0 ∷ [];
  h_vap_sat = num 30 0 ∷ num 40 0 ∷ [];
}

abbrev boiler_tables : BoilerTables Fixed
boiler_tables = record {
  p_grid = num 1 0 ∷ num 2 0 ∷ [];
  t_grid = num 300 0 ∷ num 400 0 ∷ [];
  h_lut = flat;
  c_lut = flat;
}

abbrev one_step : BoilerInputs Fixed
one_step = record {
  flow_array = num 3600 0 ∷ [];
  power_array = num 10 0 ∷ [];
  pressure_array = num 15 1 ∷ [];
  t_in_array = num 300 0 ∷ [];
}

calc_boiler_batch_full_lem_example :
    (rows : List (BoilerRow Fixed)) × (calc_boiler_batch_full curve boiler_tables
        (num 1 0)
        true
        (num 14304 0)
        one_step
        (num 15 0 ∷ [])
      ≡ some rows)
    × (length rows ≡ length (num 15 0 ∷ []))
    × All (λ row. IsRow Fixed-IsOrdered Fixed-IsRounded row) rows
calc_boiler_batch_full_lem_example =
    calc_boiler_batch_full_lem Fixed-IsOrdered Fixed-IsRounded curve boiler_tables (num 1 0) true
      (num 14304 0) one_step
      (record { some_point = omega arith; temperatures = refl; liquids = refl; vapors = refl })
      (record {
        pressures_two = omega arith;
        temperatures_two = omega arith;
        enthalpies = flat-IsTable;
        capacities = flat-IsTable;
      })
      (inl refl) (num 15 0 ∷ [])
      (record { flows = refl; powers = refl; pressures = refl; temperatures_in = refl })
