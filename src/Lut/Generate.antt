-- ===== src/Lut/Generate.antt =====
-- `LUTManager._generate_lut`: the tables of a fluid, arrays of the configured shape, filled over the grids.
use matrix_factory.Prelude.{
  ℕ, Option, none, some, List, [], ◌∷◌, Result, ok, err, value_error, index_error, runtime_error,
  initialization_error, Error, ◌>>=◌, insert,
}
use matrix_factory.Float.{Float}
use matrix_factory.Lut.Cache.{zeros}
use matrix_factory.Lut.{
  FluidName, Property, h_from_ps, Property-HasCode, Table, Tables, LutManager, CoolProp, LutNumpy,
}

-- What a failing call of CoolProp leaves in the table. `ValueError` and `IndexError` say that the
-- fluid has no such state.
abbrev pub entry_of_error : {F : Type 0} → LutNumpy F → Error → Result F
entry_of_error nl value_error = ok nl.nan
entry_of_error nl index_error = ok nl.nan
entry_of_error nl _ = err initialization_error

module _ {F : Type 0} ⦃fl : Float F⦄ (nl : LutNumpy F) where
  abbrev pub table_entry : Result F → Result F
  table_entry (ok value) = ok value
  table_entry (err e) = entry_of_error nl e

  -- The loop over the points of the second grid, on a row of the table; a write behind its end raises.
  unfoldable pub write_row : (F → Result F) → List F → List F → Result (List F)
  write_row f [] cells = ok cells
  write_row f (y ∷ ys) [] = do value ← table_entry (f y); err index_error
  write_row f (y ∷ ys) (c ∷ cells) = do
    value ← table_entry (f y)
    rest ← write_row f ys cells
    ok (value ∷ rest)

  -- The loop over the points of the first grid. Behind the last row any write raises.
  unfoldable pub write_rows : (F → F → Result F) → List F → List F → Table F → Result (Table F)
  unfolding write_row
  write_rows f ys [] table = ok table
  write_rows f ys (x ∷ xs) [] = do none_written ← write_row (f x) ys []; write_rows f ys xs []
  write_rows f ys (x ∷ xs) (row ∷ table) = do
    written ← write_row (f x) ys row
    rest ← write_rows f ys xs table
    ok (written ∷ rest)

  -- A table of the wanted numbers of points, filled over two grids.
  unfoldable pub generate_table : (F → F → Result F) → ℕ → ℕ → List F → List F → Result (Table F)
  unfolding write_rows
  generate_table f rows columns xs ys = write_rows f ys xs (zeros rows columns)

  abbrev pub generate_properties :
      CoolProp F → LutManager F → FluidName → List Property → Tables F → Result (Tables F)
  generate_properties cp m fluid [] lut = ok lut
  generate_properties cp m fluid (prop ∷ rest) lut = do
    table ←
        generate_table (λ p t. cp.props_si prop p t fluid) m.config.pressure_points
          m.config.temperature_points m.pressure_grid m.temperature_grid
    generate_properties cp m fluid rest (insert prop table lut)

  unfoldable pub generate_lut : Option (CoolProp F) → LutManager F → FluidName → Result (Tables F)
  generate_lut none m fluid = err runtime_error
  generate_lut (some cp) m fluid = do
    lut ← generate_properties cp m fluid m.config.properties []
    table ←
        generate_table (λ p s. cp.props_si_ps p s fluid) m.config.pressure_points
          m.config.entropy_points m.pressure_grid m.entropy_grid
    ok (insert h_from_ps table lut)
