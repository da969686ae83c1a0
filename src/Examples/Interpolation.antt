-- ===== src/Examples/Interpolation.antt =====
-- The grids and the spline.
use matrix_factory.Prelude.{refl, inl, ◌≡◌, List, [], ◌∷◌, none, some, arith}
use matrix_factory.Float.Fixed.{Fixed, fixed_float, fixed_numpy}
use matrix_factory.Float.Fixed.Laws.{Fixed-IsOrdered, Fixed-IsNumpy}
use matrix_factory.Grid.{bilinear_interp_jit}
use matrix_factory.Grid.Cells.{IsGrid, IsTable, bilinear_interp_in_table, bilinear_interp_nan}
use matrix_factory.Grid.Spline.{Cubic}
use matrix_factory.Examples.Data.{num}

abbrev grid : List Fixed
grid = num 1 0 ∷ num 2 0 ∷ num 4 0 ∷ []

abbrev table : List (List Fixed)
table =
    (num 1 0 ∷ num 2 0 ∷ num 3 0 ∷ [])
    ∷ (num 2 0 ∷ num 3 0 ∷ num 4 0 ∷ [])
    ∷ (num 3 0 ∷ num 4 0 ∷ num 5 0 ∷ [])
    ∷ []

grid-IsGrid : IsGrid grid
grid-IsGrid = record {
  long = omega arith;
  sorted = ((refl, (refl, tt)), ((refl, tt), (tt, tt)));
  numbers = (refl, (refl, (refl, tt)));
}

table-IsTable : IsTable grid grid table
table-IsTable = record { rows = refl; columns = (refl, (refl, (refl, tt))) }

bilinear_interp_in_table_example :
    (v : Fixed) × (bilinear_interp_jit fixed_numpy grid grid table (num 3 0) (num 9 0) ≡ some v)
bilinear_interp_in_table_example =
    bilinear_interp_in_table fixed_numpy Fixed-IsOrdered Fixed-IsNumpy grid grid table (num 3 0)
      (num 9 0) grid-IsGrid grid-IsGrid table-IsTable refl refl

bilinear_interp_nan_example : bilinear_interp_jit fixed_numpy grid grid table none (num 3 0) ≡ none
bilinear_interp_nan_example =
    bilinear_interp_nan fixed_numpy Fixed-IsOrdered Fixed-IsNumpy grid grid table none (num 3 0)
      grid-IsGrid grid-IsGrid (inl refl)

abbrev row : Cubic Fixed
row = record { a = num 50 0; b = num 1 1; c = num 0 0; d = num 0 0 }
