-- ===== src/Examples/Data.antt =====
-- The inputs of the examples.
use matrix_factory.Prelude.{ℕ, List, [], ◌∷◌}
use matrix_factory.Float.Fixed.{Fixed, lit_fixed, fixed_float}
use matrix_factory.Tanks.{Tank, TankState, idle, empty, full}
use matrix_factory.Pemfc.{Stack}

-- n · 10^-k
abbrev pub num : ℕ → ℕ → Fixed
num = lit_fixed

abbrev pub tank : TankState → ℕ → ℕ → Tank Fixed
tank state mass capacity = record {
  state = state;
  mass = num mass 0;
  capacity = num capacity 0;
  temperature = num 300 0;
  volume = num 1 0;
  pressure = num 0 0;
}

-- A tank that is all but full, one that is not to be filled, and an empty one.
abbrev pub bank : List (Tank Fixed)
bank = tank idle 9 10 ∷ tank full 5 20 ∷ tank empty 0 4 ∷ []

abbrev pub stack : Stack Fixed
stack = record {
  a_h2 = num 1 0;
  a_o2 = num 1 0;
  r_internal = num 6 2;
  n_cells = 1;
  ecsa_ratio = num 1 0;
  lambda_mem = num 14 0;
  j_lim = num 25 1;
}
