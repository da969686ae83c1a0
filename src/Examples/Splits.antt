-- ===== src/Examples/Splits.antt =====
-- The interchanger and the cooler.
use matrix_factory.Prelude.{◌≡◌, refl, inl, inr, Bool-cases, true, some, none, List, [], ◌∷◌, arith}
use matrix_factory.Prelude.Int.{ℤ, pos, ltb_ℤ, leb_ℤ}
use matrix_factory.Float.{IsNum}
use matrix_factory.Float.Fixed.{Fixed, fixed_float, fixed_numpy, test₂, mul_fixed}
use matrix_factory.Float.Fixed.Laws.{
  Fixed-IsOrdered, Fixed-IsNumpy, Fixed-IsRounded, Fixed-IsMidpoint,
}
use matrix_factory.Grid.Cells.{IsTable}
use matrix_factory.Kernels.Interchanger.{
  SplitFeed, SplitTables, Outlet, solve_interchanger_flash_jit,
}
use matrix_factory.Kernels.Interchanger.Range.{
  IsStack, IsOutlet, solve_interchanger_flash_jit-IsOutlet,
}
use matrix_factory.Examples.Data.{num}

abbrev pressures : List Fixed
pressures = num 100000 0 ∷ num 1000000 0 ∷ []

abbrev temperatures : List Fixed
temperatures = num 270 0 ∷ num 400 0 ∷ []

abbrev enthalpies : List (List Fixed)
enthalpies = (num 1000 0 ∷ num 2000 0 ∷ []) ∷ (num 1500 0 ∷ num 2500 0 ∷ []) ∷ []

abbrev tables : SplitTables Fixed
tables = record {
  stacked_h = enthalpies ∷ enthalpies ∷ enthalpies ∷ enthalpies ∷ enthalpies ∷ enthalpies ∷ [];
  p_grid = pressures;
  t_grid = temperatures;
}

abbrev feed : SplitFeed Fixed
feed = record {
  z_h2o_mole = num 1 1;
  m_mix_feed = num 4 3;
  p_system = num 200000 0;
  lut_mass_fracs = num 9 1 ∷ num 0 0 ∷ num 0 0 ∷ num 0 0 ∷ num 0 0 ∷ num 1 1 ∷ [];
}

enthalpies-IsTable : IsTable pressures temperatures enthalpies
enthalpies-IsTable = record { rows = refl; columns = (refl, (refl, tt)) }

tables-IsStack : IsStack tables feed.lut_mass_fracs
tables-IsStack = record {
  pressures = record {
    long = omega arith;
    sorted = ((refl, tt), (tt, tt));
    numbers = (refl, (refl, tt));
  };
  temperatures = record {
    long = omega arith;
    sorted = ((refl, tt), (tt, tt));
    numbers = (refl, (refl, tt));
  };
  water = omega arith;
  tables = (
    enthalpies-IsTable,
    (
      enthalpies-IsTable,
      (enthalpies-IsTable, (enthalpies-IsTable, (enthalpies-IsTable, (enthalpies-IsTable, tt)))),
    ),
  );
  fractions = omega arith;
}

leb_ℤ_refl : (z : ℤ) → leb_ℤ z z ≡ true
leb_ℤ_refl z = ground arith

scaled : (y : Fixed) → IsNum y → IsNum (fixed_float.mul feed.p_system (fixed_float.max y (num 1 6)))
scaled none n = cc
scaled (some a) n = elim (Bool-cases (test₂ ltb_ℤ (some a) (num 1 6))) [
  | inl e ↦ rw e (leb_ℤ_refl (mul_fixed (pos 200000000000000000) (pos 1000000)))
  | inr e ↦ rw e (leb_ℤ_refl (mul_fixed (pos 200000000000000000) a))
]

solve_interchanger_flash_jit-IsOutlet_example :
    (out : Outlet Fixed) × (solve_interchanger_flash_jit fixed_numpy feed tables
        (num 1600 0)
        (num 380 0)
        40
        (num 100 0)
      ≡ some out)
    × IsOutlet 40 (num 380 0) out
solve_interchanger_flash_jit-IsOutlet_example =
    solve_interchanger_flash_jit-IsOutlet fixed_numpy Fixed-IsOrdered Fixed-IsNumpy Fixed-IsRounded
      feed tables tables-IsStack refl refl scaled Fixed-IsMidpoint (num 1600 0) (num 100 0)
      (num 380 0) refl refl 40 refl
