-- ===== src/Examples/Bank.antt =====
-- The storage bank and the tank of the bench.
use matrix_factory.Prelude.{refl, ◌≡◌, some, get_elem?, All, Result, err, value_error}
use matrix_factory.Prelude.Int.{◌-ℤ◌}
use matrix_factory.Float.{◌⊖◌, Le}
use matrix_factory.Float.Fixed.{Fixed, fixed_float, fixed_numpy}
use matrix_factory.Float.Fixed.Laws.{
  Fixed-IsOrdered, Fixed-IsNumpy, Fixed-IsRounded, Fixed-IsSubtraction,
}
use matrix_factory.Tanks.{Tank, empty, distribute_mass_to_tanks}
use matrix_factory.Tanks.Filled.{IsFit, IsTopped, overflow_only_if_IsTopped}
use matrix_factory.Tank.{TankArray, discharge}
use matrix_factory.Tank.Balance.{IsTank}
use matrix_factory.Tank.Discharge.{discharge_lem}
use matrix_factory.Examples.Data.{num, tank, bank}

bank-IsFit : All (λ t. IsFit t) bank
unfolding ◌-ℤ◌
bank-IsFit = (
  record { nonneg = refl; within = refl; finite = refl },
  (
    record { nonneg = refl; within = refl; finite = refl },
    (record { nonneg = refl; within = refl; finite = refl }, tt),
  ),
)

-- The empty tank takes all it holds, and 2 kg of the 7 are left over.
overflow_only_if_IsTopped_example :
    (t' : Tank Fixed) × (get_elem? (distribute_mass_to_tanks (num 7 0) bank).0 2 ≡ some t')
    × IsTopped (tank empty 0 4) t'
unfolding distribute_mass_to_tanks ◌-ℤ◌
overflow_only_if_IsTopped_example =
    overflow_only_if_IsTopped Fixed-IsOrdered Fixed-IsRounded Fixed-IsSubtraction (num 7 0) bank 2
      (tank empty 0 4) refl bank-IsFit refl refl refl

abbrev half_full : TankArray Fixed
half_full = record {
  capacity_kg = num 5 0;
  volume_m3 = num 5 1;
  temperature_k = num 29815 2;
  mass_kg = num 2 0;
  pressure_bar = num 3 0;
}

-- Tables that are not loaded.
abbrev no_tables : Fixed → Fixed → Result Fixed
no_tables rho t = err value_error

half_full-IsTank : IsTank half_full
half_full-IsTank = record { nonneg = refl; within = refl }

discharge_lem_example :
    let (s', delivered) = discharge fixed_numpy no_tables (num 3 0) half_full in
    IsTank s'
    × Le (num 0 0) delivered
    × Le delivered (num 3 0)
    × Le delivered (num 2 0)
    × (s'.mass_kg ≡ num 2 0 ⊖ delivered)
unfolding ◌-ℤ◌
discharge_lem_example =
    discharge_lem fixed_numpy Fixed-IsOrdered Fixed-IsNumpy Fixed-IsSubtraction no_tables half_full
      (num 3 0) half_full-IsTank refl refl
