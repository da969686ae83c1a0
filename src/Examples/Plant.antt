-- ===== src/Examples/Plant.antt =====
-- The solid-oxide plant and the deoxidiser.
use matrix_factory.Prelude.{
  ℕ, ◌≤◌, ◌≡◌, ◌*◌, ◌+◌, ◌/◌, refl, some, none, List, [], ◌∷◌, length, get_elem?, arith,
}
use matrix_factory.Prelude.Int.{ℤ, pos, negsuc, ◌+ℤ◌, ◌-ℤ◌}
use matrix_factory.Float.{IsNum, Le}
use matrix_factory.Float.Fixed.{Fixed, fixed_float, fixed_numpy, unit}
use matrix_factory.Float.Fixed.Laws.{Fixed-IsOrdered, Fixed-IsRounded, Fixed-IsSigned}
use matrix_factory.Soec.{Ints, Module, Rating, simulate_soec_step_jit}
use matrix_factory.Soec.Arrays.{IsIdle}
use matrix_factory.Soec.Dispatch.{IsStep, simulate_soec_step_jit-IsStep}
use matrix_factory.Deoxo.{Reactor}
use matrix_factory.Deoxo.Multizone.{Zone, solve_deoxo_multizone_jit}
use matrix_factory.Deoxo.Fractions.{AreFractions, IsFraction}
use matrix_factory.Deoxo.Zones.{Ends, solve_deoxo_multizone_jit_lem}
use matrix_factory.Deoxo.Pfr.{solve_deoxo_pfr_step}
use matrix_factory.Deoxo.Bed.{IsPeak, solve_deoxo_pfr_step-IsPeak}
use matrix_factory.Examples.Data.{num}

abbrev whole : Fixed → ℤ
whole (some (pos n)) = pos (n / unit)
whole (some (negsuc n)) = pos 0
whole none = pos 0

abbrev fixed_ints : Ints Fixed
fixed_ints = record {
  int = whole;
  of_int = λ z. elim z [ pos n ↦ num n 0 | negsuc n ↦ fixed_float.neg (num n 0) ];
}

abbrev rating : Rating Fixed
rating = record {
  uniform_module_max_limit = num 20 0;
  power_standby_mw = num 1 2;
  power_first_step_mw = num 5 1;
  ramp_step_mw = num 1 0;
  minimum_total_power = num 0 0;
}

abbrev soec_module : ℕ → ℕ → Module Fixed
soec_module power state = record { power = num power 0; state = state; limit = num 20 0 }

-- Two of three modules are in the map; the plant is to go up by 3 MW.
abbrev plant : List (Module Fixed)
plant = soec_module 4 3 ∷ soec_module 7 3 ∷ soec_module 2 1 ∷ []

simulate_soec_step_jit-IsStep_example :
    (plant' : List (Module Fixed)) × (simulate_soec_step_jit rating fixed_ints
        (num 9 0)
        plant
        (2 ∷ 0 ∷ [])
      ≡ some plant')
    × (length plant' ≡ 3)
    × ((j : ℕ) → IsIdle (2 ∷ 0 ∷ []) j → get_elem? plant' j ≡ get_elem? plant j)
    × IsStep rating fixed_ints
        (num 9 0)
        plant
        (2 ∷ 0 ∷ [])
        (soec_module 2 1 ∷ soec_module 4 3 ∷ [])
        plant'
unfolding ◌+ℤ◌ ◌-ℤ◌
simulate_soec_step_jit-IsStep_example =
    simulate_soec_step_jit-IsStep rating Fixed-IsOrdered refl refl fixed_ints (num 9 0) plant
      (2 ∷ 0 ∷ []) (soec_module 2 1 ∷ soec_module 4 3 ∷ []) (omega arith) refl refl
      (λ o. cc (o.down))

abbrev reactor : Reactor Fixed
reactor = record {
  p_in_pa = num 100000 0;
  molar_flow_total = num 1 0;
  ea = num 50000 0;
  r_gas = num 8314 3;
  delta_h = num 250 0;
  t_jacket = num 300 0;
  area = num 1 2;
  cp_mix = num 30 0;
}

-- A zone that reacts and one of no length.
abbrev zones : List (Zone Fixed)
zones =
    record { l_zone = num 1 0; k0 = num 1 0; u_a = num 100 0 }
    ∷ record { l_zone = num 0 0; k0 = num 1 0; u_a = num 100 0 }
    ∷ []

solve_deoxo_multizone_jit_lem_example :
    Ends
      (λ run.
        (1 ≤ length run.profile)
        × (length run.profile ≤ length zones * (2 + 1) + 1)
        × AreFractions run.profile
        × IsFraction run.x_total
        × (IsNum (num 400 0) → Le (num 400 0) run.t_peak))
      (solve_deoxo_multizone_jit fixed_numpy reactor zones (num 400 0) (num 1 2) 2)
solve_deoxo_multizone_jit_lem_example =
    solve_deoxo_multizone_jit_lem fixed_numpy Fixed-IsOrdered Fixed-IsRounded Fixed-IsSigned reactor
      zones (num 400 0) (num 1 2) 2

solve_deoxo_pfr_step-IsPeak_example :
    IsPeak
      (solve_deoxo_pfr_step fixed_numpy reactor
        (num 1 0)
        (num 100 0)
        (num 1 2)
        (num 0 0)
        (num 1 0)
        10
        (num 400 0)).t_peak
      (solve_deoxo_pfr_step fixed_numpy reactor
        (num 1 0)
        (num 100 0)
        (num 1 2)
        (num 0 0)
        (num 1 0)
        10
        (num 400 0)).profile
solve_deoxo_pfr_step-IsPeak_example =
    solve_deoxo_pfr_step-IsPeak fixed_numpy Fixed-IsOrdered reactor (num 1 0) (num 100 0) (num 1 2)
      (num 0 0) (num 1 0) 10 (num 400 0) (omega arith) refl refl
