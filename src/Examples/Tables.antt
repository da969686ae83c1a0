-- ===== src/Examples/Tables.antt =====
-- The tables of fluid properties.
use matrix_factory.Prelude.{
  refl, ◌≡◌, List, [], ◌∷◌, none, some, Result, ok, err, value_error, map, length, arith, not,
  if◌then◌else◌,
}
use matrix_factory.Prelude.Int.{◌+ℤ◌}
use matrix_factory.Float.Fixed.{Fixed, fixed_float, fixed_numpy, linspace_fixed, linspace_from}
use matrix_factory.Float.Fixed.Laws.{Fixed-IsOrdered, Fixed-IsRounded, Fixed-IsNumpy}
use matrix_factory.Grid.Cells.{IsGrid}
use matrix_factory.Lut.{
  h2, co, Property-HasCode, density, enthalpy, entropy, heat_capacity, compressibility, h_from_ps,
  Table, Tables, LutConfig, LutManager, SaturationProperties, CoolProp, LutNumpy, CacheDir, absent,
  unreadable, new_manager, in_bounds,
}
use matrix_factory.Lut.Generate.{generate_lut, generate_table, write_rows, write_row}
use matrix_factory.Lut.Shapes.{HasGenerated, generate_lut-IsGenerated}
use matrix_factory.Lut.Cache.{zeros, stack_arrays, stack_luts, try_stacked}
use matrix_factory.Lut.RoundTrip.{IsReloaded, load-stacked_file}
use matrix_factory.Lut.Startup.{
  load_fluid, initialize, initialize_locked, slow_path, load_fluids, set_grids,
}
use matrix_factory.Lut.Restart.{initialize_again, initialize_unreadable}
use matrix_factory.Lut.Lookup.{lookup, bind_lookup, fallback_coolprop, interpolate_2d}
use matrix_factory.Lut.Answers.{HasTable, bind_lookup-eq-lookup, lookup_in_table}
use matrix_factory.Lut.Water.{generate_saturation_lut, get_saturation_properties}
use matrix_factory.Lut.Memo.{IsAnswered, get_saturation_properties-IsMemo}
use matrix_factory.Lut.Species.{
  get_species_map, remap_canonical_to_lut, fraction_of, remap_canonical_to_lut-get_species_map,
}
use matrix_factory.Examples.Data.{num}

abbrev grid : List Fixed
grid = num 1 0 ∷ num 2 0 ∷ num 4 0 ∷ []

abbrev table : Table Fixed
table =
    (num 1 0 ∷ num 2 0 ∷ num 3 0 ∷ [])
    ∷ (num 2 0 ∷ num 3 0 ∷ num 4 0 ∷ [])
    ∷ (num 3 0 ∷ num 4 0 ∷ num 5 0 ∷ [])
    ∷ []

abbrev lut_numpy : LutNumpy Fixed
lut_numpy = record {
  geomspace = linspace_fixed;
  nan = none;
  interp = λ x xp fp. x;
  md5 = λ config. 0;
}

-- Constant properties.
abbrev cool_prop : CoolProp Fixed
cool_prop = record {
  props_si = λ property p t fluid. ok p;
  props_si_ps = λ p s fluid. err value_error;
  p_tq = λ t q. ok t;
  h_tq = λ t q. ok t;
  t_pq = λ p q. ok p;
  h_pq = λ p q. ok p;
}

abbrev config : LutConfig Fixed
config = record {
  pressure_min = num 1 0;
  pressure_max = num 4 0;
  pressure_points = 3;
  temperature_min = num 1 0;
  temperature_max = num 4 0;
  temperature_points = 3;
  entropy_min = num 1 0;
  entropy_max = num 4 0;
  entropy_points = 3;
  properties = density ∷ enthalpy ∷ [];
  fluids = h2 ∷ co ∷ [];
}

abbrev full_tables : Tables Fixed
full_tables =
    (density, table)
    ∷ (enthalpy, table)
    ∷ (entropy, table)
    ∷ (heat_capacity, table)
    ∷ (compressibility, table)
    ∷ (h_from_ps, table)
    ∷ []

abbrev manager : LutManager Fixed
manager = record (new_manager config) {
  luts = (h2, full_tables) ∷ (co, (density, table) ∷ []) ∷ [];
  pressure_grid = grid;
  temperature_grid = grid;
  entropy_grid = grid;
}

grid-IsGrid : IsGrid grid
grid-IsGrid = record {
  long = omega arith;
  sorted = ((refl, (refl, tt)), ((refl, tt), (tt, tt)));
  numbers = (refl, (refl, (refl, tt)));
}

manager-HasTable : HasTable manager h2 density
unfolding new_manager
manager-HasTable = record {
  tables = full_tables;
  lut = table;
  found_fluid = refl;
  found_property = refl;
  pressures = grid-IsGrid;
  temperatures = grid-IsGrid;
  shape = record { rows = refl; columns = (refl, (refl, (refl, tt))) };
}

lookup_in_table_example :
    (v : Fixed) × (lookup none fixed_numpy manager h2 density (num 3 0) (num 2 0) ≡ ok v)
unfolding new_manager
lookup_in_table_example =
    lookup_in_table none fixed_numpy Fixed-IsOrdered Fixed-IsNumpy Fixed-IsRounded manager h2
      density (num 3 0) (num 2 0) manager-HasTable refl

-- What `bind_lookup` returns for hydrogen's density.
abbrev fast : Fixed → Fixed → Result Fixed
fast pressure temperature =
    if not (in_bounds manager pressure temperature)
    then fallback_coolprop none h2 density pressure temperature
    else interpolate_2d none fixed_numpy grid grid table pressure temperature

bind_lookup-fast : bind_lookup none fixed_numpy manager h2 density ≡ ok fast
unfolding bind_lookup new_manager
bind_lookup-fast = refl

bind_lookup-eq-lookup_example :
    fast (num 3 0) (num 2 0) ≡ lookup none fixed_numpy manager h2 density (num 3 0) (num 2 0)
bind_lookup-eq-lookup_example =
    bind_lookup-eq-lookup none fixed_numpy manager h2 density fast (num 3 0) (num 2 0)
      bind_lookup-fast

abbrev steam : SaturationProperties Fixed
steam = record { t_sat_k = num 1 0; h_f_jkg = num 2 0; h_g_jkg = num 3 0 }

get_saturation_properties-IsMemo_example :
    IsAnswered lut_numpy
      (some cool_prop)
      manager
      (num 2 0)
      (get_saturation_properties lut_numpy (some cool_prop) manager (num 2 0))
unfolding new_manager
get_saturation_properties-IsMemo_example =
    get_saturation_properties-IsMemo lut_numpy (some cool_prop) manager (num 2 0)
      (λ pressure result e. cc)

remap_canonical_to_lut-get_species_map_example :
    remap_canonical_to_lut
      (num 5 1 ∷ num 1 1 ∷ num 1 1 ∷ num 1 1 ∷ num 1 1 ∷ num 1 1 ∷ [])
      (num 2 1)
      (get_species_map manager)
    ≡ some (
        map
          (fraction_of (num 5 1) (num 1 1) (num 1 1) (num 1 1) (num 1 1) (num 3 1))
          (h2 ∷ co ∷ []))
unfolding new_manager ◌+ℤ◌
remap_canonical_to_lut-get_species_map_example =
    remap_canonical_to_lut-get_species_map (num 5 1) (num 1 1) (num 1 1) (num 1 1) (num 1 1)
      (num 1 1) manager (num 2 1) ((refl, tt), (tt, tt))

-- The stack of the example's tables.
abbrev stacked_manager : LutManager Fixed
stacked_manager = record manager {
  stacked = some (record {
    stacked_h = table ∷ zeros 3 3 ∷ [];
    stacked_s = table ∷ zeros 3 3 ∷ [];
    stacked_c = table ∷ zeros 3 3 ∷ [];
    stacked_d = table ∷ table ∷ [];
    stacked_z = table ∷ zeros 3 3 ∷ [];
    stacked_h_from_ps = table ∷ zeros 3 3 ∷ [];
  });
}

stack_luts-stacked_manager : stack_luts manager ≡ ok stacked_manager
unfolding stack_luts stack_arrays new_manager
stack_luts-stacked_manager = refl

load-stacked_file_example : IsReloaded lut_numpy manager stacked_manager (new_manager config)
unfolding new_manager
load-stacked_file_example =
    load-stacked_file lut_numpy manager stacked_manager (new_manager config) (λ e. cc)
      stack_luts-stacked_manager refl refl refl ((refl, tt), (tt, tt))

-- An empty cache directory.
abbrev empty_dir : CacheDir Fixed
empty_dir = record { stacked_luts = absent; fluid_luts = λ fluid. absent }

abbrev started : LutManager Fixed × CacheDir Fixed × Result (Unit {0})
started = initialize fixed_numpy lut_numpy (some cool_prop) (new_manager config) empty_dir empty_dir

started-ok : started.2 ≡ ok tt
unfolding initialize initialize_locked slow_path load_fluids load_fluid generate_lut stack_luts
    stack_arrays try_stacked new_manager generate_saturation_lut linspace_fixed linspace_from
    generate_table write_rows write_row
started-ok = refl

grid_length : length (linspace_fixed (num 1 0) (num 4 0) 3) ≡ 3
unfolding linspace_fixed linspace_from
grid_length = refl

initialize_again_example :
    (again : LutManager Fixed) × (initialize fixed_numpy lut_numpy none
        (new_manager config)
        started.1
        started.1
      ≡ (again, started.1, ok tt))
unfolding new_manager
initialize_again_example =
    initialize_again fixed_numpy lut_numpy (some cool_prop) config empty_dir {m' = started.0}
      {dir' = started.1}
      (record {
        pressures = grid_length;
        temperatures = grid_length;
        some_fluid = λ e. cc;
        distinct = ((refl, tt), (tt, tt));
      })
      (λ i. (started.0, started.1, started-ok i))

initialize_unreadable_example :
    initialize fixed_numpy lut_numpy
      (some cool_prop)
      manager
      (record empty_dir { stacked_luts = unreadable value_error })
      (record empty_dir { stacked_luts = unreadable value_error })
    ≡ (
      set_grids fixed_numpy lut_numpy (some cool_prop) manager,
      record empty_dir { stacked_luts = unreadable value_error },
      err value_error,
    )
initialize_unreadable_example =
    initialize_unreadable fixed_numpy lut_numpy (some cool_prop) manager
      (record empty_dir { stacked_luts = unreadable value_error }) value_error refl

-- The tables that the constant CoolProp gives.
abbrev flat : Table Fixed
flat =
    (num 1 0 ∷ num 1 0 ∷ num 1 0 ∷ [])
    ∷ (num 2 0 ∷ num 2 0 ∷ num 2 0 ∷ [])
    ∷ (num 4 0 ∷ num 4 0 ∷ num 4 0 ∷ [])
    ∷ []

abbrev no_entry : Table Fixed
no_entry = (none ∷ none ∷ none ∷ []) ∷ (none ∷ none ∷ none ∷ []) ∷ (none ∷ none ∷ none ∷ []) ∷ []

abbrev generated_tables : Tables Fixed
generated_tables = (density, flat) ∷ (enthalpy, flat) ∷ (h_from_ps, no_entry) ∷ []

generated : generate_lut lut_numpy (some cool_prop) manager h2 ≡ ok generated_tables
unfolding generate_lut generate_table write_rows write_row new_manager
generated = refl

generate_lut-IsGenerated_example :
    HasGenerated lut_numpy cool_prop manager h2 generated_tables enthalpy
unfolding new_manager
generate_lut-IsGenerated_example =
    generate_lut-IsGenerated lut_numpy cool_prop manager h2 generated_tables 1 enthalpy (λ e. cc)
      generated refl (λ e. cc)
