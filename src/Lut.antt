-- ===== src/Lut.antt =====
-- physical_engine/optimization/lut_manager.py: the tables of fluid properties, their state and their
-- files. CoolProp, which the code may lack, is a parameter, and so are the NumPy calls that only
-- this file makes. `LUTConfig` never changes, so the bounds that the constructor copies from it are
-- read from it here. A read outside an array is an `index_error`, as in Python.
mod Names
pub mod Generate
pub mod Cache
pub mod Water
pub mod Startup
pub mod Lookup
pub mod Reload
pub mod RoundTrip
pub mod Outcome
pub mod Restart
pub mod Memo
pub mod Pem
pub mod Shapes
pub mod Species
pub mod Answers
pub mod Density
pub use Names.*
use matrix_factory.Prelude.{ℕ, Bool, false, ◌&&◌, Option, none, List, [], Result, Error}
use matrix_factory.Float.{Float}

-- A 2D array, a row for each pressure.
abbrev pub Table : Type 0 → Type 0
Table F = List (List F)

-- The tables of one fluid.
abbrev pub Tables : Type 0 → Type 0
Tables F = List (Property × Table F)

pub record LutConfig (F : Type 0) : Type 0 where
  pub pressure_min : F
  pub pressure_max : F
  pub pressure_points : ℕ
  pub temperature_min : F
  pub temperature_max : F
  pub temperature_points : ℕ
  pub entropy_min : F
  pub entropy_max : F
  pub entropy_points : ℕ
  pub properties : List Property
  pub fluids : List FluidName

-- The stacked arrays: for each property a table for each fluid of the configuration.
pub record Stacked (F : Type 0) : Type 0 where
  pub stacked_h : List (Table F)
  pub stacked_s : List (Table F)
  pub stacked_c : List (Table F)
  pub stacked_d : List (Table F)
  pub stacked_z : List (Table F)
  pub stacked_h_from_ps : List (Table F)

-- `_saturation_temp_grid` and the three curves of `_saturation_lut`, which are written together.
pub record Saturation (F : Type 0) : Type 0 where
  pub temp_grid : List F
  pub p_sat : List F
  pub h_liq : List F
  pub h_vap : List F

-- The dictionary that `get_saturation_properties` returns.
pub record SaturationProperties (F : Type 0) : Type 0 where
  pub t_sat_k : F
  pub h_f_jkg : F
  pub h_g_jkg : F

-- `register_custom_table`'s entry.
pub record CustomTable (F : Type 0) : Type 0 where
  pub values : Table F
  pub axis0 : List F
  pub axis1 : List F

-- The manager. A grid that is `None` is empty here: no operation reads it before `initialize`.
-- `sat_cache` is the memo's pressure with its result. `pem_vcell` is `none` as long as the object has
-- no attribute `_custom_luts`, and else that dictionary's entry.
pub record LutManager (F : Type 0) : Type 0 where
  pub initialized : Bool
  pub config : LutConfig F
  pub luts : List (FluidName × Tables F)
  pub pressure_grid : List F
  pub temperature_grid : List F
  pub entropy_grid : List F
  pub stacked : Option (Stacked F)
  pub saturation : Option (Saturation F)
  pub clamp_counter : ℕ
  pub sat_cache : Option (F × SaturationProperties F)
  pub pem_vcell : Option (Option (CustomTable F))

-- `PropsSI` of CoolProp with the pairs of inputs that the code gives it.
pub record CoolProp (F : Type 0) : Type 0 where
  -- ('P', p, 'T', t)
  pub props_si : Property → F → F → FluidName → Result F
  -- 'H' at ('P', p, 'S', s)
  pub props_si_ps : F → F → FluidName → Result F
  -- water at ('T', t, 'Q', q): 'P' and 'H'
  pub p_tq : F → F → Result F
  pub h_tq : F → F → Result F
  -- water at ('P', p, 'Q', q): 'T' and 'H'
  pub t_pq : F → F → Result F
  pub h_pq : F → F → Result F

-- `np.geomspace`, `np.nan`, `np.interp(x, xp, fp)`, and the file name's configuration hash.
pub record LutNumpy (F : Type 0) : Type 0 where
  pub geomspace : F → F → ℕ → List F
  pub nan : F
  pub interp : F → List F → List F → F
  pub md5 : LutConfig F → ℕ

-- A file: absent, unreadable with the exception that reading it raises, or its contents.
pub data CacheFile (A : Type 0) : Type 0 where
  absent : CacheFile A
  unreadable : Error → CacheFile A
  contents : A → CacheFile A

-- stacked_luts_v2.npz
pub record StackedFile (F : Type 0) : Type 0 where
  pub arrays : Stacked F
  pub pressure_grid : List F
  pub temperature_grid : List F
  pub entropy_grid : List F
  pub config_hash : ℕ

-- lut_<fluid>_v1.pkl
pub record FluidFile (F : Type 0) : Type 0 where
  pub lut : Tables F
  pub pressure_grid : List F
  pub temperature_grid : List F
  pub entropy_grid : List F
  pub config : LutConfig F

-- The cache directory.
pub record CacheDir (F : Type 0) : Type 0 where
  pub stacked_luts : CacheFile (StackedFile F)
  pub fluid_luts : FluidName → CacheFile (FluidFile F)

module _ {F : Type 0} ⦃fl : Float F⦄ where
  unfoldable pub new_manager : LutConfig F → LutManager F
  new_manager config = record {
    initialized = false;
    config = config;
    luts = [];
    pressure_grid = [];
    temperature_grid = [];
    entropy_grid = [];
    stacked = none;
    saturation = none;
    clamp_counter = 0;
    sat_cache = none;
    pem_vcell = none;
  }

  -- `_in_bounds`
  abbrev pub in_bounds : LutManager F → F → F → Bool
  in_bounds m pressure temperature =
      fl.le m.config.pressure_min pressure
      && fl.le pressure m.config.pressure_max
      && (fl.le m.config.temperature_min temperature && fl.le temperature m.config.temperature_max)
