-- ===== src/Lut/Startup.antt =====
-- `LUTManager.initialize`: the stacked file first, without a lock; then, under the lock that the
-- daemons share, the stacked file again, and at last the fluids' files or CoolProp.
use matrix_factory.Prelude.{
  Bool, true, false, ◌&&◌, Option, none, some, List, [], ◌∷◌, ◌==◌, if◌then◌else◌, Result, ok, err,
  insert, same,
}
use matrix_factory.Float.{Float, Numpy}
use matrix_factory.Lut.{
  FluidName, FluidName-HasCode, Tables, LutConfig, LutManager, CoolProp, LutNumpy, absent,
  unreadable, contents, CacheDir,
}
use matrix_factory.Lut.Generate.{generate_lut}
use matrix_factory.Lut.Cache.{stack_luts, stacked_file, try_stacked}
use matrix_factory.Lut.Water.{generate_saturation_lut}

module _ {F : Type 0} ⦃fl : Float F⦄ where
  -- `_load_from_cache`'s `match`
  abbrev pub config_match : LutConfig F → LutConfig F → Bool
  config_match saved curr =
      fl.eq saved.pressure_min curr.pressure_min
      && fl.eq saved.pressure_max curr.pressure_max
      && saved.pressure_points == curr.pressure_points
      && (fl.eq saved.temperature_min curr.temperature_min
          && fl.eq saved.temperature_max curr.temperature_max
          && saved.temperature_points == curr.temperature_points)

  -- `_save_to_cache`
  abbrev pub save_to_cache : LutManager F → FluidName → Tables F → CacheDir F → CacheDir F
  save_to_cache m fluid lut dir = record dir {
    fluid_luts = λ f.
        if same f fluid
        then contents (record {
          lut = lut;
          pressure_grid = m.pressure_grid;
          temperature_grid = m.temperature_grid;
          entropy_grid = m.entropy_grid;
          config = m.config;
        })
        else dir.fluid_luts f;
  }

  module _ (np : Numpy F) (nl : LutNumpy F) (cp : Option (CoolProp F)) where
    abbrev pub generate_and_save :
        LutManager F → CacheDir F → FluidName → CacheDir F × Result (Tables F)
    generate_and_save m dir fluid = elim (generate_lut nl cp m fluid) [
      | ok lut ↦ (save_to_cache m fluid lut dir, ok lut)
      | err e ↦ (dir, err e)
    ]

    -- The body of the loop over the fluids: `_load_from_cache` generates the tables anew, and does
    -- not save them, where the file is of another configuration.
    unfoldable pub load_fluid :
        LutManager F → CacheDir F → FluidName → CacheDir F × Result (Tables F)
    load_fluid m dir fluid = elim (dir.fluid_luts fluid) [
      | absent ↦ generate_and_save m dir fluid
      | unreadable e ↦ generate_and_save m dir fluid
      | contents file ↦
          if config_match file.config m.config
          then (dir, ok file.lut)
          else elim (generate_lut nl cp m fluid) [
            | ok lut ↦ (dir, ok lut)
            | err e ↦ generate_and_save m dir fluid
          ]
    ]

    -- The loop, with the manager and the files as far as it came.
    unfoldable pub load_fluids :
        List FluidName → LutManager F → CacheDir F → LutManager F × CacheDir F × Result (Unit {0})
    load_fluids [] m dir = (m, dir, ok tt)
    load_fluids (fluid ∷ rest) m dir =
        let (dir', loaded) = load_fluid m dir fluid in
        elim loaded [
          | ok lut ↦ load_fluids rest (record m { luts = insert fluid lut m.luts }) dir'
          | err e ↦ (m, dir', err e)
        ]

    -- `_save_stacked_cache`. The file of arrays that are `None`, of a configuration without any
    -- fluid, is not modelled.
    abbrev pub save_stacked_cache : LutManager F → CacheDir F → CacheDir F
    save_stacked_cache m dir = elim m.stacked [
      | none ↦ dir
      | some arrays ↦ record dir { stacked_luts = contents (stacked_file nl m arrays) }
    ]

    abbrev pub stack_and_save :
        LutManager F → CacheDir F → LutManager F × CacheDir F × Result (Unit {0})
    stack_and_save m dir = elim (stack_luts m) [
      | ok m' ↦ (m', save_stacked_cache m' dir, ok tt)
      | err e ↦ (m, dir, err e)
    ]

    unfoldable pub slow_path :
        LutManager F → CacheDir F → LutManager F × CacheDir F × Result (Unit {0})
    slow_path m dir =
        let (m', dir', loaded) = load_fluids m.config.fluids m dir in
        elim loaded [
          | ok done ↦ stack_and_save (generate_saturation_lut np nl cp m') dir'
          | err e ↦ (m', dir', err e)
        ]

    -- What runs under the lock. The second check of the stacked file is in no `try ... except`.
    unfoldable pub initialize_locked :
        LutManager F → CacheDir F → LutManager F × CacheDir F × Result (Unit {0})
    initialize_locked m dir =
        let (m', loaded) = try_stacked m dir.stacked_luts in
        elim loaded [
          | ok true ↦ (generate_saturation_lut np nl cp m', dir, ok tt)
          | ok false ↦ slow_path m' dir
          | err e ↦ (m', dir, err e)
        ]

    abbrev pub set_grids : LutManager F → LutManager F
    set_grids m = record m {
      initialized = true;
      pressure_grid =
          nl.geomspace m.config.pressure_min m.config.pressure_max m.config.pressure_points;
      temperature_grid =
          np.linspace m.config.temperature_min m.config.temperature_max m.config.temperature_points;
      entropy_grid = np.linspace m.config.entropy_min m.config.entropy_max m.config.entropy_points;
    }

    -- `initialize`, with the files as they are at the first check and as they are when the lock is
    -- granted.
    unfoldable pub initialize :
        LutManager F → CacheDir F → CacheDir F → LutManager F × CacheDir F × Result (Unit {0})
    initialize m before locked =
        let (m', loaded) = try_stacked (set_grids m) before.stacked_luts in
        elim loaded [
          | ok true ↦ (generate_saturation_lut np nl cp m', locked, ok tt)
          | ok false ↦ initialize_locked m' locked
          | err e ↦ initialize_locked m' locked
        ]

    -- `if not self._initialized: self.initialize()`, and then `use` of the manager.
    abbrev pub when_ready {ℓ} :
        {A : Type ℓ}
        → LutManager F
        → CacheDir F
        → CacheDir F
        → (LutManager F → Result A)
        → LutManager F × CacheDir F × Result A
    when_ready m before locked body =
        if m.initialized
        then (m, locked, body m)
        else (let (m', dir, started) = initialize m before locked in
            elim started [ ok done ↦ (m', dir, body m') | err e ↦ (m', dir, err e) ])
