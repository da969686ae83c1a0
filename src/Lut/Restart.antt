-- ===== src/Lut/Restart.antt =====
-- Starting again on the files that a start has left, and starting on a damaged file.
use matrix_factory.Prelude.{
  ◌≡◌, ◌≢◌, ◌∙◌, refl, ap, subst, inl, inr, ◌⊎◌, Bool, true, false, Option, none, some, List, [],
  ◌∷◌, length, Result, ok, err, Error, Bool-cases, insert, same,
}
use matrix_factory.Float.{Float, Numpy}
use matrix_factory.Lut.{
  FluidName, FluidName-HasCode, Tables, LutConfig, LutManager, CoolProp, LutNumpy, unreadable,
  contents, CacheDir, new_manager,
}
use matrix_factory.Lut.Cache.{try_stacked, stack_luts, stacked_file}
use matrix_factory.Lut.RoundTrip.{load-stacked_file}
use matrix_factory.Lut.Reload.{Distinct}
use matrix_factory.Lut.Outcome.{try_stacked-outcome, try_stacked-config, try_stacked-unused}
use matrix_factory.Lut.Startup.{
  load_fluid, load_fluids, slow_path, stack_and_save, initialize_locked, set_grids, initialize,
}
use matrix_factory.Lut.Water.{generate_saturation_lut}

-- The setup that the stacked file is judged by.
record SameSetup {F : Type 0} (m n : LutManager F) : Type 0 where
  config : m.config ≡ n.config
  pressure_grid : m.pressure_grid ≡ n.pressure_grid
  temperature_grid : m.temperature_grid ≡ n.temperature_grid

insert-nonempty :
    {F : Type 0} (fluid : FluidName) (lut : Tables F) (luts : List (FluidName × Tables F))
    → insert fluid lut luts ≢ []
insert-nonempty fluid lut [] e = cc
insert-nonempty fluid lut ((f, l) ∷ rest) e = elim (Bool-cases (same f fluid)) [
  | inl y ↦ let h = rw y at e in cc
  | inr n ↦ let h = rw n at e in cc
]

module _ {F : Type 0} ⦃fl : Float F⦄ (np : Numpy F) (nl : LutNumpy F)
    (cp : Option (CoolProp F)) where
  load_fluids-SameSetup :
      (fluids : List FluidName) (m : LutManager F) (dir : CacheDir F) {m' : LutManager F}
      {dir' : CacheDir F}
      → load_fluids np nl cp fluids m dir ≡ (m', dir', ok tt)
      → SameSetup m m' × (((m.luts ≢ []) ⊎ (fluids ≢ [])) → m'.luts ≢ [])
  unfolding load_fluids
  load_fluids-SameSetup [] m dir {m'} h =
      let e : m ≡ m' = ap (λ x. x.0) h in
      (
        record {
          config = ap (λ x. x.config) e;
          pressure_grid = ap (λ x. x.pressure_grid) e;
          temperature_grid = ap (λ x. x.temperature_grid) e;
        },
        λ c. elim c [ inl n ↦ subst (λ x. x.luts ≢ []) e n | inr n ↦ absurd (n refl) ],
      )
  load_fluids-SameSetup (fluid ∷ rest) m dir {m'} {dir'} h =
      by_load (load_fluid np nl cp m dir fluid).0 (load_fluid np nl cp m dir fluid).1 refl refl
        (λ lut next. load_fluids-SameSetup rest (record m { luts = insert fluid lut m.luts }) next)
    where
      by_load :
          (next : CacheDir F) (r : Result (Tables F))
          → (load_fluid np nl cp m dir fluid).0 ≡ next
          → (load_fluid np nl cp m dir fluid).1 ≡ r
          → ((lut : Tables F) (next : CacheDir F)
              → load_fluids np nl cp rest (record m { luts = insert fluid lut m.luts }) next
                ≡ (m', dir', ok tt)
              → SameSetup (record m { luts = insert fluid lut m.luts }) m'
                × (((insert fluid lut m.luts ≢ []) ⊎ (rest ≢ [])) → m'.luts ≢ []))
          → SameSetup m m' × (((m.luts ≢ []) ⊎ ((fluid ∷ rest) ≢ [])) → m'.luts ≢ [])
      by_load next (err e) q r later = let h' = rw (r, load_fluids) at h in cc
      by_load next (ok lut) q r later =
          let (setup, nonempty) = later lut next (rw (r, q, load_fluids) at h) in
          (
            record {
              config = setup.config;
              pressure_grid = setup.pressure_grid;
              temperature_grid = setup.temperature_grid;
            },
            λ _. nonempty (inl (insert-nonempty fluid lut m.luts)),
          )

  saturation-SameSetup :
      (m n : LutManager F)
      → SameSetup m n
      → n.luts ≢ []
      → SameSetup m (generate_saturation_lut np nl cp n)
        × ((generate_saturation_lut np nl cp n).luts ≢ [])
  unfolding generate_saturation_lut
  saturation-SameSetup m n setup nonempty = by_coolprop cp
    where
      by_coolprop :
          (cp : Option (CoolProp F))
          → SameSetup m (generate_saturation_lut np nl cp n)
            × ((generate_saturation_lut np nl cp n).luts ≢ [])
      by_coolprop none = (setup, nonempty)
      by_coolprop (some c) = (
        record {
          config = setup.config;
          pressure_grid = setup.pressure_grid;
          temperature_grid = setup.temperature_grid;
        },
        nonempty,
      )

  -- A manager whose grids have the configuration's numbers of points, for at least one fluid, and
  -- each fluid once.
  pub record IsSetUp (m : LutManager F) : Type 0 where
    pub pressures : length m.pressure_grid ≡ m.config.pressure_points
    pub temperatures : length m.temperature_grid ≡ m.config.temperature_points
    pub some_fluid : m.config.fluids ≢ []
    pub distinct : Distinct m.config.fluids

  abbrev Loads : LutConfig F → CacheDir F → Type 0
  Loads config dir =
      (again : LutManager F)
      → again.config ≡ config
      → (loaded : LutManager F) × (try_stacked again dir.stacked_luts ≡ (loaded, ok true))

  stack_and_save-Loads :
      (m n : LutManager F) (dir : CacheDir F) {m' : LutManager F} {dir' : CacheDir F}
      → IsSetUp m
      → SameSetup m n
      → n.luts ≢ []
      → stack_and_save np nl cp n dir ≡ (m', dir', ok tt)
      → Loads m.config dir'
  unfolding try_stacked
  stack_and_save-Loads m n dir {m'} {dir'} up setup nonempty h again same_config =
      by_stack (stack_luts n) refl
    where
      by_stack :
          (r : Result (LutManager F))
          → stack_luts n ≡ r
          → (loaded : LutManager F) × (try_stacked again dir'.stacked_luts ≡ (loaded, ok true))
      by_stack (err e) q = let h' = rw (q, stack_and_save) at h in cc
      by_stack (ok n') q =
          let (arrays, loaded, a, e, _, _, _, _, _) =
            load-stacked_file nl n n' again nonempty q (same_config ∙ setup.config)
              (subst (λ g. length g ≡ n.config.pressure_points) setup.pressure_grid
                (up.pressures ∙ ap (λ c. c.pressure_points) setup.config))
              (subst (λ g. length g ≡ n.config.temperature_points) setup.temperature_grid
                (up.temperatures ∙ ap (λ c. c.temperature_points) setup.config))
              (subst (λ c. Distinct c.fluids) setup.config up.distinct) in
          let saved : contents (stacked_file nl n' arrays) ≡ dir'.stacked_luts =
            ap (λ x. x.1.stacked_luts) (rw (q, a, stack_and_save) at h) in
          (loaded, subst (λ f. try_stacked again f ≡ (loaded, ok true)) saved e)

  slow_path-Loads :
      (m : LutManager F) (dir : CacheDir F) {m' : LutManager F} {dir' : CacheDir F}
      → IsSetUp m
      → slow_path np nl cp m dir ≡ (m', dir', ok tt)
      → Loads m.config dir'
  unfolding slow_path
  slow_path-Loads m dir {m'} {dir'} up h =
      by_load (load_fluids np nl cp m.config.fluids m dir).2 refl
    where
      by_load :
          (r : Result (Unit {0}))
          → (load_fluids np nl cp m.config.fluids m dir).2 ≡ r
          → Loads m.config dir'
      by_load (err e) q = let h' = rw (q, slow_path) at h in cc
      by_load (ok done) q =
          let n = (load_fluids np nl cp m.config.fluids m dir).0 in
          let next = (load_fluids np nl cp m.config.fluids m dir).1 in
          let (setup, nonempty) =
            load_fluids-SameSetup m.config.fluids m dir {m' = n} {dir' = next}
              (λ i. (n, next, q i)) in
          let (setup', nonempty') = saturation-SameSetup m n setup (nonempty (inr up.some_fluid)) in
          stack_and_save-Loads m (generate_saturation_lut np nl cp n) next up setup' nonempty'
            (rw (q, slow_path) at h)

  abbrev Starts : LutConfig F → CacheDir F → Type 0
  Starts config dir =
      (started : LutManager F) × (initialize np nl none (new_manager config) dir dir
        ≡ (started, dir, ok tt))

  Loads-Starts :
      (config : LutConfig F) (dir : CacheDir F) (loaded : LutManager F)
      → try_stacked (set_grids np nl none (new_manager config)) dir.stacked_luts ≡ (loaded, ok true)
      → Starts config dir
  unfolding initialize
  Loads-Starts config dir loaded e = (
    generate_saturation_lut np nl none
        (try_stacked (set_grids np nl none (new_manager config)) dir.stacked_luts).0,
    rw (ap (λ x. x.1) e, initialize) refl,
  )

  -- After a start that ended well, alone with its files, a new manager of the same configuration
  -- starts well on the files that it left, where CoolProp is not installed, and changes none of
  -- them. Here the grids have as many points as the configuration says, some fluid is
  -- configured, and none twice.
  pub initialize_again :
      (config : LutConfig F) (dir : CacheDir F) {m' : LutManager F} {dir' : CacheDir F}
      → IsSetUp (set_grids np nl cp (new_manager config))
      → initialize np nl cp (new_manager config) dir dir ≡ (m', dir', ok tt)
      → (started : LutManager F) × (initialize np nl none (new_manager config) dir' dir'
          ≡ (started, dir', ok tt))
  unfolding initialize initialize_locked new_manager
  initialize_again config dir {m'} {dir'} up h =
      by_first (try_stacked start dir.stacked_luts).1 refl
    where
      start : LutManager F
      start = set_grids np nl cp (new_manager config)

      by_first : (r : Result Bool) → (try_stacked start dir.stacked_luts).1 ≡ r → Starts config dir'
      by_first (ok true) q =
          let same_dir : dir ≡ dir' = ap (λ x. x.1) (rw (q, initialize) at h) in
          subst (λ d. Starts config d) same_dir
            (Loads-Starts config dir (try_stacked start dir.stacked_luts).0
              (λ i. ((try_stacked start dir.stacked_luts).0, q i)))
      by_first (ok false) q =
          let unused = try_stacked-unused start dir.stacked_luts q in
          let locked = rw (q, unused, initialize) at h in
          let (loaded, e) =
            slow_path-Loads start dir up (rw (q, unused, initialize_locked) at locked) start refl in
          Loads-Starts config dir' loaded e
      by_first (err raised) q =
          let again =
            try_stacked-outcome (try_stacked start dir.stacked_luts).0 start dir.stacked_luts
              (try_stacked-config start dir.stacked_luts)
            ∙ q in
          let locked = rw (q, initialize) at h in
          let h' = rw (again, initialize_locked) at locked in cc

  -- A stacked file that cannot be read makes a start fail with the exception that reading it
  -- raised, on every manager and whatever else there is: the files of the fluids and CoolProp, with
  -- which it could be made anew, are not used.
  pub initialize_unreadable :
      (m : LutManager F) (dir : CacheDir F) (raised : Error)
      → dir.stacked_luts ≡ unreadable raised
      → initialize np nl cp m dir dir ≡ (set_grids np nl cp m, dir, err raised)
  unfolding initialize initialize_locked try_stacked
  initialize_unreadable m dir raised e = rw e refl
