-- ===== src/Lut/RoundTrip.antt =====
-- Stacking the tables, writing the file and loading it again.
use matrix_factory.Prelude.{
  ℕ, ◌+◌, ◌<◌, ◌≡◌, ◌≢◌, ◌∙◌, refl, sym, ap, subst, true, some, List, [], ◌∷◌, length, get_elem?,
  ok, ◌==◌, >>=-eq-ok, ok-injective, find, length-traverse, get_elem?-traverse, arith, All,
  traverse,
}
use matrix_factory.Float.{Float}
use matrix_factory.Lut.{
  FluidName, FluidName-HasCode, Property, Property-HasCode, density, enthalpy, entropy,
  heat_capacity, compressibility, h_from_ps, Table, Tables, LutManager, LutNumpy, Stacked,
}
use matrix_factory.Lut.Cache.{
  fill_slice, stack_one, stack_property, stack_arrays, stack_luts, load_stacked_cache, stacked_file,
  broadcast,
}
use matrix_factory.Lut.Reload.{
  Distinct, stacked_of, columns_of, Reaches, rebuild_luts-ok, rebuild_luts-find,
}

-- A table of the shape `(rows, columns)`.
abbrev pub HasShape : {F : Type 0} → ℕ → ℕ → Table F → Type 0
HasShape rows columns table = (length table ≡ rows) × All (λ row. length row ≡ columns) table

traverse-broadcast :
    {F : Type 0} (columns : ℕ) (table : Table F)
    → All (λ row. length row ≡ columns) table
    → traverse (broadcast columns) table ≡ ok table
traverse-broadcast columns [] a = refl
traverse-broadcast columns (row ∷ table) (e, a) =
    let fits : (length row == columns) ≡ true = ground arith in
    rw (fits, traverse-broadcast columns table a) refl

fill_slice_lem :
    {F : Type 0} (rows columns : ℕ) (table filled : Table F)
    → HasShape rows columns table
    → fill_slice rows columns table ≡ ok filled
    → filled ≡ table
fill_slice_lem rows columns table filled (e, a) h =
    let fits : (length table == rows) ≡ true = ground arith in
    sym (ok-injective (rw (traverse-broadcast columns table a, fits) at h))

module _ {F : Type 0} ⦃fl : Float F⦄ where
  stack_one_lem :
      (m : LutManager F) (key : Property) (columns : ℕ) (fluid : FluidName) {lut : Tables F}
      {table filled : Table F}
      → find fluid m.luts ≡ some lut
      → find key lut ≡ some table
      → HasShape (length m.pressure_grid) columns table
      → stack_one m key columns fluid ≡ ok filled
      → filled ≡ table
  stack_one_lem m key columns fluid e e' shape h =
      fill_slice_lem (length m.pressure_grid) columns _ _ shape (rw (e, e', stack_one) at h)

  -- Each array is the stack of its property.
  pub stack_arrays_lem :
      (m : LutManager F) (arrays : Stacked F)
      → stack_arrays m ≡ ok arrays
      → (key : Property) → stack_property m key (columns_of m key) ≡ ok (stacked_of arrays key)
  unfolding stack_arrays
  stack_arrays_lem m arrays h =
      let (_, a, h) = >>=-eq-ok (stack_property m enthalpy (length m.temperature_grid)) _ h in
      let (_, b, h) = >>=-eq-ok (stack_property m entropy (length m.temperature_grid)) _ h in
      let (_, c, h) = >>=-eq-ok (stack_property m heat_capacity (length m.temperature_grid)) _ h in
      let (_, d, h) = >>=-eq-ok (stack_property m density (length m.temperature_grid)) _ h in
      let (_, z, h) =
        >>=-eq-ok (stack_property m compressibility (length m.temperature_grid)) _ h in
      let (_, p, h) = >>=-eq-ok (stack_property m h_from_ps (length m.entropy_grid)) _ h in
      each (ok-injective h) a b c d z p
    where
      each :
          {full : Stacked F}
          → full ≡ arrays
          → stack_property m enthalpy (length m.temperature_grid) ≡ ok full.stacked_h
          → stack_property m entropy (length m.temperature_grid) ≡ ok full.stacked_s
          → stack_property m heat_capacity (length m.temperature_grid) ≡ ok full.stacked_c
          → stack_property m density (length m.temperature_grid) ≡ ok full.stacked_d
          → stack_property m compressibility (length m.temperature_grid) ≡ ok full.stacked_z
          → stack_property m h_from_ps (length m.entropy_grid) ≡ ok full.stacked_h_from_ps
          → (key : Property) → stack_property m key (columns_of m key) ≡ ok (stacked_of arrays key)
      each q a b c d z p density = d ∙ ap (λ s. ok s.stacked_d) q
      each q a b c d z p enthalpy = a ∙ ap (λ s. ok s.stacked_h) q
      each q a b c d z p entropy = b ∙ ap (λ s. ok s.stacked_s) q
      each q a b c d z p heat_capacity = c ∙ ap (λ s. ok s.stacked_c) q
      each q a b c d z p compressibility = z ∙ ap (λ s. ok s.stacked_z) q
      each q a b c d z p h_from_ps = p ∙ ap (λ s. ok s.stacked_h_from_ps) q

  pub length-stacked_of :
      (m : LutManager F) (arrays : Stacked F)
      → stack_arrays m ≡ ok arrays
      → (key : Property) → length (stacked_of arrays key) ≡ length m.config.fluids
  length-stacked_of m arrays h key =
      length-traverse (stack_one m key (columns_of m key)) m.config.fluids (stacked_of arrays key)
        (stack_arrays_lem m arrays h key)

  -- The stack of a property has at a fluid's place the fluid's table.
  stacked_of-place :
      (m : LutManager F) (arrays : Stacked F) (j : ℕ) (key : Property) {fluid : FluidName}
      {lut : Tables F} {table : Table F}
      → stack_arrays m ≡ ok arrays
      → get_elem? m.config.fluids j ≡ some fluid
      → find fluid m.luts ≡ some lut
      → find key lut ≡ some table
      → HasShape (length m.pressure_grid) (columns_of m key) table
      → get_elem? (stacked_of arrays key) j ≡ some table
  stacked_of-place m arrays j key {fluid} h place e e' shape =
      let (filled, q, r) =
        get_elem?-traverse (stack_one m key (columns_of m key)) m.config.fluids
          (stacked_of arrays key) j (stack_arrays_lem m arrays h key) place in
      q ∙ ap (λ t. some t) (stack_one_lem m key (columns_of m key) fluid e e' shape r)

  -- What is said of a manager whose stacked file `again` has loaded: it has the fluid's table.
  abbrev pub HasTableOf : LutManager F → FluidName → Property → Table F → Type 0
  HasTableOf again fluid key table =
      (tables : Tables F) × (find fluid again.luts ≡ some tables) × (find key tables ≡ some table)

  stack_luts-arrays :
      (m m' : LutManager F)
      → m.luts ≢ []
      → stack_luts m ≡ ok m'
      → (arrays : Stacked F) × (stack_arrays m ≡ ok arrays)
        × (m' ≡ record m { stacked = some arrays })
  unfolding stack_luts
  stack_luts-arrays m m' nonempty h = by_luts m.luts refl
    where
      by_luts :
          (luts : List (FluidName × Tables F))
          → m.luts ≡ luts
          → (arrays : Stacked F) × (stack_arrays m ≡ ok arrays)
            × (m' ≡ record m { stacked = some arrays })
      by_luts [] e = absurd (nonempty e)
      by_luts (_ ∷ _) e =
          let (arrays, q, r) = >>=-eq-ok (stack_arrays m) _ (rw (e, stack_luts) at h) in
          (arrays, q, sym (ok-injective r))

  -- What a manager that stacked its tables, and one that loaded the file of them, share.
  abbrev pub IsReloaded : LutNumpy F → LutManager F → LutManager F → LutManager F → Type 0
  IsReloaded nl m m' again =
      (arrays : Stacked F) × (loaded : LutManager F) × (m'.stacked ≡ some arrays)
      × (load_stacked_cache again (stacked_file nl m' arrays) ≡ (loaded, ok true))
      × (loaded.stacked ≡ some arrays)
      × (loaded.pressure_grid ≡ m.pressure_grid)
      × (loaded.temperature_grid ≡ m.temperature_grid)
      × (loaded.entropy_grid ≡ m.entropy_grid)
      × ((j : ℕ) (fluid : FluidName) (key : Property) (lut : Tables F) (table : Table F)
          → get_elem? m.config.fluids j ≡ some fluid
          → find fluid m.luts ≡ some lut
          → find key lut ≡ some table
          → HasShape (length m.pressure_grid) (columns_of m key) table
          → HasTableOf loaded fluid key table)

  -- Let a manager with tables stack them, and let the stacked file be written with it. A manager of
  -- the same configuration, whatever it held, loads the file: it takes over the arrays and the
  -- grids, and every table of the grids' shape that the first manager held of a configured fluid it
  -- holds as well.
  -- Here the grids have as many points as the configuration says, and no fluid is configured twice.
  pub load-stacked_file :
      (nl : LutNumpy F) (m m' again : LutManager F)
      → m.luts ≢ []
      → stack_luts m ≡ ok m'
      → again.config ≡ m.config
      → length m.pressure_grid ≡ m.config.pressure_points
      → length m.temperature_grid ≡ m.config.temperature_points
      → Distinct m.config.fluids
      → IsReloaded nl m m' again
  unfolding load_stacked_cache
  load-stacked_file nl m m' again nonempty h same_config points points' distinct =
      let (arrays, q, r) = stack_luts-arrays m m' nonempty h in
      let fluids : again.config.fluids ≡ m.config.fluids = ap (λ c. c.fluids) same_config in
      let p : (length m.pressure_grid == again.config.pressure_points) ≡ true =
        rw (ap (λ c. c.pressure_points) same_config) (ground arith) in
      let t : (length m.temperature_grid == again.config.temperature_points) ≡ true =
        rw (ap (λ c. c.temperature_points) same_config) (ground arith) in
      let reach : (k : ℕ) → k < 0 + length m.config.fluids → Reaches arrays k =
        λ k b key. subst (λ n. k < n) (sym (length-stacked_of m arrays q key)) (omega (arith, b)) in
      let (luts', e) = rebuild_luts-ok arrays 0 m.config.fluids again.luts reach in
      (
        arrays,
        record again {
          stacked = some arrays;
          pressure_grid = m.pressure_grid;
          temperature_grid = m.temperature_grid;
          entropy_grid = m.entropy_grid;
          luts = luts';
        },
        rw r refl,
        rw (r, p, t, fluids, e) refl,
        refl,
        refl,
        refl,
        refl,
        λ j fluid key lut table place found found' shape.
            let (tables, a, each) =
              rebuild_luts-find arrays 0 m.config.fluids again.luts j reach distinct place in
            (
              tables,
              subst (λ l. find fluid l ≡ some tables) (ap (λ x. x.0) e) a,
              each key
                  ∙ ap (λ n. get_elem? (stacked_of arrays key) n) (omega arith)
                  ∙ stacked_of-place m arrays j key q place found found' shape,
            ),
      )
