-- ===== src/Lut/Cache.antt =====
-- `LUTManager.initialize` and the files of its cache.
use matrix_factory.Prelude.{
  ℕ, suc, Bool, true, false, ◌&&◌, none, some, List, [], ◌∷◌, ◌==◌, if◌then◌else◌, length,
  get_elem?, replicate, Result, ok, err, value_error, index_error, ◌>>=◌, or_raise, traverse, find,
  insert,
}
use matrix_factory.Float.{Float}
use matrix_factory.Lut.{
  FluidName, FluidName-HasCode, Property, Property-HasCode, density, enthalpy, entropy,
  heat_capacity, compressibility, h_from_ps, Table, Tables, LutManager, Stacked, LutNumpy,
  CacheFile, absent, unreadable, contents, StackedFile,
}

-- NumPy's broadcasting of an axis: it has the wanted length, or is a single entry, which is repeated.
abbrev pub repeated : {A : Type 0} → ℕ → List A → Result (List A)
repeated n (x ∷ []) = ok (replicate n x)
repeated n _ = err value_error

abbrev pub broadcast : {A : Type 0} → ℕ → List A → Result (List A)
broadcast n xs = if length xs == n then ok xs else repeated n xs

-- `a[i] = table` for a slice of the shape `(rows, columns)`; a table that is not broadcast to it cannot
-- be written to it.
abbrev pub fill_slice : {F : Type 0} → ℕ → ℕ → Table F → Result (Table F)
fill_slice rows columns table = do
  widened ← traverse (broadcast columns) table
  broadcast rows widened

module _ {F : Type 0} ⦃fl : Float F⦄ where
  -- `np.zeros((rows, columns))`
  abbrev pub zeros : ℕ → ℕ → Table F
  zeros rows columns = replicate rows (replicate columns (fl.lit 0 0))

  -- The slice of one fluid in the stacked array of one property.
  abbrev pub stack_one : LutManager F → Property → ℕ → FluidName → Result (Table F)
  stack_one m key columns fluid = elim (find fluid m.luts) [
    | none ↦ ok (zeros (length m.pressure_grid) columns)
    | some lut ↦ elim (find key lut) [
      | none ↦ ok (zeros (length m.pressure_grid) columns)
      | some table ↦ fill_slice (length m.pressure_grid) columns table
    ]
  ]

  abbrev pub stack_property : LutManager F → Property → ℕ → Result (List (Table F))
  stack_property m key columns = traverse (stack_one m key columns) m.config.fluids

  unfoldable pub stack_arrays : LutManager F → Result (Stacked F)
  stack_arrays m = do
    h ← stack_property m enthalpy (length m.temperature_grid)
    s ← stack_property m entropy (length m.temperature_grid)
    c ← stack_property m heat_capacity (length m.temperature_grid)
    d ← stack_property m density (length m.temperature_grid)
    z ← stack_property m compressibility (length m.temperature_grid)
    h_ps ← stack_property m h_from_ps (length m.entropy_grid)
    ok (record {
      stacked_h = h;
      stacked_s = s;
      stacked_c = c;
      stacked_d = d;
      stacked_z = z;
      stacked_h_from_ps = h_ps;
    })

  -- `_stack_luts`: nothing where no fluid has tables.
  unfoldable pub stack_luts : LutManager F → Result (LutManager F)
  unfolding stack_arrays
  stack_luts m = elim m.luts [
    | [] ↦ ok m
    | _ ∷ _ ↦ stack_arrays m >>= λ arrays. ok (record m { stacked = some arrays })
  ]

-- `stacked_X[i]` for each property
unfoldable pub slices_at : {F : Type 0} → Stacked F → ℕ → Result (Tables F)
slices_at arrays i = do
  h ← or_raise (get_elem? arrays.stacked_h i) index_error
  s ← or_raise (get_elem? arrays.stacked_s i) index_error
  c ← or_raise (get_elem? arrays.stacked_c i) index_error
  d ← or_raise (get_elem? arrays.stacked_d i) index_error
  z ← or_raise (get_elem? arrays.stacked_z i) index_error
  h_ps ← or_raise (get_elem? arrays.stacked_h_from_ps i) index_error
  ok (
      (enthalpy, h)
      ∷ (entropy, s)
      ∷ (heat_capacity, c)
      ∷ (density, d)
      ∷ (compressibility, z)
      ∷ (h_from_ps, h_ps)
      ∷ [])

module _ {F : Type 0} where
  -- The loop that rebuilds `_luts`, with what it has rebuilt when an array is too short.
  unfoldable pub rebuild_luts :
      Stacked F
      → ℕ
      → List FluidName
      → List (FluidName × Tables F)
      → List (FluidName × Tables F) × Result (Unit {0})
  rebuild_luts arrays i [] luts = (luts, ok tt)
  rebuild_luts arrays i (fluid ∷ rest) luts = elim (slices_at arrays i) [
    | err e ↦ (luts, err e)
    | ok tables ↦ rebuild_luts arrays (suc i) rest (insert fluid tables luts)
  ]

  abbrev pub finish_load :
      LutManager F → List (FluidName × Tables F) × Result (Unit {0}) → LutManager F × Result Bool
  finish_load m (luts, ok done) = (record m { luts = luts }, ok true)
  finish_load m (luts, err e) = (record m { luts = luts }, err e)

  -- `_load_stacked_cache` on a file that can be read: only the numbers of points are compared.
  unfoldable pub load_stacked_cache : LutManager F → StackedFile F → LutManager F × Result Bool
  load_stacked_cache m file =
      if length file.pressure_grid == m.config.pressure_points
        && length file.temperature_grid == m.config.temperature_points
      then finish_load
          (record m {
            stacked = some file.arrays;
            pressure_grid = file.pressure_grid;
            temperature_grid = file.temperature_grid;
            entropy_grid = file.entropy_grid;
          })
          (rebuild_luts file.arrays 0 m.config.fluids m.luts)
      else (m, ok false)

  -- `stacked_cache_path.exists() and self._load_stacked_cache(stacked_cache_path)`
  unfoldable pub try_stacked : LutManager F → CacheFile (StackedFile F) → LutManager F × Result Bool
  try_stacked m absent = (m, ok false)
  try_stacked m (unreadable e) = (m, err e)
  try_stacked m (contents file) = load_stacked_cache m file

  -- What `_save_stacked_cache` writes.
  abbrev pub stacked_file : LutNumpy F → LutManager F → Stacked F → StackedFile F
  stacked_file nl m arrays = record {
    arrays = arrays;
    pressure_grid = m.pressure_grid;
    temperature_grid = m.temperature_grid;
    entropy_grid = m.entropy_grid;
    config_hash = nl.md5 m.config;
  }
