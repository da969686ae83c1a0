-- ===== src/Lut/Pem.antt =====
-- `register_custom_table`, `load_pem_tables` and `lookup_pem_vcell`: the cell voltage of the PEM
-- electrolyser by current density and operating hours.
use matrix_factory.Prelude.{
  ℕ, ◌≤◌, ◌≡◌, refl, inl, inr, ◌⊎◌, Bool, true, false, none, some, List, [], ◌∷◌, length, get_elem?,
  get_elem?-some, if◌then◌else◌, Result, ok, err, Error, index_error, attribute_error,
  runtime_error, ◌>>=◌, or_raise, arith,
}
use matrix_factory.Float.{Float, Numpy}
use matrix_factory.Grid.{before, corners, blend_corners}
use matrix_factory.Grid.Cells.{IsTable, IsUpper, before-some, corners-some}
use matrix_factory.Grid.Mixture.{mixture_weight}
use matrix_factory.Lut.{LutManager, CustomTable, CacheFile, absent, unreadable, contents}
use matrix_factory.Lut.Water.{clip_index}

module _ {F : Type 0} ⦃fl : Float F⦄ where
  -- `register_custom_table('pem_vcell', ...)`
  abbrev pub register_custom_table : LutManager F → CustomTable F → LutManager F
  register_custom_table m table = record m { pem_vcell = some (some table) }

  -- `load_pem_tables`: a missing file is a warning, and an exception is logged. The degradation
  -- table, which this file only hands to SciPy, is not modelled.
  pub load_pem_tables : LutManager F → CacheFile (CustomTable F) → LutManager F
  load_pem_tables m absent = m
  load_pem_tables m (unreadable e) = m
  load_pem_tables m (contents table) = register_custom_table m table

  abbrev pub interpolate_vcell : Numpy F → CustomTable F → F → F → Result F
  interpolate_vcell np table j_op t_op_h =
      let j_idx = clip_index (length table.axis0) (np.searchsorted table.axis0 j_op) in
      let t_idx = clip_index (length table.axis1) (np.searchsorted table.axis1 t_op_h) in
      do
        j0 ← or_raise (before table.axis0 j_idx) index_error
        j1 ← or_raise (get_elem? table.axis0 j_idx) index_error
        t0 ← or_raise (before table.axis1 t_idx) index_error
        t1 ← or_raise (get_elem? table.axis1 t_idx) index_error
        q ← or_raise (corners table.values j_idx t_idx) index_error
        ok (blend_corners q (mixture_weight j0 j1 j_op) (mixture_weight t0 t1 t_op_h))

  -- After the tables were loaded: without `_custom_luts` the test for the key raises.
  abbrev pub vcell_of_loaded : Numpy F → LutManager F → F → F → Result F
  vcell_of_loaded np m j_op t_op_h = elim m.pem_vcell [
    | none ↦ err attribute_error
    | some entry ↦ elim entry [
      | none ↦ err runtime_error
      | some table ↦ interpolate_vcell np table j_op t_op_h
    ]
  ]

  abbrev pub has_vcell : LutManager F → Bool
  has_vcell m = elim m.pem_vcell [
    | none ↦ false
    | some entry ↦ elim entry [ none ↦ false | some t ↦ true ]
  ]

  pub lookup_pem_vcell :
      Numpy F → LutManager F → CacheFile (CustomTable F) → F → F → LutManager F × Result F
  unfolding load_pem_tables
  lookup_pem_vcell np m file j_op t_op_h =
      let ready = if has_vcell m then m else load_pem_tables m file in
      (ready, vcell_of_loaded np ready j_op t_op_h)

  pub batch_lookup_pem_vcell :
      Numpy F
      → LutManager F
      → CacheFile (CustomTable F)
      → List F
      → List F
      → LutManager F × Result (List F)
  unfolding lookup_pem_vcell
  batch_lookup_pem_vcell np m file [] ts = (m, ok [])
  batch_lookup_pem_vcell np m file (j ∷ js) [] = (m, err index_error)
  batch_lookup_pem_vcell np m file (j ∷ js) (t ∷ ts) =
      let (m', v) = lookup_pem_vcell np m file j t in
      let (m'', vs) = batch_lookup_pem_vcell np m' file js ts in
      elim v [ err e ↦ (m', err e) | ok x ↦ (m'', vs >>= λ xs. ok (x ∷ xs)) ]

  -- Where no custom table was ever registered and the file of voltages is missing or cannot be read,
  -- the lookup raises `AttributeError`, not the `RuntimeError` that it has for this case.
  pub lookup_pem_vcell_unregistered :
      (np : Numpy F) (m : LutManager F) (file : CacheFile (CustomTable F)) (j_op t_op_h : F)
      → m.pem_vcell ≡ none
      → ((file ≡ absent) ⊎ ((e : Error) × (file ≡ unreadable e)))
      → lookup_pem_vcell np m file j_op t_op_h ≡ (m, err attribute_error)
  unfolding lookup_pem_vcell
  lookup_pem_vcell_unregistered np m file j_op t_op_h e (inl e') = rw (e', e) refl
  lookup_pem_vcell_unregistered np m file j_op t_op_h e (inr (x, e')) = rw (e', e) refl

  clip_index-IsUpper :
      (np : Numpy F) (grid : List F) (i : ℕ)
      → 2 ≤ length grid
      → IsUpper grid (clip_index (length grid) i)
  clip_index-IsUpper np grid i two = (ground arith, ground arith)

  -- With a registered table of the axes' shape, each axis with at least two points, the lookup
  -- returns a voltage at any current density and any time, NaN too, and reads no file.
  pub lookup_pem_vcell_in_table :
      (np : Numpy F) (m : LutManager F) (file : CacheFile (CustomTable F)) (table : CustomTable F)
      (j_op t_op_h : F)
      → m.pem_vcell ≡ some (some table)
      → 2 ≤ length table.axis0
      → 2 ≤ length table.axis1
      → IsTable table.axis0 table.axis1 table.values
      → (v : F) × (lookup_pem_vcell np m file j_op t_op_h ≡ (m, ok v))
  unfolding lookup_pem_vcell
  lookup_pem_vcell_in_table np m file table j_op t_op_h e two two' shape =
      let j = clip_index (length table.axis0) (np.searchsorted table.axis0 j_op) in
      let t = clip_index (length table.axis1) (np.searchsorted table.axis1 t_op_h) in
      let ux = clip_index-IsUpper np table.axis0 (np.searchsorted table.axis0 j_op) two in
      let uy = clip_index-IsUpper np table.axis1 (np.searchsorted table.axis1 t_op_h) two' in
      let (j0, a) = before-some table.axis0 j ux.0 (omega (arith, ux.1)) in
      let (j1, b) = get_elem?-some table.axis0 j ux.1 in
      let (t0, c) = before-some table.axis1 t uy.0 (omega (arith, uy.1)) in
      let (t1, d) = get_elem?-some table.axis1 t uy.1 in
      let (q, e') = corners-some table.axis0 table.axis1 table.values j t shape ux uy in
      (
        blend_corners q (mixture_weight j0 j1 j_op) (mixture_weight t0 t1 t_op_h),
        rw (e, a, b, c, d, e') refl,
      )
