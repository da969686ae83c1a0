-- ===== src/Grid/Cells.antt =====
-- Which cell an interpolation reads, and that it lies inside the table.
use matrix_factory.Prelude.{
  ℕ, zero, suc, ◌-◌, ◌≤◌, ◌<◌, ◌≡◌, refl, inl, inr, ◌⊎◌, false, none, some, List, arith, length,
  get_elem?, get_elem?-some, get_elem?-length, All, All-get, Pairwise, Bool-cases, Option-cases,
  ◌==◌,
}
use matrix_factory.Float.{Float, Numpy, IsNum, Le, IsOrdered, IsNumpy}
use matrix_factory.Grid.{
  before, upper_index, Corners, corners, blend_corners, cell_weight, bilinear_interp_jit,
}

module _ {ℓ} {A : Type ℓ} where
  pub before-some : (xs : List A) (i : ℕ) → 1 ≤ i → i ≤ length xs → (a : A) × (before xs i ≡ some a)
  before-some xs zero h k = absurd (omega arith)
  before-some xs (suc i) h k = get_elem?-some xs i k

module _ {F : Type 0} ⦃fl : Float F⦄ where
  -- A grid: at least two numbers, none below the one before it.
  pub record IsGrid (xs : List F) : Type 0 where
    pub long : 2 ≤ length xs
    pub sorted : Pairwise (λ a b. Le a b) xs
    pub numbers : All (λ a. IsNum a) xs

  -- A table with a row for each point of one grid and a column for each point of another.
  pub record IsTable (grid_x grid_y : List F) (table : List (List F)) : Type 0 where
    pub rows : length table ≡ length grid_x
    pub columns : All (λ row. length row ≡ length grid_y) table

  -- An upper corner inside the grid.
  abbrev pub IsUpper : List F → ℕ → Type 0
  IsUpper xs i = (1 ≤ i) × (i < length xs)

  pub corners-some :
      (grid_x grid_y : List F) (table : List (List F)) (ix iy : ℕ)
      → IsTable grid_x grid_y table
      → IsUpper grid_x ix
      → IsUpper grid_y iy
      → (c : Corners F) × (corners table ix iy ≡ some c)
  unfolding corners
  corners-some gx gy table ix iy t (x1, x2) (y1, y2) =
      let (row0, e0) = before-some table ix x1 (omega (arith, t.rows)) in
      let (row1, e1) = get_elem?-some table ix (omega (arith, t.rows)) in
      let n0 : length row0 ≡ length gy = before-All ix e0 in
      let n1 : length row1 ≡ length gy =
        All-get (λ row. length row ≡ length gy) table ix t.columns e1 in
      let (f00, a) = before-some row0 iy y1 (omega arith) in
      let (f01, b) = get_elem?-some row0 iy (omega arith) in
      let (f10, c) = before-some row1 iy y1 (omega arith) in
      let (f11, d) = get_elem?-some row1 iy (omega arith) in
      (record { f00 = f00; f10 = f10; f01 = f01; f11 = f11 }, rw (e0, e1, a, b, c, d) refl)
    where
      before-All : (i : ℕ) {row : List F} → before table i ≡ some row → length row ≡ length gy
      before-All zero e =
          All-get (λ row. length row ≡ length gy) table (length table - 1) t.columns e
      before-All (suc i) e = All-get (λ row. length row ≡ length gy) table i t.columns e

  module _ (np : Numpy F) (laws : IsOrdered F) (numpy : IsNumpy F np) where
    open laws use {le_num, le_trans, le_of_lt, not_le_of_lt, le_of_not_lt}
    open numpy use {searchsorted-lt, searchsorted-le, searchsorted-le-length, searchsorted-nan}

    -- Between the ends of the grid the search returns an upper corner, whose cell brackets `x`.
    pub search-IsUpper :
        (grid : List F) (x first last : F)
        → IsGrid grid
        → IsNum x
        → get_elem? grid 0 ≡ some first
        → get_elem? grid (length grid - 1) ≡ some last
        → fl.le x first ≡ false
        → fl.le last x ≡ false
        → IsUpper grid (np.searchsorted grid x)
    search-IsUpper grid x first last g n ef el lo hi = (low, high)
      where
        ss : ℕ
        ss = np.searchsorted grid x

        low : 1 ≤ ss
        low = elim (Bool-cases (ss == 0)) [
          | inl z ↦ cc (lo, searchsorted-le grid x 0 first g.sorted g.numbers n (ground arith) ef)
          | inr p ↦ ground arith
        ]

        high : ss < length grid
        high = elim (Bool-cases (ss == length grid)) [
          | inl z ↦ cc (
            hi,
            le_of_lt last x (
                searchsorted-lt grid x (length grid - 1) last g.sorted g.numbers n
                  (ground (arith, g.long)) el),
          )
          | inr p ↦ ground (arith, searchsorted-le-length grid x)
        ]

    -- The ends of a grid.
    pub ends :
        (grid : List F)
        → IsGrid grid
        → (first : F) × (last : F) × (get_elem? grid 0 ≡ some first)
          × (get_elem? grid (length grid - 1) ≡ some last)
    ends grid g =
        let (first, e) = get_elem?-some grid 0 (omega (arith, g.long)) in
        let (last, e') = get_elem?-some grid (length grid - 1) (omega (arith, g.long)) in
        (first, last, e, e')

    pub upper_index-IsUpper :
        (grid : List F) (x : F)
        → IsGrid grid
        → IsNum x
        → (i : ℕ) × (upper_index np grid x ≡ some i) × IsUpper grid i
    unfolding upper_index
    upper_index-IsUpper grid x g n =
        let (first, last, ef, el) = ends grid g in
        let two = g.long in
        elim (Bool-cases (fl.le x first)) [
          | inl below ↦ (1, rw (ef, el, below) refl, (omega arith, two))
          | inr lo ↦ elim (Bool-cases (fl.le last x)) [
            | inl above ↦ (length grid - 1, rw (ef, el, lo, above) refl, (omega arith, omega arith))
            | inr hi ↦
                let (low, high) = search-IsUpper grid x first last g n ef el lo hi in
                let nonzero : (np.searchsorted grid x == 0) ≡ false = ground arith in
                (np.searchsorted grid x, rw (ef, el, lo, hi, nonzero) refl, (low, high))
          ]
        ]

    -- On a table with sorted grids of at least two points, a query at two numbers, wherever they lie,
    -- reads only entries of the grids and of the table.
    pub bilinear_interp_in_table :
        (grid_x grid_y : List F) (table : List (List F)) (x y : F)
        → IsGrid grid_x
        → IsGrid grid_y
        → IsTable grid_x grid_y table
        → IsNum x
        → IsNum y
        → (v : F) × (bilinear_interp_jit np grid_x grid_y table x y ≡ some v)
    unfolding bilinear_interp_jit
    bilinear_interp_in_table gx gy table x y g h t n m =
        let (ix, ex, ux) = upper_index-IsUpper gx x g n in
        let (iy, ey, uy) = upper_index-IsUpper gy y h m in
        let (x0, a) = before-some gx ix ux.0 (omega arith) in
        let (x1, b) = get_elem?-some gx ix ux.1 in
        let (y0, c) = before-some gy iy uy.0 (omega arith) in
        let (y1, d) = get_elem?-some gy iy uy.1 in
        let (q, e) = corners-some gx gy table ix iy t ux uy in
        (
          blend_corners q (cell_weight np x0 x1 x) (cell_weight np y0 y1 y),
          rw (ex, ey, a, b, c, d, e) refl,
        )

    nan_fails : (a b : F) → fl.le a a ≡ false → (fl.le a b ≡ false) × (fl.le b a ≡ false)
    nan_fails a b nan = (
      elim (Bool-cases (fl.le a b)) [ inl y ↦ cc (nan, (le_num a b y).0) | inr e ↦ e ],
      elim (Bool-cases (fl.le b a)) [ inl y ↦ cc (nan, (le_num b a y).1) | inr e ↦ e ],
    )

    upper_index_nan :
        (grid : List F) (x : F)
        → IsGrid grid
        → fl.le x x ≡ false
        → upper_index np grid x ≡ some (length grid)
    unfolding upper_index
    upper_index_nan grid x g nan =
        let (first, last, ef, el) = ends grid g in
        let ss = searchsorted-nan grid x nan g.numbers in
        let nonzero : (length grid == 0) ≡ false = ground (arith, g.long) in
        rw (ef, el, (nan_fails x first nan).0, (nan_fails x last nan).1, ss, nonzero) refl

    -- On grids of at least two points, a query of which the first or the second coordinate is NaN, the
    -- other being any value, reads outside the arrays: the search puts NaN behind the last point.
    pub bilinear_interp_nan :
        (grid_x grid_y : List F) (table : List (List F)) (x y : F)
        → IsGrid grid_x
        → IsGrid grid_y
        → (fl.le x x ≡ false) ⊎ (fl.le y y ≡ false)
        → bilinear_interp_jit np grid_x grid_y table x y ≡ none
    unfolding bilinear_interp_jit
    bilinear_interp_nan gx gy table x y g h (inl nan) =
        let (last, e) = before-some gx (length gx) (omega (arith, g.long)) (omega arith) in
        elim (Option-cases (upper_index np gy y)) [
          | inl no_y ↦ rw (upper_index_nan gx x g nan, no_y) refl
          | inr (iy, ey) ↦ rw (upper_index_nan gx x g nan, ey, e, get_elem?-length gx) refl
        ]
    bilinear_interp_nan gx gy table x y g h (inr nan) =
        let (last, e) = before-some gy (length gy) (omega (arith, h.long)) (omega arith) in
        elim (Option-cases (upper_index np gx x)) [
          | inl no_x ↦ rw no_x refl
          | inr (ix, ex) ↦ elim (Option-cases (before gx ix)) [
            | inl no_x0 ↦ rw (ex, upper_index_nan gy y h nan, no_x0) refl
            | inr (x0, e0) ↦ elim (Option-cases (get_elem? gx ix)) [
              | inl no_x1 ↦ rw (ex, upper_index_nan gy y h nan, e0, no_x1) refl
              | inr (x1, e1) ↦
                  rw (ex, upper_index_nan gy y h nan, e0, e1, e, get_elem?-length gy) refl
            ]
          ]
        ]
