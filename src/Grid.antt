-- ===== src/Grid.antt =====
-- Interpolation in physical_engine/optimization/_numba_ops_core_python.py. A read outside an array,
-- which the compiled code does not check, is `none`. Where the source keeps the index `ix` of a
-- cell's lower corner, the model keeps `ix + 1`, its upper corner: so `ix = -1` is 0 here, and reads
-- the last element, as Python's -1 does.
pub mod Cells
pub mod Weights
pub mod Spline
pub mod Mixture
use matrix_factory.Prelude.{
  ℕ, zero, suc, ◌+◌, ◌-◌, Bool, true, false, Option, none, some, List, [], ◌∷◌, length, get_elem?,
  leb, ltb, ◌==◌, if◌then◌else◌,
}
use matrix_factory.Float.{Float, Numpy, ◌⊕◌, ◌⊖◌, ◌⊗◌, ◌⊘◌}

infixl 5 ◌>>=◌
abbrev pub ◌>>=◌ {ℓ κ} : {A : Type ℓ} {B : Type κ} → Option A → (A → Option B) → Option B
none >>= f = none
some a >>= f = f a

-- `xs[i - 1]`, where `xs[-1]` is the last element.
abbrev pub before {ℓ} : {A : Type ℓ} → List A → ℕ → Option A
before xs zero = get_elem? xs (length xs - 1)
before xs (suc i) = get_elem? xs i

module _ {F : Type 0} ⦃fl : Float F⦄ (np : Numpy F) where
  open fl use {lit, lt, le, eq}

  -- Along one axis: the upper corner of the cell and the weight, as `get_interp_weights_jit` has them.
  pub interp_weight : List F → F → Option (ℕ × F)
  interp_weight grid x = do
    first ← get_elem? grid 0
    last ← before grid 0
    if le x first
        then some (1, lit 0 0)
        else if le last x
        then some (length grid - 1, lit 1 0)
        else (do
          x0 ← before grid (np.searchsorted grid x)
          x1 ← get_elem? grid (np.searchsorted grid x)
          some (np.searchsorted grid x, (x ⊖ x0) ⊘ (x1 ⊖ x0)))

  unfoldable pub get_interp_weights_jit : List F → List F → F → F → Option (ℕ × F × ℕ × F)
  unfolding interp_weight
  get_interp_weights_jit grid_x grid_y x y = do
    (ix, wx) ← interp_weight grid_x x
    (iy, wy) ← interp_weight grid_y y
    some (ix, wx, iy, wy)

  -- The index of the upper corner along one axis, as `bilinear_interp_jit` has it: only the index is
  -- held within the grid.
  pub upper_index : List F → F → Option ℕ
  upper_index grid x = do
    first ← get_elem? grid 0
    last ← before grid 0
    some (
        if le x first
        then 1
        else if le last x
        then length grid - 1
        else if np.searchsorted grid x == 0
        then 1
        else np.searchsorted grid x)

  -- `0.0 if dx == 0 else (x - x0) / dx`
  abbrev pub cell_weight : F → F → F → F
  cell_weight x0 x1 x = if eq (x1 ⊖ x0) (lit 0 0) then lit 0 0 else (x ⊖ x0) ⊘ (x1 ⊖ x0)

-- The four corners of a cell, of which `ix` and `iy` are the upper corner.
pub record Corners (F : Type 0) : Type 0 where
  pub f00 : F
  pub f10 : F
  pub f01 : F
  pub f11 : F

pub corners : {F : Type 0} → List (List F) → ℕ → ℕ → Option (Corners F)
corners table ix iy = do
  row0 ← before table ix
  row1 ← get_elem? table ix
  f00 ← before row0 iy
  f01 ← get_elem? row0 iy
  f10 ← before row1 iy
  f11 ← get_elem? row1 iy
  some (record { f00 = f00; f10 = f10; f01 = f01; f11 = f11 })

module _ {F : Type 0} ⦃fl : Float F⦄ where
  open fl use {lit}

  abbrev pub blend_weights : Corners F → F → F → F
  blend_weights c wx wy =
      (lit 1 0 ⊖ wx) ⊗ (lit 1 0 ⊖ wy) ⊗ c.f00
      ⊕ wx ⊗ (lit 1 0 ⊖ wy) ⊗ c.f10
      ⊕ (lit 1 0 ⊖ wx) ⊗ wy ⊗ c.f01
      ⊕ wx ⊗ wy ⊗ c.f11

  unfoldable pub interp_from_weights_jit : List (List F) → ℕ → ℕ → F → F → Option F
  unfolding corners
  interp_from_weights_jit table ix iy wx wy = do
    c ← corners table ix iy
    some (blend_weights c wx wy)

  abbrev pub blend_corners : Corners F → F → F → F
  blend_corners c wx wy =
      c.f00 ⊗ (lit 1 0 ⊖ wx) ⊗ (lit 1 0 ⊖ wy)
      ⊕ c.f10 ⊗ wx ⊗ (lit 1 0 ⊖ wy)
      ⊕ c.f01 ⊗ (lit 1 0 ⊖ wx) ⊗ wy
      ⊕ c.f11 ⊗ wx ⊗ wy

  module _ (np : Numpy F) where
    pub bilinear_interp_jit : List F → List F → List (List F) → F → F → Option F
    unfolding corners upper_index
    bilinear_interp_jit grid_x grid_y table x y = do
      ix ← upper_index np grid_x x
      iy ← upper_index np grid_y y
      x0 ← before grid_x ix
      x1 ← get_elem? grid_x ix
      y0 ← before grid_y iy
      y1 ← get_elem? grid_y iy
      c ← corners table ix iy
      some (blend_corners c (cell_weight np x0 x1 x) (cell_weight np y0 y1 y))

    pub batch_bilinear_interp_jit :
        List F → List F → List (List F) → List F → List F → Option (List F)
    batch_bilinear_interp_jit grid_x grid_y table [] ys = some []
    batch_bilinear_interp_jit grid_x grid_y table (x ∷ xs) [] = none
    batch_bilinear_interp_jit grid_x grid_y table (x ∷ xs) (y ∷ ys) = do
      v ← bilinear_interp_jit grid_x grid_y table x y
      vs ← batch_bilinear_interp_jit grid_x grid_y table xs ys
      some (v ∷ vs)

    -- `if v < lo: v = lo`, `if v > hi: v = hi`
    abbrev pub held_within : F → F → F → F
    held_within lo hi v = let low = if fl.lt v lo then lo else v in if fl.lt hi low then hi else low

    pub bilinear_interp_liquid : List F → List F → List (List F) → F → F → Option F
    bilinear_interp_liquid grid_p grid_t table p t =
        bilinear_interp_jit grid_p grid_t table (held_within (lit 100000 0) (lit 2000000 0) p)
          (held_within (lit 27315 2) (lit 37315 2) t)
