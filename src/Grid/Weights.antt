-- ===== src/Grid/Weights.antt =====
-- The weights with which an interpolation inside a cell blends its corners.
use matrix_factory.Prelude.{
  ℕ, zero, suc, ◌-◌, ◌≤◌, ◌≡◌, refl, inl, inr, some, List, arith, length, get_elem?-some,
  Bool-cases,
}
use matrix_factory.Float.{
  Float, Numpy, ◌⊖◌, ◌⊘◌, IsNum, Le, IsOrdered, IsNumpy, IsRounded, IsNum-lit,
}
use matrix_factory.Grid.{before, interp_weight}
use matrix_factory.Grid.Cells.{IsGrid, IsUpper, before-some, search-IsUpper, ends}

module _ {F : Type 0} ⦃fl : Float F⦄ (np : Numpy F) (laws : IsOrdered F) (numpy : IsNumpy F np)
    (rounded : IsRounded F) where
  open laws use {le_of_lt}
  open numpy use {searchsorted-lt, searchsorted-le}
  open rounded use {sub_nonneg, sub_mono, div_unit, num_div}

  -- Inside the grid the cell's weight, where it is a number, lies between 0 and 1.
  weight_bounds :
      (x0 x1 x : F)
      → Le x0 x
      → Le x x1
      → IsNum ((x ⊖ x0) ⊘ (x1 ⊖ x0))
      → Le (fl.lit 0 0) ((x ⊖ x0) ⊘ (x1 ⊖ x0)) × Le ((x ⊖ x0) ⊘ (x1 ⊖ x0)) (fl.lit 1 0)
  weight_bounds x0 x1 x below above n =
      let (an, bn) = num_div _ _ n in
      div_unit (x ⊖ x0) (x1 ⊖ x0) (sub_nonneg x0 x below an) (sub_mono x x1 x0 above an bn) n

  -- For a number `x` and a sorted grid of at least two points, `get_interp_weights_jit` picks a
  -- cell of the grid, and a weight that, if it is a number, lies between 0 and 1: what is below
  -- or above the grid is held at its ends.
  pub interp_weight_bounds :
      (grid : List F) (x : F)
      → IsGrid grid
      → IsNum x
      → (i : ℕ) × (w : F) × (interp_weight np grid x ≡ some (i, w))
        × IsUpper grid i
        × (IsNum w → Le (fl.lit 0 0) w × Le w (fl.lit 1 0))
  unfolding interp_weight
  interp_weight_bounds grid x g n =
      let (first, last, ef, el) = ends np laws numpy grid g in
      let zero_one = laws.lit_le 0 0 1 0 (omega arith) in
      elim (Bool-cases (fl.le x first)) [
        | inl below ↦ (
          1,
          fl.lit 0 0,
          rw (ef, el, below) refl,
          (omega arith, g.long),
          λ _. (IsNum-lit laws 0 0, zero_one),
        )
        | inr lo ↦ elim (Bool-cases (fl.le last x)) [
          | inl above ↦ (
            length grid - 1,
            fl.lit 1 0,
            rw (ef, el, lo, above) refl,
            (omega (arith, g.long), omega (arith, g.long)),
            λ _. (zero_one, IsNum-lit laws 1 0),
          )
          | inr hi ↦
              let up = search-IsUpper np laws numpy grid x first last g n ef el lo hi in
              let (x0, e0) = before-some grid (np.searchsorted grid x) up.0 (omega arith) in
              let (x1, e1) = get_elem?-some grid (np.searchsorted grid x) up.1 in
              (
                np.searchsorted grid x,
                (x ⊖ x0) ⊘ (x1 ⊖ x0),
                rw (ef, el, lo, hi, e0, e1) refl,
                up,
                weight_bounds x0 x1 x (lower _ x0 e0 up.0 (omega arith))
                    (searchsorted-le grid x _ x1 g.sorted g.numbers n (omega arith) e1),
              )
        ]
      ]
    where
      lower :
          (i : ℕ) (x0 : F) → before grid i ≡ some x0 → 1 ≤ i → i ≤ np.searchsorted grid x → Le x0 x
      lower zero x0 e p q = absurd (omega arith)
      lower (suc i) x0 e p q =
          le_of_lt x0 x (searchsorted-lt grid x i x0 g.sorted g.numbers n (omega arith) e)
