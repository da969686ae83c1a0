-- ===== src/Kernels/Interchanger/Reads.antt =====
-- The reads of the interchanger's flash and the vapor fraction that it solves for.
use matrix_factory.Prelude.{
  ℕ, suc, ◌-◌, ◌≤◌, ◌≡◌, refl, inl, inr, Bool, true, false, ◌||◌, List, [], ◌∷◌, some, length,
  get_elem?-some, All, All-get, ◌==◌, Bool-cases, arith,
}
use matrix_factory.Float.{Float, ◌⊕◌, ◌⊖◌, ◌⊗◌, ◌⊘◌, IsNum, Le, IsOrdered, IsNum-lit}
use matrix_factory.Grid.{blend_weights, interp_from_weights_jit}
use matrix_factory.Grid.Cells.{IsGrid, IsTable, IsUpper, corners-some}
use matrix_factory.Kernels.{Within}
use matrix_factory.Kernels.Flash.{solve_rachford_rice_single_condensable}
use matrix_factory.Kernels.Interchanger.{lookup_within, inert_loop}

module _ {F : Type 0} ⦃fl : Float F⦄ where
  open fl use {lit, lt}

  pub lookup_within-some :
      (grid : List F) (v : F)
      → IsGrid grid
      → IsNum v
      → (x : F) × (clamped : Bool) × (lookup_within grid v ≡ some (x, clamped)) × IsNum x
  lookup_within-some grid v g num =
      let (first, a) = get_elem?-some grid 0 (omega (arith, g.long)) in
      let (last, b) = get_elem?-some grid (length grid - 1) (omega (arith, g.long)) in
      elim (Bool-cases (lt v first)) [
        | inl y ↦ (first, true, rw (a, b, y) refl, All-get (λ x. IsNum x) grid 0 g.numbers a)
        | inr n ↦ elim (Bool-cases (lt last v)) [
          | inl y ↦ (last, true, rw (a, b, n, y) refl, All-get (λ x. IsNum x) grid _ g.numbers b)
          | inr m ↦ (v, false, rw (a, b, n, m) refl, num)
        ]
      ]

  pub interp_some :
      (grid_x grid_y : List F) (table : List (List F)) (ix iy : ℕ) (wx wy : F)
      → IsTable grid_x grid_y table
      → IsUpper grid_x ix
      → IsUpper grid_y iy
      → (v : F) × (interp_from_weights_jit table ix iy wx wy ≡ some v)
  unfolding interp_from_weights_jit
  interp_some gx gy table ix iy wx wy t ux uy =
      let (c, e) = corners-some gx gy table ix iy t ux uy in (blend_weights c wx wy, rw e refl)

  pub inert_loop-some :
      (gx gy : List F) (ix iy : ℕ) (wp wt : F)
      → IsUpper gx ix
      → IsUpper gy iy
      → (tables : List (List (List F))) (fracs : List F) (i : ℕ) (h total : F)
      → All (λ t. IsTable gx gy t) tables
      → length tables ≤ length fracs
      → (out : F × F) × (inert_loop ix iy wp wt tables fracs i h total ≡ some out)
  unfolding inert_loop
  inert_loop-some gx gy ix iy wp wt ux uy [] fracs i h total shapes long = ((h, total), refl)
  inert_loop-some gx gy ix iy wp wt ux uy (t ∷ ts) [] i h total shapes long = absurd (omega arith)
  inert_loop-some gx gy ix iy wp wt ux uy (t ∷ ts) (w ∷ ws) i h total (s, shapes) long =
      elim (Bool-cases (lt w (lit 1 12) || i == 5)) [
        | inl y ↦
            let (out, e) =
              inert_loop-some gx gy ix iy wp wt ux uy ts ws (suc i) h total shapes (omega arith) in
            (out, rw y e)
        | inr n ↦
            let (v, q) = interp_some gx gy t ix iy wp wt s ux uy in
            let (out, e) =
              inert_loop-some gx gy ix iy wp wt ux uy ts ws (suc i) (h ⊕ w ⊗ v) (total ⊕ w) shapes
                (omega arith) in
            (out, rw (n, q) e)
      ]

module _ {F : Type 0} ⦃fl : Float F⦄ (laws : IsOrdered F) where
  open fl use {lit, lt, le}
  open laws use {lit_le, le_of_not_lt}

  -- The vapor fraction, if it is a number, lies between 0 and 1.
  pub rachford_rice_Within :
      (z k : F)
      → IsNum (solve_rachford_rice_single_condensable z k)
      → Within (lit 0 0) (lit 1 0) (solve_rachford_rice_single_condensable z k)
  unfolding solve_rachford_rice_single_condensable
  rachford_rice_Within z k num = elim (Bool-cases (le (lit 1 0) k || lt z (lit 1 12) || le z k)) [
    | inl y ↦ rw y (zero_one, IsNum-lit laws 1 0)
    | inr n ↦ elim (Bool-cases (lt ((lit 1 0 ⊖ z) ⊘ (lit 1 0 ⊖ k)) (lit 0 0))) [
      | inl low ↦ rw (n, low) (IsNum-lit laws 0 0, zero_one)
      | inr above ↦ elim (Bool-cases (lt (lit 1 0) ((lit 1 0 ⊖ z) ⊘ (lit 1 0 ⊖ k)))) [
        | inl high ↦ rw (n, above, high) (zero_one, IsNum-lit laws 1 0)
        | inr below ↦
            let m : IsNum ((lit 1 0 ⊖ z) ⊘ (lit 1 0 ⊖ k)) = rw (n, above, below) at num in
            rw (n, above, below)
              (
                le_of_not_lt _ _ m (IsNum-lit laws 0 0) above,
                le_of_not_lt _ _ (IsNum-lit laws 1 0) m below,
              )
      ]
    ]
  ]
    where
      zero_one : Le (lit 0 0) (lit 1 0)
      zero_one = lit_le 0 0 1 0 (omega arith)
