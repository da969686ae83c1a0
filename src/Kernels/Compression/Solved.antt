-- ===== src/Kernels/Compression/Solved.antt =====
-- The temperature that `solve_temperature_from_enthalpy_jit` finds.
use matrix_factory.Prelude.{
  ℕ, zero, suc, ◌+◌, ◌-◌, ◌≤◌, ◌<◌, ◌≡◌, refl, sym, subst, inl, inr, ◌⊎◌, List, [], ◌∷◌, some,
  length, get_elem?-some, if◌then◌else◌, Bool-cases, arith,
}
use matrix_factory.Float.{Float, ◌⊕◌, ◌⊖◌, ◌⊘◌, IsNum, Le, IsOrdered}
use matrix_factory.Grid.{blend_corners}
use matrix_factory.Grid.Cells.{IsTable, IsUpper, before-some, corners-some}
use matrix_factory.Grid.Mixture.{mixture_weight}
use matrix_factory.Kernels.{Within}
use matrix_factory.Kernels.Compression.{
  first_reaching, scan_index, held_temperature, newton_step, temperature_loop,
  solve_temperature_from_enthalpy_jit,
}

module _ {F : Type 0} ⦃fl : Float F⦄ where
  open fl use {lit, lt, le, abs, min, max, pow}

  pub first_reaching_bounds :
      (v : F) (xs : List F) (i : ℕ)
      → 1 ≤ i
      → (first_reaching v xs i ≡ 0)
        ⊎ ((1 ≤ first_reaching v xs i) × (first_reaching v xs i < i + length xs))
  first_reaching_bounds v [] i h = inl refl
  first_reaching_bounds v (x ∷ xs) i h = elim (Bool-cases (le v x)) [
    | inl y ↦ rw y (inr (h, omega arith))
    | inr n ↦ rw n (elim (first_reaching_bounds v xs (suc i) (omega arith)) [
      | inl e ↦ inl e
      | inr (a, b) ↦ inr (a, omega arith)
    ])
  ]

  scan_index-IsUpper : (grid : List F) (v : F) → 2 ≤ length grid → IsUpper grid (scan_index grid v)
  scan_index-IsUpper [] v two = absurd (omega arith)
  scan_index-IsUpper (x ∷ xs) v two = elim (first_reaching_bounds v xs 1 (omega arith)) [
    | inl e ↦ rw e (omega arith, two)
    | inr (a, b) ↦ (ground arith, ground arith)
  ]

  module _ (laws : IsOrdered F) where
    open laws use {le_num, lit_le, max_lem, min_lem, max_either, min_either}

    held_temperature-Within :
        (t : F)
        → IsNum (held_temperature t)
        → Within (lit 27315 2) (lit 12000 1) (held_temperature t)
    held_temperature-Within t num = elim (min_either (max t (lit 27315 2)) (lit 12000 1)) [
      | inr e ↦ rw e (range, (le_num _ _ range).1)
      | inl e ↦
          let n : IsNum (max t (lit 27315 2)) = subst (λ x. IsNum x) e num in
          let (below_low, below_high, _) =
            min_lem (max t (lit 27315 2)) (lit 12000 1) n (le_num _ _ range).1 in
          elim (max_either t (lit 27315 2)) [
            | inr e' ↦ rw (e, e') ((le_num _ _ range).0, range)
            | inl e' ↦
                let (_, above, _) =
                  max_lem t (lit 27315 2) (subst (λ x. IsNum x) e' n) (le_num _ _ range).0 in
                (rw e above, below_high)
          ]
    ]
      where
        range : Le (lit 27315 2) (lit 12000 1)
        range = lit_le 27315 2 12000 1 (omega arith)

    module _ (p_grid t_grid : List F) (h_lut c_lut : List (List F)) (h_target cp_default tol wp : F)
        (ip : ℕ) (two : 2 ≤ length t_grid) (h_shape : IsTable p_grid t_grid h_lut)
        (c_shape : IsTable p_grid t_grid c_lut) (upper : IsUpper p_grid ip) where
      newton_step_lem :
          (t : F)
          → (t_new : F) × (newton_step t_grid h_lut c_lut h_target cp_default tol wp ip t
              ≡ some t_new)
            × (IsNum t_new → Within (lit 27315 2) (lit 12000 1) t_new)
      newton_step_lem t =
          let (t_first, a) = get_elem?-some t_grid 0 (omega arith) in
          let (t_last, b) = get_elem?-some t_grid (length t_grid - 1) (omega arith) in
          let t_clamped = min (max t t_first) t_last in
          let it = scan_index t_grid t_clamped in
          let uy = scan_index-IsUpper t_grid t_clamped two in
          let (t0, c) =
            before-some t_grid (scan_index t_grid t_clamped) uy.0 (omega (arith, uy.1)) in
          let (t1, d) = get_elem?-some t_grid (scan_index t_grid t_clamped) uy.1 in
          let (h, e) =
            corners-some p_grid t_grid h_lut ip (scan_index t_grid t_clamped) h_shape upper uy in
          let (k, e') =
            corners-some p_grid t_grid c_lut ip (scan_index t_grid t_clamped) c_shape upper uy in
          (
            held_temperature (
                t
                ⊕ (h_target ⊖ blend_corners h wp (mixture_weight t0 t1 t_clamped))
                  ⊘ (if lt (blend_corners k wp (mixture_weight t0 t1 t_clamped)) (lit 1000 1)
                      then cp_default
                      else blend_corners k wp (mixture_weight t0 t1 t_clamped))),
            rw (a, b, c, d, e, e') refl,
            held_temperature-Within _,
          )

      temperature_loop_lem :
          (n : ℕ) (t : F)
          → (t_out : F) × (temperature_loop t_grid h_lut c_lut h_target cp_default tol wp ip n t
              ≡ some t_out)
            × (IsNum t_out → (t_out ≡ t) ⊎ Within (lit 27315 2) (lit 12000 1) t_out)
      unfolding temperature_loop
      temperature_loop_lem zero t = (t, refl, λ _. inl refl)
      temperature_loop_lem (suc n) t =
          let (t_new, e, w) = newton_step_lem t in
          elim (Bool-cases (lt (abs (t_new ⊖ t)) tol)) [
            | inl y ↦ (t_new, rw (e, y) refl, λ m. inr (w m))
            | inr far ↦
                let (t_out, q, r) = temperature_loop_lem n t_new in
                (
                  t_out,
                  rw (e, far) q,
                  λ m. elim (r m) [
                    | inl same_t ↦ inr (
                        subst (λ x. Within (lit 27315 2) (lit 12000 1) x) (sym same_t)
                          (w (subst (λ x. IsNum x) same_t m)))
                    | inr range ↦ inr range
                  ],
                )
          ]

    -- On grids of at least two points and tables of their shape, the solver reads only entries of
    -- them, at any pressure, enthalpy and guess, NaN too, and returns after at most `max_iter`
    -- steps. A result that is a number is the guess or lies between 273.15 K and 1200 K.
    pub solve_temperature_from_enthalpy_jit_lem :
        (h_target pressure t_guess : F) (p_grid t_grid : List F) (h_lut c_lut : List (List F))
        (cp_default tol : F) (max_iter : ℕ)
        → 2 ≤ length p_grid
        → 2 ≤ length t_grid
        → IsTable p_grid t_grid h_lut
        → IsTable p_grid t_grid c_lut
        → (t : F) × (solve_temperature_from_enthalpy_jit h_target pressure t_guess p_grid t_grid
              h_lut c_lut cp_default tol max_iter
            ≡ some t)
          × (IsNum t → (t ≡ t_guess) ⊎ Within (lit 27315 2) (lit 12000 1) t)
    unfolding solve_temperature_from_enthalpy_jit
    solve_temperature_from_enthalpy_jit_lem h_target pressure t_guess p_grid t_grid h_lut c_lut
          cp_default tol max_iter two two' hs cs =
        let (p_first, a) = get_elem?-some p_grid 0 (omega arith) in
        let (p_last, b) = get_elem?-some p_grid (length p_grid - 1) (omega arith) in
        let p_clamped = min (max pressure p_first) p_last in
        let ux = scan_index-IsUpper p_grid p_clamped two in
        let (p0, c) = before-some p_grid (scan_index p_grid p_clamped) ux.0 (omega (arith, ux.1)) in
        let (p1, d) = get_elem?-some p_grid (scan_index p_grid p_clamped) ux.1 in
        let (t, q, w) =
          temperature_loop_lem p_grid t_grid h_lut c_lut h_target cp_default tol
            (mixture_weight p0 p1 p_clamped) (scan_index p_grid p_clamped) two' hs cs ux max_iter
            t_guess in
        (t, rw (a, b, c, d) q, w)
