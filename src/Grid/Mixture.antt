-- ===== src/Grid/Mixture.antt =====
-- `get_mixture_enthalpy_fast` of physical_engine/optimization/_numba_ops_core_python.py: one cell for
-- all species, and the sum of their enthalpies by mass fraction.
use matrix_factory.Prelude.{
  ℕ, ◌-◌, ◌≤◌, ◌≡◌, refl, inl, inr, Option, none, some, List, [], ◌∷◌, ◌==◌, leb, if◌then◌else◌,
  length, get_elem?, get_elem?-some, All, Bool-cases, arith,
}
use matrix_factory.Float.{Float, Numpy, ◌⊕◌, ◌⊖◌, ◌⊗◌, ◌⊘◌}
use matrix_factory.Grid.{◌>>=◌, before, corners, blend_corners}
use matrix_factory.Grid.Cells.{IsTable, IsUpper, before-some, corners-some}

module _ {F : Type 0} ⦃fl : Float F⦄ where
  open fl use {lit, lt, eq}

  abbrev pub held_between : F → F → F → F
  held_between lo hi x = if lt x lo then lo else if lt hi x then hi else x

  -- `np.searchsorted(grid, x)`, held within the grid.
  abbrev pub held_index : Numpy F → List F → F → ℕ
  held_index np grid x =
      let ix = np.searchsorted grid x in
      if ix == 0 then 1 else if leb (length grid) ix then length grid - 1 else ix

  abbrev pub mixture_weight : F → F → F → F
  mixture_weight x0 x1 x = if eq x1 x0 then lit 0 0 else (x ⊖ x0) ⊘ (x1 ⊖ x0)

  -- The loop over the species; one with hardly any mass is passed over, and its table not read.
  unfoldable pub mixture_loop : List (List (List F)) → List F → ℕ → ℕ → F → F → F → Option F
  mixture_loop tables [] ix iy wp wt h_mix = some h_mix
  mixture_loop [] (w ∷ ws) ix iy wp wt h_mix = do
    h ← if lt w (lit 1 12) then some h_mix else none
    mixture_loop [] ws ix iy wp wt h
  mixture_loop (table ∷ tables) (w ∷ ws) ix iy wp wt h_mix = do
    h ←
        if lt w (lit 1 12)
        then some h_mix
        else (do c ← corners table ix iy; some (h_mix ⊕ w ⊗ blend_corners c wp wt))
    mixture_loop tables ws ix iy wp wt h

  pub get_mixture_enthalpy_fast :
      Numpy F → List (List (List F)) → List F → List F → List F → F → F → Option F
  unfolding mixture_loop
  get_mixture_enthalpy_fast np stacked_h p_grid t_grid mass_fracs p_sys t_k = do
    p_min ← get_elem? p_grid 0
    p_max ← before p_grid 0
    t_min ← get_elem? t_grid 0
    t_max ← before t_grid 0
    let p = held_between p_min p_max p_sys
    let t = held_between t_min t_max t_k
    let ix = held_index np p_grid p
    let iy = held_index np t_grid t
    p0 ← before p_grid ix
    p1 ← get_elem? p_grid ix
    t0 ← before t_grid iy
    t1 ← get_elem? t_grid iy
    mixture_loop stacked_h mass_fracs ix iy (mixture_weight p0 p1 p) (mixture_weight t0 t1 t)
        (lit 0 0)

  held_index-IsUpper :
      (np : Numpy F) (grid : List F) (x : F) → 2 ≤ length grid → IsUpper grid (held_index np grid x)
  held_index-IsUpper np grid x two = (ground arith, ground arith)

  mixture_loop_in_table :
      (p_grid t_grid : List F) (tables : List (List (List F))) (ws : List F) (ix iy : ℕ)
      (wp wt h_mix : F)
      → All (IsTable p_grid t_grid) tables
      → length ws ≤ length tables
      → IsUpper p_grid ix
      → IsUpper t_grid iy
      → (v : F) × (mixture_loop tables ws ix iy wp wt h_mix ≡ some v)
  unfolding mixture_loop
  mixture_loop_in_table p_grid t_grid tables [] ix iy wp wt h_mix all n ux uy = (h_mix, refl)
  mixture_loop_in_table p_grid t_grid [] (w ∷ ws) ix iy wp wt h_mix all n ux uy =
      absurd (omega arith)
  mixture_loop_in_table p_grid t_grid (table ∷ tables) (w ∷ ws) ix iy wp wt h_mix (t, ts) n ux uy =
      let (c, e) = corners-some p_grid t_grid table ix iy t ux uy in
      elim (Bool-cases (lt w (lit 1 12))) [
        | inl y ↦
            let (v, q) =
              mixture_loop_in_table p_grid t_grid tables ws ix iy wp wt h_mix ts (omega arith) ux
                uy in
            (v, rw y q)
        | inr y ↦
            let (v, q) =
              mixture_loop_in_table p_grid t_grid tables ws ix iy wp wt
                (h_mix ⊕ w ⊗ blend_corners c wp wt) ts (omega arith) ux uy in
            (v, rw (y, e) q)
      ]

  -- On grids of at least two points, and a table for each mass fraction, the mixture's enthalpy at
  -- any pressure and temperature, NaN too, reads only entries of the grids and of the tables.
  pub get_mixture_enthalpy_fast_in_table :
      (np : Numpy F) (stacked_h : List (List (List F))) (p_grid t_grid mass_fracs : List F)
      (p_sys t_k : F)
      → 2 ≤ length p_grid
      → 2 ≤ length t_grid
      → All (IsTable p_grid t_grid) stacked_h
      → length mass_fracs ≤ length stacked_h
      → (v : F) × (get_mixture_enthalpy_fast np stacked_h p_grid t_grid mass_fracs p_sys t_k
          ≡ some v)
  unfolding get_mixture_enthalpy_fast
  get_mixture_enthalpy_fast_in_table np stacked_h pg tg ws p_sys t_k two two' all n =
      let (p_min, a) = get_elem?-some pg 0 (omega arith) in
      let (p_max, b) = get_elem?-some pg (length pg - 1) (omega arith) in
      let (t_min, c) = get_elem?-some tg 0 (omega arith) in
      let (t_max, d) = get_elem?-some tg (length tg - 1) (omega arith) in
      let p = held_between p_min p_max p_sys in
      let t = held_between t_min t_max t_k in
      let ux = held_index-IsUpper np pg p two in
      let uy = held_index-IsUpper np tg t two' in
      let (p0, e0) = before-some pg (held_index np pg p) ux.0 (omega (arith, ux.1)) in
      let (p1, e1) = get_elem?-some pg (held_index np pg p) ux.1 in
      let (t0, f0) = before-some tg (held_index np tg t) uy.0 (omega (arith, uy.1)) in
      let (t1, f1) = get_elem?-some tg (held_index np tg t) uy.1 in
      let (v, q) =
        mixture_loop_in_table pg tg stacked_h ws (held_index np pg p) (held_index np tg t)
          (mixture_weight p0 p1 p) (mixture_weight t0 t1 t) (lit 0 0) all n ux uy in
      (v, rw (a, b, c, d, e0, e1, f0, f1) q)
