-- ===== src/Kernels/Compression.antt =====
-- `solve_temperature_from_enthalpy_jit` and `calculate_compression_realgas_jit`: the temperature at
-- an enthalpy, by Newton's steps on the tables, and the compression of a real gas.
pub mod Solved
use matrix_factory.Prelude.{
  ℕ, zero, suc, ◌+◌, ◌-◌, ◌≤◌, ◌<◌, ◌≡◌, refl, sym, subst, inl, inr, ◌⊎◌, List, [], ◌∷◌, Option,
  some, length, get_elem?, get_elem?-some, if◌then◌else◌, ◌==◌, Bool-cases, arith,
}
use matrix_factory.Float.{Float, Numpy, ◌⊕◌, ◌⊖◌, ◌⊗◌, ◌⊘◌, IsNum, Le, IsOrdered}
use matrix_factory.Grid.{◌>>=◌, before, corners, blend_corners, bilinear_interp_jit}
use matrix_factory.Grid.Cells.{IsTable, IsUpper, before-some, corners-some}
use matrix_factory.Grid.Mixture.{mixture_weight}
use matrix_factory.Kernels.{Within}

module _ {F : Type 0} ⦃fl : Float F⦄ where
  open fl use {lit, lt, le, abs, min, max, pow}

  -- The first index from `i` on at which the grid reaches `v`; 0 if there is none.
  abbrev pub first_reaching : F → List F → ℕ → ℕ
  first_reaching v [] i = 0
  first_reaching v (x ∷ xs) i = if le v x then i else first_reaching v xs (suc i)

  -- The scan from index 1 on.
  abbrev pub scan_index : List F → F → ℕ
  scan_index [] v = 1
  scan_index (x ∷ xs) v = let i = first_reaching v xs 1 in if i == 0 then 1 else i

  -- `T_new = max(T_new, 273.15)`, `T_new = min(T_new, 1200.0)`
  abbrev pub held_temperature : F → F
  held_temperature t = min (max t (lit 27315 2)) (lit 12000 1)

  -- The enthalpy and the heat capacity tables at one row of cells and one temperature.
  module _ (t_grid : List F) (h_lut c_lut : List (List F)) (h_target cp_default tol wp : F)
      (ip : ℕ) where
    -- The next temperature.
    abbrev pub newton_step : F → Option F
    newton_step t = do
      t_first ← get_elem? t_grid 0
      t_last ← before t_grid 0
      let t_clamped = min (max t t_first) t_last
      let it = scan_index t_grid t_clamped
      t0 ← before t_grid it
      t1 ← get_elem? t_grid it
      h ← corners h_lut ip it
      c ← corners c_lut ip it
      let wt = mixture_weight t0 t1 t_clamped
      let cp_read = blend_corners c wp wt
      let cp_current = if lt cp_read (lit 1000 1) then cp_default else cp_read
      some (held_temperature (t ⊕ (h_target ⊖ blend_corners h wp wt) ⊘ cp_current))

    unfoldable pub temperature_loop : ℕ → F → Option F
    temperature_loop zero t = some t
    temperature_loop (suc n) t = do
      t_new ← newton_step t
      if lt (abs (t_new ⊖ t)) tol then some t_new else temperature_loop n t_new

  -- The defaults: `cp_default = 4180`, `tol = 0.01`, `max_iter = 20`.
  unfoldable pub solve_temperature_from_enthalpy_jit :
      F → F → F → List F → List F → List (List F) → List (List F) → F → F → ℕ → Option F
  unfolding temperature_loop
  solve_temperature_from_enthalpy_jit h_target pressure t_guess p_grid t_grid h_lut c_lut cp_default
        tol max_iter =
      do
        p_first ← get_elem? p_grid 0
        p_last ← before p_grid 0
        let p_clamped = min (max pressure p_first) p_last
        let ip = scan_index p_grid p_clamped
        p0 ← before p_grid ip
        p1 ← get_elem? p_grid ip
        temperature_loop t_grid h_lut c_lut h_target cp_default tol (mixture_weight p0 p1 p_clamped)
            ip max_iter t_guess

  -- The work, the outlet temperature and the outlet enthalpy.
  pub calculate_compression_realgas_jit :
      Numpy F
      → F
      → F
      → F
      → F
      → List F
      → List F
      → List F
      → List (List F)
      → List (List F)
      → List (List F)
      → List (List F)
      → Option (F × F × F)
  unfolding solve_temperature_from_enthalpy_jit
  calculate_compression_realgas_jit np p_in p_out t_in efficiency p_grid t_grid s_grid h_lut s_lut
        c_lut h_from_ps =
      do
        s_in ← bilinear_interp_jit np p_grid t_grid s_lut p_in t_in
        h_in ← bilinear_interp_jit np p_grid t_grid h_lut p_in t_in
        h_out_isen ← bilinear_interp_jit np p_grid s_grid h_from_ps p_out s_in
        let w_actual = (h_out_isen ⊖ h_in) ⊘ efficiency
        let exponent = (lit 141 2 ⊖ lit 10 1) ⊘ lit 141 2
        let t_guess = max (lit 27315 2) (min (t_in ⊗ pow (p_out ⊘ p_in) exponent) (lit 12000 1))
        t_out ←
            solve_temperature_from_enthalpy_jit (h_in ⊕ w_actual) p_out t_guess p_grid t_grid h_lut
              c_lut (lit 41800 1) (lit 1 2) 20
        some (w_actual, t_out, h_in ⊕ w_actual)
