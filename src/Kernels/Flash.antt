-- ===== src/Kernels/Flash.antt =====
-- Saturation, the vapor fraction, and the temperatures that the flashes solve for.
use matrix_factory.Prelude.{ℕ, zero, suc, ◌||◌, List, [], ◌∷◌, if◌then◌else◌, ◌&&◌}
use matrix_factory.Float.{Float, ◌⊕◌, ◌⊖◌, ◌⊗◌, ◌⊘◌}
use matrix_factory.Kernels.{held}

-- The coefficients A, B, C, D, E of a heat capacity.
pub record CpCoeffs (F : Type 0) : Type 0 where
  pub a : F
  pub b : F
  pub c : F
  pub d : F
  pub e : F

-- A row of the flash's arrays: mole fraction, enthalpy of formation and coefficients of a species.
pub record Species (F : Type 0) : Type 0 where
  pub mole_fraction : F
  pub h_formation : F
  pub cp_coeffs : CpCoeffs F

module _ {F : Type 0} ⦃fl : Float F⦄ where
  open fl use {lit, lt, le, eq, pow, neg, abs}

  -- x**2, x**3, x**4
  abbrev pub to_the : F → ℕ → F
  to_the x n = pow x (lit n 0)

  pub calculate_water_psat_jit : F → F
  calculate_water_psat_jit t_k =
      (if lt t_k (lit 37315 2)
        then pow (lit 10 0) (lit 540221 5 ⊖ lit 1838675 3 ⊘ (t_k ⊕ neg (lit 31737 3)))
        else pow (lit 10 0) (lit 520389 5 ⊖ lit 1733926 3 ⊘ (t_k ⊕ neg (lit 39485 3))))
      ⊗ lit 100000 0

  -- The Newton steps on liquid water, with `n` left.
  unfoldable pub water_loop : F → ℕ → F → F
  water_loop target zero t_iter = t_iter
  water_loop target (suc n) t_iter =
      let error = lit 41840 1 ⊗ (t_iter ⊖ lit 27315 2) ⊖ target in
      let rest =
        water_loop target n (held (lit 27315 2) (lit 6470 1) (t_iter ⊖ error ⊘ lit 41840 1)) in
      if lt (abs error) (lit 1 2 ⊗ lit 41840 1) then t_iter else rest

  unfoldable pub solve_water_t_from_h_jit : F → F → F → F
  solve_water_t_from_h_jit target_h p_pa t_guess = water_loop target_h 10 t_guess

  unfoldable pub solve_rachford_rice_single_condensable : F → F → F
  solve_rachford_rice_single_condensable z k =
      if le (lit 1 0) k || lt z (lit 1 12) || le z k
      then lit 1 0
      else (let beta = (lit 1 0 ⊖ z) ⊘ (lit 1 0 ⊖ k) in
          if lt beta (lit 0 0) then lit 0 0 else if lt (lit 1 0) beta then lit 1 0 else beta)

  -- The conditional covers the whole sum, so that `delta_h` is 0 for a temperature that is not
  -- positive.
  abbrev pub delta_enthalpy : CpCoeffs F → F → F → F
  delta_enthalpy k t t_ref =
      if lt (lit 0 0) t && lt (lit 0 0) t_ref
      then k.a ⊗ (t ⊖ t_ref)
        ⊕ lit 5 1 ⊗ k.b ⊗ (to_the t 2 ⊖ to_the t_ref 2)
        ⊕ lit 1 0 ⊘ lit 3 0 ⊗ k.c ⊗ (to_the t 3 ⊖ to_the t_ref 3)
        ⊕ lit 25 2 ⊗ k.d ⊗ (to_the t 4 ⊖ to_the t_ref 4)
        ⊖ k.e ⊗ (lit 1 0 ⊘ t ⊖ lit 1 0 ⊘ t_ref)
      else lit 0 0

  unfoldable pub enthalpy_loop : F → F → List (Species F) → F → F
  enthalpy_loop t t_ref [] h_mix = h_mix
  enthalpy_loop t t_ref (s ∷ rest) h_mix = enthalpy_loop t t_ref rest (
      if lt s.mole_fraction (lit 1 12)
      then h_mix
      else h_mix ⊕ s.mole_fraction ⊗ (s.h_formation ⊕ delta_enthalpy s.cp_coeffs t t_ref))

  pub calculate_mixture_enthalpy : F → List (Species F) → F → F
  unfolding enthalpy_loop
  calculate_mixture_enthalpy t species t_ref = enthalpy_loop t t_ref species (lit 0 0)

  abbrev pub cp_species : CpCoeffs F → F → F
  cp_species k t =
      k.a
      ⊕ k.b ⊗ t
      ⊕ k.c ⊗ to_the t 2
      ⊕ k.d ⊗ to_the t 3
      ⊕ (if lt (lit 0 0) t then k.e ⊘ to_the t 2 else lit 0 0)

  unfoldable pub cp_loop : F → List (Species F) → F → F
  cp_loop t [] cp_mix = cp_mix
  cp_loop t (s ∷ rest) cp_mix = cp_loop t rest (
      if lt s.mole_fraction (lit 1 12)
      then cp_mix
      else cp_mix ⊕ s.mole_fraction ⊗ cp_species s.cp_coeffs t)

  pub calculate_mixture_cp : F → List (Species F) → F
  unfolding cp_loop
  calculate_mixture_cp t species = cp_loop t species (lit 0 0)

  module _ (species : List (Species F)) (target r_gas tol : F) where
    -- The Newton steps of the flash at constant volume. 298.15 K is the default of `T_ref`.
    unfoldable pub uv_loop : ℕ → F → F
    uv_loop zero t = t
    uv_loop (suc n) t =
        let f = calculate_mixture_enthalpy t species (lit 29815 2) ⊖ r_gas ⊗ t ⊖ target in
        let df = calculate_mixture_cp t species ⊖ r_gas in
        let t_new = held (lit 100 1) (lit 50000 1) (t ⊖ f ⊘ df) in
        let rest = uv_loop n t_new in
        if lt (abs f) tol
        then t
        else if eq df (lit 0 0)
        then t
        else if lt (abs (t_new ⊖ t)) tol
        then t_new
        else rest

    unfoldable pub solve_uv_flash : F → F → F → ℕ → F
    unfolding uv_loop
    solve_uv_flash volume_m3 total_moles t_guess max_iter =
        if le total_moles (lit 0 0) || le volume_m3 (lit 0 0)
        then t_guess
        else uv_loop max_iter t_guess

  module _ (species : List (Species F)) (target tol : F) where
    -- The Newton steps of the flash at constant pressure: the last step is not held.
    unfoldable pub ph_loop : ℕ → F → F
    ph_loop zero t = t
    ph_loop (suc n) t =
        let cp = calculate_mixture_cp t species in
        let delta_t = (target ⊖ calculate_mixture_enthalpy t species (lit 29815 2)) ⊘ cp in
        let rest = ph_loop n (held (lit 2750 1) (lit 50000 1) (t ⊕ delta_t)) in
        if lt (abs cp) (lit 1 4) then t else if lt (abs delta_t) tol then t ⊕ delta_t else rest

    unfoldable pub solve_ph_flash_jit : F → ℕ → F
    unfolding ph_loop
    solve_ph_flash_jit t_guess max_iter = ph_loop max_iter t_guess
