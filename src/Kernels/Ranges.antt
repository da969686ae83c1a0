-- ===== src/Kernels/Ranges.antt =====
-- The ranges of what the flash kernels return.
use matrix_factory.Prelude.{
  ℕ, zero, suc, ◌≡◌, refl, inl, inr, ◌⊎◌, false, ◌||◌, List, Bool-cases, arith,
}
use matrix_factory.Float.{Float, ◌⊖◌, ◌⊗◌, ◌⊘◌, IsNum, Le, Lt, IsOrdered, IsRounded, lt_of_lt_le}
use matrix_factory.Kernels.{held, Within, result-Within, not_lt_of_le}
use matrix_factory.Kernels.Flash.{
  Species, water_loop, solve_water_t_from_h_jit, solve_rachford_rice_single_condensable,
  calculate_mixture_enthalpy, calculate_mixture_cp, uv_loop, solve_uv_flash,
}

module _ {F : Type 0} ⦃fl : Float F⦄ (laws : IsOrdered F) where
  open fl use {lit, lt, le, eq, abs}
  open laws use {le_num, le_trans, lit_le, not_le_of_lt, le_of_not_lt}

  water_loop-Within :
      (target : F) (n : ℕ) (t : F)
      → IsNum (water_loop target n t)
      → (water_loop target n t ≡ t) ⊎ Within (lit 27315 2) (lit 6470 1) (water_loop target n t)
  unfolding water_loop
  water_loop-Within target zero t num = inl refl
  water_loop-Within target (suc n) t num =
      elim (Bool-cases (lt (abs error) (lit 1 2 ⊗ lit 41840 1))) [
        | inl y ↦ rw y (inl refl)
        | inr far ↦ rw far (
            inr (
              result-Within laws (lit 27315 2) (lit 6470 1) (t ⊖ error ⊘ lit 41840 1)
                (water_loop target n next) (lit_le 27315 2 6470 1 (omega arith)) (rw far at num)
                (water_loop-Within target n next (rw far at num))))
      ]
    where
      error : F
      error = lit 41840 1 ⊗ (t ⊖ lit 27315 2) ⊖ target

      next : F
      next = held (lit 27315 2) (lit 6470 1) (t ⊖ error ⊘ lit 41840 1)

  -- A temperature that `solve_water_T_from_H_jit` returns, if it is a number, is the guess itself or
  -- lies between 273.15 K and 647 K.
  pub solve_water_t_from_h_jit-Within :
      (target_h p_pa t_guess : F)
      → IsNum (solve_water_t_from_h_jit target_h p_pa t_guess)
      → (solve_water_t_from_h_jit target_h p_pa t_guess ≡ t_guess)
        ⊎ Within (lit 27315 2) (lit 6470 1) (solve_water_t_from_h_jit target_h p_pa t_guess)
  unfolding solve_water_t_from_h_jit
  solve_water_t_from_h_jit-Within target_h p_pa t_guess num =
      water_loop-Within target_h 10 t_guess num

  module _ (species : List (Species F)) (target r_gas tol : F) where
    uv_loop-Within :
        (n : ℕ) (t : F)
        → IsNum (uv_loop species target r_gas tol n t)
        → (uv_loop species target r_gas tol n t ≡ t)
          ⊎ Within (lit 100 1) (lit 50000 1) (uv_loop species target r_gas tol n t)
    unfolding uv_loop
    uv_loop-Within zero t num = inl refl
    uv_loop-Within (suc n) t num = elim (Bool-cases (lt (abs f) tol)) [
      | inl y ↦ rw y (inl refl)
      | inr far ↦ elim (Bool-cases (eq df (lit 0 0))) [
        | inl y ↦ rw (far, y) (inl refl)
        | inr steep ↦ elim (Bool-cases (lt (abs (next ⊖ t)) tol)) [
          | inl y ↦ rw (far, steep, y) (inr (after next (rw (far, steep, y) at num) (inl refl)))
          | inr moved ↦
              rw (far, steep, moved)
                (inr (
                  after (uv_loop species target r_gas tol n next) (rw (far, steep, moved) at num)
                    (uv_loop-Within n next (rw (far, steep, moved) at num))))
        ]
      ]
    ]
      where
        f : F
        f = calculate_mixture_enthalpy t species (lit 29815 2) ⊖ r_gas ⊗ t ⊖ target

        df : F
        df = calculate_mixture_cp t species ⊖ r_gas

        next : F
        next = held (lit 100 1) (lit 50000 1) (t ⊖ f ⊘ df)

        after :
            (r : F)
            → IsNum r
            → (r ≡ next) ⊎ Within (lit 100 1) (lit 50000 1) r
            → Within (lit 100 1) (lit 50000 1) r
        after r =
            result-Within laws (lit 100 1) (lit 50000 1) (t ⊖ f ⊘ df) r
              (lit_le 100 1 50000 1 (omega arith))

    -- A temperature that `solve_uv_flash` returns, if it is a number, is the guess itself or lies
    -- between 10 K and 5000 K, whatever the limit of its iterations.
    pub solve_uv_flash-Within :
        (volume_m3 total_moles t_guess : F) (max_iter : ℕ)
        → IsNum (solve_uv_flash species target r_gas tol volume_m3 total_moles t_guess max_iter)
        → (solve_uv_flash species target r_gas tol volume_m3 total_moles t_guess max_iter ≡ t_guess)
          ⊎ Within
              (lit 100 1)
              (lit 50000 1)
              (solve_uv_flash species target r_gas tol volume_m3 total_moles t_guess max_iter)
    unfolding solve_uv_flash
    solve_uv_flash-Within volume_m3 total_moles t_guess max_iter num =
        elim (Bool-cases (le total_moles (lit 0 0) || le volume_m3 (lit 0 0))) [
          | inl y ↦ rw y (inl refl)
          | inr n ↦ rw n (uv_loop-Within max_iter t_guess (rw n at num))
        ]

  module _ (rounded : IsRounded F) where
    open rounded use {sub_nonneg, sub_anti, div_unit, num_div}

    -- Where the feed holds more of the condensable than saturation allows, K < z ≤ 1, the vapour
    -- fraction is the analytical (1 - z) / (1 - K): the clamp never acts, and the fraction lies
    -- between 0 and 1. Here the quotient is a number, and `z` is no trace.
    pub solve_rachford_rice_two_phase :
        (z k : F)
        → Lt k z
        → Le z (lit 1 0)
        → Le (lit 1 12) z
        → IsNum ((lit 1 0 ⊖ z) ⊘ (lit 1 0 ⊖ k))
        → (solve_rachford_rice_single_condensable z k ≡ (lit 1 0 ⊖ z) ⊘ (lit 1 0 ⊖ k))
          × Within (lit 0 0) (lit 1 0) (solve_rachford_rice_single_condensable z k)
    unfolding solve_rachford_rice_single_condensable
    solve_rachford_rice_two_phase z k kz z1 trace num =
        let (n, d) = num_div _ _ num in
        let (low, high) =
          div_unit (lit 1 0 ⊖ z) (lit 1 0 ⊖ k) (sub_nonneg z (lit 1 0) z1 n)
            (sub_anti (lit 1 0) k z (laws.le_of_lt k z kz) d n) num in
        let k1 : le (lit 1 0) k ≡ false = not_le_of_lt _ _ (lt_of_lt_le laws k z (lit 1 0) kz z1) in
        rw
          (
            k1,
            not_lt_of_le laws _ _ trace,
            not_le_of_lt k z kz,
            not_lt_of_le laws _ _ low,
            not_lt_of_le laws _ _ high,
          )
          (refl, (low, high))
