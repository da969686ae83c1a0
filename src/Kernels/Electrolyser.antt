-- ===== src/Kernels/Electrolyser.antt =====
-- `calculate_pem_voltage_jit` and `solve_pem_j_jit`: the cell voltage of the PEM electrolyser, and
-- the current density at which the plant draws a given power.
use matrix_factory.Prelude.{ℕ, zero, suc, ◌≡◌, refl, inl, inr, ◌⊎◌, if◌then◌else◌, Bool-cases}
use matrix_factory.Float.{Float, Numpy, ◌⊕◌, ◌⊖◌, ◌⊗◌, ◌⊘◌, IsNum, Le, IsOrdered}
use matrix_factory.Kernels.{held, Within, result-Within}

-- The parameters of the model that stay the same while the solver runs; `z` is a count of electrons.
pub record PemModel (F : Type 0) : Type 0 where
  pub temperature : F
  pub p_op : F
  pub r_gas : F
  pub faraday_constant : F
  pub z : F
  pub alpha : F
  pub j0 : F
  pub j_lim : F
  pub delta_mem : F
  pub sigma_base : F
  pub p_ref : F

pub record PemPlant (F : Type 0) : Type 0 where
  pub target_power : F
  pub area_total : F
  pub p_bop_fixo : F
  pub k_bop_var : F

module _ {F : Type 0} ⦃fl : Float F⦄ (np : Numpy F) where
  open fl use {lit, lt, le, eq, pow, max, abs}

  -- (R * T) / (z * F)
  abbrev pub thermal_voltage : PemModel F → F
  thermal_voltage c = c.r_gas ⊗ c.temperature ⊘ (c.z ⊗ c.faraday_constant)

  abbrev pub reversible_voltage : PemModel F → F
  reversible_voltage c =
      lit 1229 3
      ⊖ lit 9 4 ⊗ (c.temperature ⊖ lit 29815 2)
      ⊕ thermal_voltage c ⊗ np.log (pow (c.p_op ⊘ c.p_ref) (lit 15 1))

  unfoldable pub calculate_pem_voltage_jit : PemModel F → F → F
  calculate_pem_voltage_jit c j =
      let j_safe = max j (lit 1 10) in
      let eta_act =
        c.r_gas ⊗ c.temperature ⊘ (c.alpha ⊗ c.z ⊗ c.faraday_constant) ⊗ np.log (j_safe ⊘ c.j0) in
      let eta_ohm = j ⊗ (c.delta_mem ⊘ c.sigma_base) in
      let eta_conc =
        if le c.j_lim j
        then lit 1000 1
        else thermal_voltage c ⊗ np.log (c.j_lim ⊘ (c.j_lim ⊖ j_safe)) in
      reversible_voltage c ⊕ eta_act ⊕ eta_ohm ⊕ eta_conc

  module _ (c : PemModel F) (plant : PemPlant F) where
    -- How far the plant's power at a current density is from the target.
    abbrev pub power_error : F → F
    power_error x =
        x ⊗ plant.area_total ⊗ calculate_pem_voltage_jit c x ⊗ (lit 10 1 ⊕ plant.k_bop_var)
        ⊕ plant.p_bop_fixo
        ⊖ plant.target_power

    -- The Newton steps with `n` left.
    unfoldable pub pem_loop : F → ℕ → F → F
    pem_loop tol zero x = x
    pem_loop tol (suc n) x =
        let fx = power_error x in
        let dfx = (power_error (x ⊕ lit 1 5) ⊖ fx) ⊘ lit 1 5 in
        let rest = pem_loop tol n (held (lit 1 6) (c.j_lim ⊖ lit 1 2) (x ⊖ fx ⊘ dfx)) in
        if lt (abs fx) tol then x else if eq dfx (lit 0 0) then x else rest

    unfoldable pub solve_pem_j_jit : F → ℕ → F → F
    unfolding pem_loop
    solve_pem_j_jit j_guess max_iter tol = pem_loop tol max_iter j_guess

    module _ (laws : IsOrdered F) where
      pem_loop-Within :
          (tol : F) (n : ℕ) (x : F)
          → Le (lit 1 6) (c.j_lim ⊖ lit 1 2)
          → IsNum (pem_loop tol n x)
          → (pem_loop tol n x ≡ x) ⊎ Within (lit 1 6) (c.j_lim ⊖ lit 1 2) (pem_loop tol n x)
      unfolding pem_loop
      pem_loop-Within tol zero x h num = inl refl
      pem_loop-Within tol (suc n) x h num = elim (Bool-cases (lt (abs (power_error x)) tol)) [
        | inl y ↦ rw y (inl refl)
        | inr far ↦ elim (Bool-cases (eq slope (lit 0 0))) [
          | inl y ↦ rw (far, y) (inl refl)
          | inr steep ↦
              rw (far, steep)
                (inr (
                  result-Within laws (lit 1 6) (c.j_lim ⊖ lit 1 2) (x ⊖ power_error x ⊘ slope)
                    (pem_loop tol n next) h (rw (far, steep) at num)
                    (pem_loop-Within tol n next h (rw (far, steep) at num))))
        ]
      ]
        where
          slope : F
          slope = (power_error (x ⊕ lit 1 5) ⊖ power_error x) ⊘ lit 1 5

          next : F
          next = held (lit 1 6) (c.j_lim ⊖ lit 1 2) (x ⊖ power_error x ⊘ slope)

      -- Whatever the iteration limit, a result of the solver that is a number is the guess itself or
      -- lies between 10^-6 and the limiting current density less 0.01, if these are in order.
      pub solve_pem_j_jit-Within :
          (j_guess : F) (max_iter : ℕ) (tol : F)
          → Le (lit 1 6) (c.j_lim ⊖ lit 1 2)
          → IsNum (solve_pem_j_jit j_guess max_iter tol)
          → (solve_pem_j_jit j_guess max_iter tol ≡ j_guess)
            ⊎ Within (lit 1 6) (c.j_lim ⊖ lit 1 2) (solve_pem_j_jit j_guess max_iter tol)
      unfolding solve_pem_j_jit
      solve_pem_j_jit-Within j_guess max_iter tol h num = pem_loop-Within tol max_iter j_guess h num
