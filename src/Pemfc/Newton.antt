-- ===== src/Pemfc/Newton.antt =====
-- `newton_raphson_solver`: the current density that gives a wanted stack voltage.
use matrix_factory.Prelude.{
  ℕ, zero, suc, ◌≡◌, refl, ap, sym, ◌∙◌, inl, inr, ◌⊎◌, subst, Bool, true, false, Result, ok, ◌>>=◌,
  >>=-eq-ok, ok-injective, arith, Bool-cases, if◌then◌else◌,
}
use matrix_factory.Float.{
  Float, Numpy, ◌⊕◌, ◌⊖◌, ◌⊗◌, ◌⊘◌, IsNum, Le, Lt, IsOrdered, IsRounded, clamp_num_swapped,
}
use matrix_factory.Membrane.{compute_membrane_resistance}
use matrix_factory.Pemfc.{
  Stack, Cell, gas_constant, faraday, b_conc, activity_in_bounds, overpotentials, e_ocv_formula,
  voltage_returns, calculate_nernst_potential, calculate_pemfc_voltage,
}

-- How a pass of the loop ends: returned with convergence, returned without, or with the next `j`.
pub data Pass (F : Type 0) : Type 0 where
  converged flat next : F → Pass F

module _ {F : Type 0} ⦃fl : Float F⦄ (np : Numpy F) (v_target t : F) (c : Stack F) where
  open fl use {lit, lt, le, neg, abs, min, max}

  abbrev pub tol : F
  tol = lit 1 4

  -- The derivative of the stack voltage.
  abbrev pub dv_dj : F → F
  dv_dj j =
      let j_safe = max j (lit 1 10) in
      let deta_act_dj = (gas_constant ⊗ t) ⊘ (lit 5 1 ⊗ lit 4 0 ⊗ faraday ⊗ j_safe) in
      let deta_ohm_dj = c.r_internal ⊕ compute_membrane_resistance np c.lambda_mem t (lit 5 3) in
      let penalty_slope = b_conc ⊘ (c.j_lim ⊗ lit 1 2) in
      let deta_conc_dj =
        if le (j ⊘ c.j_lim) (lit 99 2) then b_conc ⊘ (c.j_lim ⊖ j) else penalty_slope ⊘ c.j_lim in
      lit c.n_cells 0 ⊗ (neg deta_act_dj ⊖ deta_ohm_dj ⊖ deta_conc_dj)

  -- The Newton step, held between 1e-10 and 0.999 of the limiting current.
  abbrev pub clamped : F → F
  clamped j_new = max (lit 1 10) (min j_new (lit 999 3 ⊗ c.j_lim))

  abbrev pub judge : F → F → Pass F
  judge j residual =
      if lt (abs residual) tol
      then converged j
      else if lt (abs (dv_dj j)) (lit 1 20)
      then flat j
      else next (clamped (j ⊖ residual ⊘ dv_dj j))

  unfoldable pub newton_pass : F → Result (Pass F)
  newton_pass j = do cell ← calculate_pemfc_voltage np j t c; ok (judge j (cell.v_stack ⊖ v_target))

  abbrev pub after : Pass F → (F → Result (F × Bool)) → Result (F × Bool)
  after (converged j) continue = ok (j, true)
  after (flat j) continue = ok (j, false)
  after (next j) continue = continue j

  -- The passes that are left.
  unfoldable pub newton_loop : ℕ → F → Result (F × Bool)
  newton_loop zero j = ok (j, false)
  newton_loop (suc n) j = do pass ← newton_pass j; after pass (λ j'. newton_loop n j')

  unfoldable pub newton_raphson_solver : Result (F × Bool)
  newton_raphson_solver = newton_loop 50 (lit 5 1 ⊗ c.j_lim)

  -- Within `tol` of the wanted voltage at `j`.
  abbrev pub IsSolution : F → Type 0
  IsSolution j =
      (cell : Cell F) × (calculate_pemfc_voltage np j t c ≡ ok cell)
      × Lt (abs (cell.v_stack ⊖ v_target)) tol

  judge-converged : (j r : F) {j' : F} → judge j r ≡ converged j' → (j' ≡ j) × Lt (abs r) tol
  judge-converged j r e = ground arith

  judge-next : (j r : F) {j' : F} → judge j r ≡ next j' → j' ≡ clamped (j ⊖ r ⊘ dv_dj j)
  judge-next j r e = ground arith

  -- One pass: it converged at a solution, or gave up, or goes on from a clamped value.
  newton_pass-cases :
      (j : F) {p : Pass F}
      → newton_pass j ≡ ok p
      → ((p ≡ converged j) × IsSolution j) ⊎ ((p ≡ flat j) ⊎ ((x : F) × (p ≡ next (clamped x))))
  unfolding newton_pass
  newton_pass-cases j e =
      let (cell, ec, ep) = >>=-eq-ok (calculate_pemfc_voltage np j t c) _ e in
      let r = cell.v_stack ⊖ v_target in
      elim (Bool-cases (lt (abs r) tol)) [
        | inl y ↦ inl (sym (ok-injective ep) ∙ rw y refl, (cell, ec, y))
        | inr n ↦ elim (Bool-cases (lt (abs (dv_dj j)) (lit 1 20))) [
          | inl y ↦ inr (inl (sym (ok-injective ep) ∙ rw (n, y) refl))
          | inr m ↦ inr (inr (j ⊖ r ⊘ dv_dj j, sym (ok-injective ep) ∙ rw (n, m) refl))
        ]
      ]

  -- The values of `j` that the loop visits.
  abbrev pub IsVisited : F → Type 0
  IsVisited j = (j ≡ lit 5 1 ⊗ c.j_lim) ⊎ ((x : F) × (j ≡ clamped x))

  newton_loop-IsSolution :
      (n : ℕ) (j : F) {j' : F}
      → IsVisited j
      → newton_loop n j ≡ ok (j', true)
      → IsSolution j' × IsVisited j'
  unfolding newton_loop
  newton_loop-IsSolution zero j v e = cc
  newton_loop-IsSolution (suc n) j {j'} v e =
      let (p, ep, en) = >>=-eq-ok (newton_pass j) _ e in
      let rest : F → Result (F × Bool) = λ j1. newton_loop n j1 in
      elim (newton_pass-cases j ep) [
        | inl (e', s) ↦
            let same = ok-injective (subst (λ q. after q rest ≡ ok (j', true)) e' en) in
            subst (λ i. IsSolution i × IsVisited i) (ap (λ r. r.0) same) (s, v)
        | inr (inl e') ↦ cc (subst (λ q. after q rest ≡ ok (j', true)) e' en)
        | inr (inr (x, e')) ↦
            newton_loop-IsSolution n (clamped x) (inr (x, refl))
              (subst (λ q. after q rest ≡ ok (j', true)) e' en)
      ]

  newton_pass_returns :
      activity_in_bounds c.a_h2 ≡ true
      → activity_in_bounds c.a_o2 ≡ true
      → (j : F) → (p : Pass F) × (newton_pass j ≡ ok p)
  unfolding newton_pass
  newton_pass_returns h o j =
      let cell = overpotentials np j t c (e_ocv_formula np t c.a_h2 c.a_o2) in
      (judge j (cell.v_stack ⊖ v_target), rw (voltage_returns np j t c h o) refl)

  newton_loop_returns :
      activity_in_bounds c.a_h2 ≡ true
      → activity_in_bounds c.a_o2 ≡ true
      → (n : ℕ) (j : F) → (r : F × Bool) × (newton_loop n j ≡ ok r)
  unfolding newton_loop
  newton_loop_returns h o zero j = ((j, false), refl)
  newton_loop_returns h o (suc n) j =
      let (p, e) = newton_pass_returns h o j in
      let (r, e') = finish p (λ j1. newton_loop n j1) (λ j1. newton_loop_returns h o n j1) in
      (r, rw e e')
    where
      finish :
          (p : Pass F) (k : F → Result (F × Bool))
          → ((j1 : F) → (r : F × Bool) × (k j1 ≡ ok r))
          → (r : F × Bool) × (after p k ≡ ok r)
      finish (converged j1) k total = ((j1, true), refl)
      finish (flat j1) k total = ((j1, false), refl)
      finish (next j1) k total = total j1

  -- With both activities in [0.5, 10] the solver returns, after at most 50 passes, a current density
  -- and whether it converged: none of its validations raises.
  pub newton_returns :
      activity_in_bounds c.a_h2 ≡ true
      → activity_in_bounds c.a_o2 ≡ true
      → (r : F × Bool) × (newton_raphson_solver ≡ ok r)
  unfolding newton_raphson_solver
  newton_returns h o = newton_loop_returns h o 50 (lit 5 1 ⊗ c.j_lim)

  -- The solver that reports convergence returns a current density at which the voltage is defined and
  -- within 1e-4 V of the wanted one.
  pub newton_converged-IsSolution : (j : F) → newton_raphson_solver ≡ ok (j, true) → IsSolution j
  unfolding newton_raphson_solver
  newton_converged-IsSolution j e = (newton_loop-IsSolution 50 (lit 5 1 ⊗ c.j_lim) (inl refl) e).0

  module _ (laws : IsOrdered F) (rounded : IsRounded F) where
    open laws use {le_num, le_of_lt, num_abs_part, max_either, min_either, max_lem, min_lem}
    open rounded use {num_sub_parts, num_mul_parts}

    -- A solution is a number: NaN would show in the voltage.
    solution-IsNum : (j : F) → IsSolution j → IsNum j
    unfolding calculate_pemfc_voltage
    solution-IsNum j (cell, e, near) =
        let (e_ocv, _, shape) = >>=-eq-ok (calculate_nernst_potential np t c.a_h2 c.a_o2) _ e in
        let residual : IsNum (cell.v_stack ⊖ v_target) =
          num_abs_part _ (le_num _ _ (le_of_lt _ _ near)).0 in
        let voltage : IsNum (overpotentials np j t c e_ocv).v_stack =
          subst (λ v. IsNum v.v_stack) (sym (ok-injective shape)) (num_sub_parts _ _ residual).0 in
        let v_cell = (num_mul_parts _ _ voltage).1 in
        let eta_ohm = (num_sub_parts _ _ (num_sub_parts _ _ v_cell).0).1 in
        (num_mul_parts _ _ eta_ohm).0

    clamped_range :
        (x : F)
        → Le (lit 1 10) (lit 999 3 ⊗ c.j_lim)
        → IsNum (clamped x)
        → Le (lit 1 10) (clamped x) × Le (clamped x) (lit 999 3 ⊗ c.j_lim)
    clamped_range x h n = clamp_num_swapped laws (lit 1 10) (lit 999 3 ⊗ c.j_lim) x h n

    -- If the bracket is not empty and holds the first guess, a solution that the solver reports lies
    -- within it: from 1e-10 to 0.999 of the limiting current.
    pub newton_converged_range :
        (j : F)
        → Le (lit 1 10) (lit 5 1 ⊗ c.j_lim)
        → Le (lit 5 1 ⊗ c.j_lim) (lit 999 3 ⊗ c.j_lim)
        → newton_raphson_solver ≡ ok (j, true)
        → Le (lit 1 10) j × Le j (lit 999 3 ⊗ c.j_lim)
    unfolding newton_raphson_solver
    newton_converged_range j lo hi e =
        let (solution, visited) = newton_loop-IsSolution 50 (lit 5 1 ⊗ c.j_lim) (inl refl) e in
        elim visited [
          | inl start ↦ rw start (lo, hi)
          | inr (x, last) ↦ rw last (
              clamped_range x (laws.le_trans _ _ _ lo hi)
                (subst (λ i. IsNum i) last (solution-IsNum j solution)))
        ]
