-- ===== src/Kernels/Saturated.antt =====
-- What the boiler's flash returns, and in Rows its batch.
pub mod Rows
use matrix_factory.Prelude.{
  ℕ, zero, suc, ◌+◌, ◌-◌, ◌≤◌, ◌<◌, ◌≡◌, refl, inl, inr, Bool, List, [], ◌∷◌, Option, some, length,
  get_elem?, get_elem?-some, Bool-cases, All, arith, false,
}
use matrix_factory.Float.{Float, ◌⊕◌, ◌⊖◌, ◌⊗◌, ◌⊘◌, IsNum, IsOrdered, IsRounded, IsNum-lit}
use matrix_factory.Grid.{before}
use matrix_factory.Grid.Cells.{IsTable, before-some}
use matrix_factory.Grid.Mixture.{mixture_weight}
use matrix_factory.Kernels.{Within}
use matrix_factory.Kernels.Mixtures.{calc_boiler_outlet_enthalpy}
use matrix_factory.Kernels.Compression.Solved.{
  first_reaching_bounds, solve_temperature_from_enthalpy_jit_lem,
}
use matrix_factory.Kernels.Boiler.{
  SatCurve, BoilerTables, SatPoint, Flashed, BoilerRow, BoilerInputs, sat_index, weighted_at,
  sat_read, saturation_at, phase_temperature, vapor_fraction, calc_boiler_flash_jit, boiler_row,
  boiler_loop, calc_boiler_batch_full,
}

-- Saturation arrays of one length, at least 1.
pub record IsCurve {F : Type 0} (c : SatCurve F) : Type 0 where
  pub some_point : 1 ≤ length c.p_sat_grid
  pub temperatures : length c.t_sat_grid ≡ length c.p_sat_grid
  pub liquids : length c.h_liq_sat ≡ length c.p_sat_grid
  pub vapors : length c.h_vap_sat ≡ length c.p_sat_grid

before-in {ℓ} :
    {A : Type ℓ} (xs : List A) (i : ℕ) → i < length xs → (a : A) × (before xs i ≡ some a)
before-in xs zero h = get_elem?-some xs (length xs - 1) (omega arith)
before-in xs (suc i) h = before-some xs (suc i) (omega arith) (omega arith)

module _ {F : Type 0} ⦃fl : Float F⦄ where
  open fl use {lit, lt, le}

  pub record IsBoilerTables (k : BoilerTables F) : Type 0 where
    pub pressures_two : 2 ≤ length k.p_grid
    pub temperatures_two : 2 ≤ length k.t_grid
    pub enthalpies : IsTable k.p_grid k.t_grid k.h_lut
    pub capacities : IsTable k.p_grid k.t_grid k.c_lut

  sat_index-lt : (xs : List F) (v : F) → 1 ≤ length xs → sat_index xs v < length xs
  sat_index-lt [] v h = absurd (omega arith)
  sat_index-lt (x ∷ xs) v h = elim (first_reaching_bounds v xs 1 (omega arith)) [
    | inl e ↦ rw e (omega arith)
    | inr (a, b) ↦ omega arith
  ]

  weighted_at-some :
      (xs : List F) (i : ℕ) (w : F) → i < length xs → (x : F) × (weighted_at xs i w ≡ some x)
  weighted_at-some xs i w h =
      let (x0, a) = before-in xs i h in
      let (x1, b) = get_elem?-some xs i h in (x0 ⊗ (lit 1 0 ⊖ w) ⊕ x1 ⊗ w, rw (a, b) refl)

  sat_read-some :
      (f : List F → Option F) (c : SatCurve F)
      → IsCurve c
      → ((xs : List F) → length xs ≡ length c.p_sat_grid → (x : F) × (f xs ≡ some x))
      → (s : SatPoint F) × (sat_read f c ≡ some s)
  sat_read-some f c curve reads =
      let (t, a) = reads c.t_sat_grid curve.temperatures in
      let (liq, b) = reads c.h_liq_sat curve.liquids in
      let (vap, d) = reads c.h_vap_sat curve.vapors in
      (record { t_sat = t; h_sat_liq = liq; h_sat_vap = vap }, rw (a, b, d) refl)

  saturation_at-some :
      (c : SatCurve F) (pressure : F)
      → IsCurve c
      → (s : SatPoint F) × (saturation_at c pressure ≡ some s)
  unfolding saturation_at
  saturation_at-some c pressure curve =
      let (p_min, a) = get_elem?-some c.p_sat_grid 0 (omega (arith, curve.some_point)) in
      let (p_max, b) = before-in c.p_sat_grid 0 (omega (arith, curve.some_point)) in
      elim (Bool-cases (le pressure p_min)) [
        | inl y ↦
            let (s, e) =
              sat_read-some (λ xs. get_elem? xs 0) c curve
                (λ xs h. get_elem?-some xs 0 (omega (arith, curve.some_point, h))) in
            (s, rw (a, b, y) e)
        | inr n ↦ elim (Bool-cases (le p_max pressure)) [
          | inl y ↦
              let (s, e) =
                sat_read-some (λ xs. before xs 0) c curve
                  (λ xs h. before-in xs 0 (omega (arith, curve.some_point, h))) in
              (s, rw (a, b, n, y) e)
          | inr m ↦
              let i = sat_index c.p_sat_grid pressure in
              let inside = sat_index-lt c.p_sat_grid pressure curve.some_point in
              let (p0, d) = before-in c.p_sat_grid (sat_index c.p_sat_grid pressure) inside in
              let (p1, g) = get_elem?-some c.p_sat_grid (sat_index c.p_sat_grid pressure) inside in
              let w = mixture_weight p0 p1 pressure in
              let (s, e) =
                sat_read-some (λ xs. weighted_at xs i w) c curve
                  (λ xs h. weighted_at-some xs i w (rw h inside)) in
              (s, rw (a, b, n, m, d, g) e)
        ]
      ]

  module _ (laws : IsOrdered F) (rounded : IsRounded F) where
    open laws use {lit_le, le_of_not_lt}
    open rounded use {sub_nonneg, sub_mono, div_unit, num_div, num_sub_parts}

    pub zero_unit : Within (lit 0 0) (lit 1 0) (lit 0 0)
    zero_unit = (IsNum-lit laws 0 0, lit_le 0 0 1 0 (omega arith))

    one_unit : Within (lit 0 0) (lit 1 0) (lit 1 0)
    one_unit = (lit_le 0 0 1 0 (omega arith), IsNum-lit laws 1 0)

    vapor_fraction-Within :
        (s : SatPoint F) (h_out : F)
        → lt h_out s.h_sat_liq ≡ false
        → lt s.h_sat_vap h_out ≡ false
        → IsNum (vapor_fraction s h_out)
        → Within (lit 0 0) (lit 1 0) (vapor_fraction s h_out)
    vapor_fraction-Within s h_out low high num =
        elim (Bool-cases (lt (lit 1 6) (s.h_sat_vap ⊖ s.h_sat_liq))) [
          | inr n ↦ rw n zero_unit
          | inl y ↦
              let q : IsNum ((h_out ⊖ s.h_sat_liq) ⊘ (s.h_sat_vap ⊖ s.h_sat_liq)) = rw y at num in
              let (n1, n2) = num_div _ _ q in
              let (h_num, l_num) = num_sub_parts _ _ n1 in
              let above = le_of_not_lt h_out s.h_sat_liq h_num l_num low in
              let below = le_of_not_lt s.h_sat_vap h_out (num_sub_parts _ _ n2).0 h_num high in
              rw y (
                div_unit _ _ (sub_nonneg s.h_sat_liq h_out above n1)
                  (sub_mono h_out s.h_sat_vap s.h_sat_liq below n1 n2) q)
        ]

    -- The flash returns, at any pressure and enthalpy, NaN too; its phase is 0, 1 or 2, and a vapor
    -- fraction that is a number lies between 0 and 1.
    pub calc_boiler_flash_jit-Within :
        (c : SatCurve F) (k : BoilerTables F) (h_out pressure t_in : F)
        → IsCurve c
        → IsBoilerTables k
        → (r : Flashed F) × (calc_boiler_flash_jit c k h_out pressure t_in ≡ some r)
          × (r.phase ≤ 2)
          × (IsNum r.vapor_frac → Within (lit 0 0) (lit 1 0) r.vapor_frac)
    unfolding calc_boiler_flash_jit
    calc_boiler_flash_jit-Within c k h_out pressure t_in curve tables =
        let (s, e) = saturation_at-some c pressure curve in
        elim (Bool-cases (lt h_out s.h_sat_liq)) [
          | inl y ↦
              let (t, q) = solved (s.t_sat ⊖ lit 100 1) (lit 41800 1) in
              (
                record { t_out = t; vapor_frac = lit 0 0; phase = 0 },
                rw (e, y, q) refl,
                omega arith,
                λ n. zero_unit,
              )
          | inr low ↦ elim (Bool-cases (lt s.h_sat_vap h_out)) [
            | inl y ↦
                let (t, q) = solved (s.t_sat ⊕ lit 100 1) (lit 20800 1) in
                (
                  record { t_out = t; vapor_frac = lit 1 0; phase = 2 },
                  rw (e, low, y, q) refl,
                  omega arith,
                  λ n. one_unit,
                )
            | inr high ↦ (
              record { t_out = s.t_sat; vapor_frac = vapor_fraction s h_out; phase = 1 },
              rw (e, low, high) refl,
              omega arith,
              vapor_fraction-Within s h_out low high,
            )
          ]
        ]
      where
        solved : (guess cp : F) → (t : F) × (phase_temperature k h_out pressure guess cp ≡ some t)
        solved guess cp =
            let (t, e, w) =
              solve_temperature_from_enthalpy_jit_lem laws h_out pressure guess k.p_grid k.t_grid
                k.h_lut k.c_lut cp (lit 1 2) 20 tables.pressures_two tables.temperatures_two
                tables.enthalpies tables.capacities in
            (t, e)
