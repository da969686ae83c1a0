-- ===== src/Grid/Spline.antt =====
-- `eval_cubic_spline`, its caller, and the one-dimensional lookups that clip their index.
use matrix_factory.Prelude.{
  ℕ, ◌+◌, ◌-◌, ◌≤◌, ◌<◌, ◌≡◌, refl, inl, inr, Option, none, some, List, [], ◌∷◌, arith, leb, length,
  get_elem?, get_elem?-some, Bool-cases, if◌then◌else◌,
}
use matrix_factory.Float.{Float, Numpy, ◌⊕◌, ◌⊖◌, ◌⊗◌, ◌⊘◌}
use matrix_factory.Grid.{◌>>=◌, before}
use matrix_factory.Grid.Cells.{before-some}

-- A row `[a, b, c, d]` of the coefficient array.
pub record Cubic (F : Type 0) : Type 0 where
  pub a : F
  pub b : F
  pub c : F
  pub d : F

-- `if idx < 0: idx = 0`, `if idx >= n_breaks - 1: idx = n_breaks - 2`, for `idx = found - 1`. On
-- naturals the first clamp is that of the subtraction.
abbrev pub clamped_index : ℕ → ℕ → ℕ
clamped_index found n_breaks = if leb (n_breaks - 1) (found - 1) then n_breaks - 2 else found - 1

module _ {F : Type 0} ⦃fl : Float F⦄ where
  open fl use {lit, lt, le}

  -- Horner's rule.
  abbrev pub horner : Cubic F → F → F
  horner q dx = q.a ⊕ dx ⊗ (q.b ⊕ dx ⊗ (q.c ⊕ dx ⊗ q.d))

  pub eval_cubic_spline : Numpy F → F → List F → List (Cubic F) → Option F
  eval_cubic_spline np x breaks coeffs = do
    first ← get_elem? breaks 0
    last ← before breaks 0
    if le x first
        then (do row ← get_elem? coeffs 0; some row.a)
        else if le last x
        then (do
          start ← before breaks (length breaks - 1)
          row ← before coeffs (length breaks - 1)
          some (horner row (last ⊖ start)))
        else (do
          let idx = clamped_index (np.searchsorted breaks x) (length breaks)
          start ← get_elem? breaks idx
          row ← get_elem? coeffs idx
          some (horner row (x ⊖ start)))

  -- One module's production. `none` is a read outside the spline's arrays.
  pub module_production : Numpy F → F → List F → List (Cubic F) → F → F → F → Option F
  module_production np nominal_mw breaks coeffs energy_factor deg_factor p_mw = do
    base_sec ← eval_cubic_spline np ((p_mw ⊘ nominal_mw) ⊗ lit 100 0) breaks coeffs
    let actual_sec = base_sec ⊗ deg_factor
    some ((p_mw ⊗ energy_factor) ⊘ (if lt actual_sec (lit 1 0) then lit 1 0 else actual_sec))

  -- The loop over the modules, from `total_h2`; modules below 0.01 MW are skipped.
  pub production_from : Numpy F → F → List F → List (Cubic F) → F → F → List F → List F → Option F
  production_from np nominal_mw breaks coeffs energy_factor total [] degs = some total
  production_from np nominal_mw breaks coeffs energy_factor total (p ∷ ps) [] =
      let rest = production_from np nominal_mw breaks coeffs energy_factor total ps [] in
      if lt p (lit 1 2) then rest else none
  production_from np nominal_mw breaks coeffs energy_factor total (p ∷ ps) (d ∷ degs) =
      let skipped = production_from np nominal_mw breaks coeffs energy_factor total ps degs in
      let produced = (do
        h2_kg ← module_production np nominal_mw breaks coeffs energy_factor d p
        production_from np nominal_mw breaks coeffs energy_factor (total ⊕ h2_kg) ps degs) in
      if lt p (lit 1 2) then skipped else produced

  pub calculate_h2_production_dynamic :
      Numpy F → List F → F → List F → List (Cubic F) → List F → F → Option F
  unfolding production_from module_production
  calculate_h2_production_dynamic np powers_mw nominal_mw breaks coeffs deg_factors dt =
      production_from np nominal_mw breaks coeffs (dt ⊗ lit 1000 0) (lit 0 0) powers_mw deg_factors

  module _ (np : Numpy F) (breaks : List F) (coeffs : List (Cubic F)) where
    -- The shape that `CubicSpline` gives: a row for each interval, and at least one interval.
    abbrev pub IsSpline : Type 0
    IsSpline = (1 ≤ length coeffs) × (length breaks ≡ length coeffs + 1)

    -- With a row for each interval and at least one interval, the spline is evaluated inside its
    -- arrays for every `x`, NaN too, and whatever the search returns.
    pub eval_cubic_spline_total :
        (x : F) → IsSpline → (y : F) × (eval_cubic_spline np x breaks coeffs ≡ some y)
    unfolding eval_cubic_spline
    eval_cubic_spline_total x (some_rows, shape) =
        let (first, ef) = get_elem?-some breaks 0 (omega arith) in
        let (last, el) = get_elem?-some breaks (length breaks - 1) (omega arith) in
        let (row0, e0) = get_elem?-some coeffs 0 (omega arith) in
        let (start, es) = before-some breaks (length breaks - 1) (omega arith) (omega arith) in
        let (row1, e1) = before-some coeffs (length breaks - 1) (omega arith) (omega arith) in
        let idx = clamped_index (np.searchsorted breaks x) (length breaks) in
        let inside : (idx < length coeffs) × (idx < length breaks) = clamped_index_inside _ in
        let (start2, es2) = get_elem?-some breaks idx inside.1 in
        let (row2, er2) = get_elem?-some coeffs idx inside.0 in
        elim (Bool-cases (fl.le x first)) [
          | inl lo ↦ (row0.a, rw (ef, el, lo, e0) refl)
          | inr lo ↦ elim (Bool-cases (fl.le last x)) [
            | inl hi ↦ (horner row1 (last ⊖ start), rw (ef, el, lo, hi, es, e1) refl)
            | inr hi ↦ (horner row2 (x ⊖ start2), rw (ef, el, lo, hi, es2, er2) refl)
          ]
        ]
      where
        clamped_index_inside :
            (n : ℕ)
            → (clamped_index n (length breaks) < length coeffs)
              × (clamped_index n (length breaks) < length breaks)
        clamped_index_inside n = (ground arith, ground arith)
