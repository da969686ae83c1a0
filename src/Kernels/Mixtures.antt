-- ===== src/Kernels/Mixtures.antt =====
-- Properties of mixtures: composition, enthalpy of a stream, the sums over the tables of the
-- species, dissolved gas, and the boiler's outlet.
use matrix_factory.Prelude.{ℕ, ◌||◌, List, [], ◌∷◌, Option, none, some, map, if◌then◌else◌}
use matrix_factory.Float.{Float, Numpy, ◌⊕◌, ◌⊖◌, ◌⊗◌, ◌⊘◌}
use matrix_factory.Grid.{◌>>=◌, interp_from_weights_jit}
use matrix_factory.Kernels.Flash.{CpCoeffs, to_the}

module _ {F : Type 0} ⦃fl : Float F⦄ where
  open fl use {lit, lt, le, pow, neg}

  pub calculate_dissolved_gas_mg_kg_jit : Numpy F → F → F → F → F → F → F
  calculate_dissolved_gas_mg_kg_jit np temperature_k partial_pressure h298 c mw =
      if le temperature_k (lit 0 0) || le partial_pressure (lit 0 0)
      then lit 0 0
      else (let h_t = h298 ⊗ np.exp (c ⊗ (lit 10 1 ⊘ temperature_k ⊖ lit 10 1 ⊘ lit 29815 2)) in
          partial_pressure ⊘ lit 1013250 1 ⊘ h_t ⊗ (mw ⊗ lit 10000 1) ⊗ lit 10000 1)

  -- The molar masses of the canonical fluids and of CO.
  abbrev pub mw_arr : List F
  mw_arr =
      lit 2016 6 ∷ lit 32 3 ∷ lit 28014 6 ∷ lit 4401 5 ∷ lit 1604 5 ∷ lit 18015 6 ∷ lit 2801 5 ∷ []

  abbrev pub moles_of : F → F → F
  moles_of w mw = if lt (lit 0 0) w then w ⊘ mw else lit 0 0

  -- The moles of each species, and their sum so far; more fractions than molar masses are read
  -- outside the array.
  unfoldable pub moles_loop : List F → List F → F → Option (List F × F)
  moles_loop [] mws total = some ([], total)
  moles_loop (w ∷ ws) [] total = none
  moles_loop (w ∷ ws) (mw ∷ mws) total = do
    (moles, sum) ← moles_loop ws mws (if lt (lit 0 0) w then total ⊕ w ⊘ mw else total)
    some (moles_of w mw ∷ moles, sum)

  -- The mole fractions, with the molar mass and the sum of `y ln y` so far.
  unfoldable pub fractions_loop : Numpy F → F → List F → List F → F → F → List F × F × F
  fractions_loop np inv_total [] mws m_mix sum_ylny = ([], m_mix, sum_ylny)
  fractions_loop np inv_total (m ∷ moles) [] m_mix sum_ylny = ([], m_mix, sum_ylny)
  fractions_loop np inv_total (m ∷ moles) (mw ∷ mws) m_mix sum_ylny =
      let y = m ⊗ inv_total in
      let (ys, mix, ylny) =
        fractions_loop np inv_total moles mws (if lt (lit 0 0) m then m_mix ⊕ y ⊗ mw else m_mix)
          (if lt (lit 0 0) m then sum_ylny ⊕ y ⊗ np.log y else sum_ylny) in
      ((if lt (lit 0 0) m then y else lit 0 0) ∷ ys, mix, ylny)

  pub fast_composition_properties : Numpy F → List F → Option (List F × F × F)
  unfolding moles_loop fractions_loop
  fast_composition_properties np mass_fracs = do
    (moles, total_moles) ← moles_loop mass_fracs mw_arr (lit 0 0)
    some (
        if lt (lit 1 15) total_moles
        then fractions_loop np (lit 10 1 ⊘ total_moles) moles mw_arr (lit 0 0) (lit 0 0)
        else (map (λ _. lit 0 0) moles, lit 28 3, lit 0 0))

  pub integral_cp : F → CpCoeffs F → F
  integral_cp t k =
      k.a ⊗ t
      ⊕ k.b ⊗ to_the t 2 ⊘ lit 2 0
      ⊕ k.c ⊗ to_the t 3 ⊘ lit 3 0
      ⊕ k.d ⊗ to_the t 4 ⊘ lit 4 0
      ⊖ k.e ⊘ t

  -- J/mol over the reference of 298.15 K, brought to J/kg.
  abbrev pub specific_enthalpy : F → CpCoeffs F → F → F
  specific_enthalpy t k mw = (integral_cp t k ⊖ integral_cp (lit 29815 2) k) ⊗ lit 10000 1 ⊘ mw

  unfoldable pub stream_loop : F → List F → List (CpCoeffs F × F) → F → Option F
  stream_loop t [] gases h_total = some h_total
  stream_loop t (w ∷ ws) [] h_total = do
    h ← if lt (lit 1 12) w then none else some h_total
    stream_loop t ws [] h
  stream_loop t (w ∷ ws) ((k, mw) ∷ gases) h_total =
      stream_loop t ws gases
        (if lt (lit 1 12) w then h_total ⊕ w ⊗ specific_enthalpy t k mw else h_total)

  abbrev pub coeffs : F → F → F → F → CpCoeffs F
  coeffs a b c d = record { a = a; b = b; c = c; d = d; e = lit 0 0 }

  -- `GAS_CP_COEFFS` with `GAS_MW`: H2, O2, N2, CO2, CH4, H2O, CO.
  abbrev pub gas_constants : List (CpCoeffs F × F)
  gas_constants =
      (coeffs (lit 2911 2) (neg (lit 1916 6)) (lit 4003 9) (neg (lit 8704 13)), lit 2016 3)
      ∷ (coeffs (lit 2996 2) (lit 418 5) (neg (lit 167 8)) (lit 0 0), lit 320 1)
      ∷ (coeffs (lit 2898 2) (neg (lit 1571 6)) (lit 8081 9) (neg (lit 2873 12)), lit 28014 3)
      ∷ (coeffs (lit 2226 2) (lit 598 4) (neg (lit 350 7)) (lit 747 11), lit 4401 2)
      ∷ (coeffs (lit 1989 2) (lit 502 4) (lit 127 7) (neg (lit 110 10)), lit 1604 2)
      ∷ (coeffs (lit 3224 2) (lit 192 5) (lit 106 7) (neg (lit 360 11)), lit 18015 3)
      ∷ (coeffs (lit 2914 2) (neg (lit 1571 6)) (lit 8081 9) (neg (lit 2873 12)), lit 2801 2)
      ∷ []

  abbrev pub liq_cp_coeffs : CpCoeffs F
  liq_cp_coeffs = coeffs (lit 753 1) (lit 0 0) (lit 0 0) (lit 0 0)

  pub calculate_stream_enthalpy_jit : F → List F → F → Option F
  unfolding stream_loop integral_cp
  calculate_stream_enthalpy_jit t_k mass_fracs h2o_liq_frac = do
    h_total ← stream_loop t_k mass_fracs gas_constants (lit 0 0)
    some (
        if lt (lit 1 12) h2o_liq_frac
        then h_total ⊕ h2o_liq_frac ⊗ specific_enthalpy t_k liq_cp_coeffs (lit 18015 3)
        else h_total)

  pub calc_boiler_outlet_enthalpy : F → F → F → F → F
  calc_boiler_outlet_enthalpy h_in mass_flow power_input efficiency =
      if le mass_flow (lit 1 6)
      then h_in
      else h_in ⊕ power_input ⊗ efficiency ⊗ lit 36000 1 ⊘ mass_flow

  -- The sum over the species of `f(weight, value of the table)`, from `total` on.
  unfoldable pub weighted_loop :
      (F → F → F → F) → ℕ → ℕ → F → F → List (List (List F)) → List F → F → Option F
  weighted_loop f ix iy wx wy luts [] total = some total
  weighted_loop f ix iy wx wy [] (w ∷ ws) total = do
    t ← if lt (lit 1 9) w then none else some total
    weighted_loop f ix iy wx wy [] ws t
  weighted_loop f ix iy wx wy (lut ∷ luts) (w ∷ ws) total = do
    t ←
        if lt (lit 1 9) w
        then (do value ← interp_from_weights_jit lut ix iy wx wy; some (f total w value))
        else some total
    weighted_loop f ix iy wx wy luts ws t

  abbrev pub add_weighted : F → F → F → F
  add_weighted total w value = total ⊕ w ⊗ value

  pub get_mix_cp_jit : List (List (List F)) → List F → ℕ → ℕ → F → F → Option F
  unfolding weighted_loop
  get_mix_cp_jit c_luts weights ix iy wx wy =
      weighted_loop add_weighted ix iy wx wy c_luts weights (lit 0 0)

  pub get_mix_enthalpy_fast_jit : List (List (List F)) → List F → ℕ → ℕ → F → F → Option F
  unfolding weighted_loop
  get_mix_enthalpy_fast_jit h_luts weights ix iy wx wy =
      weighted_loop add_weighted ix iy wx wy h_luts weights (lit 0 0)

  abbrev pub add_volume : F → F → F → F
  add_volume total w rho = if lt (lit 1 6) rho then total ⊕ w ⊘ rho else total

  pub get_mix_density_jit : List (List (List F)) → List F → ℕ → ℕ → F → F → Option F
  unfolding weighted_loop
  get_mix_density_jit d_luts weights ix iy wx wy = do
    sum_vol_spec ← weighted_loop add_volume ix iy wx wy d_luts weights (lit 0 0)
    some (if lt (lit 1 9) sum_vol_spec then lit 10 1 ⊘ sum_vol_spec else lit 0 0)

  pub get_mix_entropy_fast_jit : List (List (List F)) → List F → F → F → ℕ → ℕ → F → F → Option F
  unfolding weighted_loop
  get_mix_entropy_fast_jit s_luts weights m_mix sum_ylny ix iy wx wy = do
    s_base ← weighted_loop add_weighted ix iy wx wy s_luts weights (lit 0 0)
    some (
        s_base
        ⊕ (if lt (lit 1 9) m_mix then neg (lit 8314462618 9 ⊘ m_mix) ⊗ sum_ylny else lit 0 0))
