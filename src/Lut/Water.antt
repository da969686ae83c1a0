-- ===== src/Lut/Water.antt =====
-- The saturation curve of water: its generation, the pressure at a temperature, and the memoised
-- inverse.
use matrix_factory.Prelude.{
  ℕ, ◌-◌, ◌==◌, leb, ◌||◌, Option, none, some, map, if◌then◌else◌, length, get_elem?, Result, ok,
  err, index_error, ◌>>=◌, or_raise,
}
use matrix_factory.Float.{Float, Numpy, ◌⊕◌, ◌⊖◌, ◌⊗◌, ◌⊘◌}
use matrix_factory.Grid.{before}
use matrix_factory.Lut.{LutManager, Saturation, SaturationProperties, CoolProp, LutNumpy}

-- `np.clip(idx, 1, n - 1)`
abbrev pub clip_index : ℕ → ℕ → ℕ
clip_index n i = let low = if i == 0 then 1 else i in if leb n low then n - 1 else low

module _ {F : Type 0} ⦃fl : Float F⦄ where
  open fl use {lit, lt, eq}

  -- The three values at one temperature: a failure of any call leaves NaN in all three.
  abbrev pub saturation_entry : LutNumpy F → CoolProp F → F → F × F × F
  saturation_entry nl cp t =
      let values : Result (F × F × F) = (do
        p ← cp.p_tq t (lit 0 0)
        liquid ← cp.h_tq t (lit 0 0)
        vapour ← cp.h_tq t (lit 1 0)
        ok (p, liquid, vapour)) in
      elim values [ ok x ↦ x | err e ↦ (nl.nan, nl.nan, nl.nan) ]

  -- `_generate_saturation_lut`: nothing without CoolProp.
  unfoldable pub generate_saturation_lut :
      Numpy F → LutNumpy F → Option (CoolProp F) → LutManager F → LutManager F
  generate_saturation_lut np nl none m = m
  generate_saturation_lut np nl (some cp) m =
      let grid = np.linspace (lit 27315 2) (lit 6400 1) 1000 in
      record m {
        saturation = some (record {
          temp_grid = grid;
          p_sat = map (λ t. (saturation_entry nl cp t).0) grid;
          h_liq = map (λ t. (saturation_entry nl cp t).1) grid;
          h_vap = map (λ t. (saturation_entry nl cp t).2) grid;
        });
      }

  -- The Antoine fallback: 10 ** (A - B / (C + T_C)) mmHg.
  pub antoine_fallback : F → F
  antoine_fallback temperature_k =
      fl.pow (lit 10 0)
        (lit 807131 5 ⊖ lit 173063 2 ⊘ (lit 233426 3 ⊕ (temperature_k ⊖ lit 27315 2)))
      ⊗ lit 133322 3

  abbrev pub psat_without_table : Option (CoolProp F) → F → Result F
  psat_without_table none t = ok (antoine_fallback t)
  psat_without_table (some cp) t = cp.p_tq t (lit 0 0)

  abbrev pub interpolate_psat : Numpy F → Saturation F → F → Result F
  interpolate_psat np sat t =
      let idx = clip_index (length sat.temp_grid) (np.searchsorted sat.temp_grid t) in
      do
        t0 ← or_raise (before sat.temp_grid idx) index_error
        t1 ← or_raise (get_elem? sat.temp_grid idx) index_error
        p0 ← or_raise (before sat.p_sat idx) index_error
        p1 ← or_raise (get_elem? sat.p_sat idx) index_error
        let w = if eq t1 t0 then lit 0 0 else (t ⊖ t0) ⊘ (t1 ⊖ t0)
        ok (p0 ⊗ (lit 1 0 ⊖ w) ⊕ p1 ⊗ w)

  pub lookup_saturation_pressure : Numpy F → Option (CoolProp F) → LutManager F → F → Result F
  unfolding antoine_fallback
  lookup_saturation_pressure np cp m temperature_k = elim m.saturation [
    | none ↦ psat_without_table cp temperature_k
    | some sat ↦ or_raise (get_elem? sat.temp_grid 0) index_error >>= λ first.
        or_raise (get_elem? sat.temp_grid (length sat.temp_grid - 1)) index_error >>= λ last.
        (if lt temperature_k first || lt last temperature_k
          then psat_without_table cp temperature_k
          else interpolate_psat np sat temperature_k)
  ]

  abbrev pub saturation_default : SaturationProperties F
  saturation_default = record {
    t_sat_k = lit 37315 2;
    h_f_jkg = lit 419000 0;
    h_g_jkg = lit 2676000 0;
  }

  abbrev pub saturation_of_coolprop : Option (CoolProp F) → F → SaturationProperties F
  saturation_of_coolprop none p = saturation_default
  saturation_of_coolprop (some cp) p =
      let values : Result (SaturationProperties F) = (do
        t_sat ← cp.t_pq p (lit 0 0)
        liquid ← cp.h_pq p (lit 0 0)
        vapour ← cp.h_pq p (lit 1 0)
        ok (record { t_sat_k = t_sat; h_f_jkg = liquid; h_g_jkg = vapour })) in
      elim values [ ok r ↦ r | err e ↦ saturation_default ]

  unfoldable pub compute_saturation_properties :
      LutNumpy F → Option (CoolProp F) → LutManager F → F → Result (SaturationProperties F)
  compute_saturation_properties nl cp m pressure_pa = elim m.saturation [
    | none ↦ ok saturation_default
    | some sat ↦ or_raise (get_elem? sat.p_sat 0) index_error >>= λ p_min.
        or_raise (get_elem? sat.p_sat (length sat.p_sat - 1)) index_error >>= λ p_max.
        (if lt pressure_pa p_min || lt p_max pressure_pa
          then ok (saturation_of_coolprop cp pressure_pa)
          else (let t_sat = nl.interp pressure_pa sat.p_sat sat.temp_grid in
              ok (record {
                t_sat_k = t_sat;
                h_f_jkg = nl.interp t_sat sat.temp_grid sat.h_liq;
                h_g_jkg = nl.interp t_sat sat.temp_grid sat.h_vap;
              })))
  ]

  -- What the memo holds for a pressure.
  abbrev pub memoised : LutManager F → F → Option (SaturationProperties F)
  memoised m pressure_pa = elim m.sat_cache [
    | none ↦ none
    | some (pressure, result) ↦ if eq pressure_pa pressure then some result else none
  ]

  -- An exception leaves the memo as it was.
  unfoldable pub get_saturation_properties :
      LutNumpy F
      → Option (CoolProp F)
      → LutManager F
      → F
      → LutManager F × Result (SaturationProperties F)
  unfolding compute_saturation_properties
  get_saturation_properties nl cp m pressure_pa = elim (memoised m pressure_pa) [
    | some result ↦ (m, ok result)
    | none ↦ elim (compute_saturation_properties nl cp m pressure_pa) [
      | ok result ↦ (record m { sat_cache = some (pressure_pa, result) }, ok result)
      | err e ↦ (m, err e)
    ]
  ]
