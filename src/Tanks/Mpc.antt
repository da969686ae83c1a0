-- ===== src/Tanks/Mpc.antt =====
-- `calculate_storage_mpc_factor`: how far production is cut back so that the storage does not overflow
-- within the horizon.
use matrix_factory.Prelude.{
  ℕ, zero, suc, ◌≡◌, inl, inr, false, List, [], ◌∷◌, arith, Bool-cases, if◌then◌else◌,
}
use matrix_factory.Float.{Float, ◌⊕◌, ◌⊖◌, ◌⊗◌, ◌⊘◌, Le, IsOrdered, IsNum-lit}

-- The variables of the loop.
pub record Forecast (F : Type 0) : Type 0 where
  pub sim_soc : F
  pub max_violation_kg : F
  pub cum_potential_production_kg : F

module _ {F : Type 0} ⦃fl : Float F⦄ where
  open fl use {lit, le, lt}

  module _ (total_capacity_kg dt_hours soc_limit_high : F) where
    -- One step of the horizon, with its forecast production and demand.
    pub mpc_step : F → F → Forecast F → Forecast F
    mpc_step prod dem s =
        let raw_soc = s.sim_soc ⊕ ((prod ⊖ dem) ⊗ dt_hours) ⊘ total_capacity_kg in
        let excess = if lt (lit 1 0) raw_soc then raw_soc ⊖ lit 1 0 else lit 0 0 in
        let soc = if lt (lit 1 0) raw_soc then lit 1 0 else raw_soc in
        let over_limit = if lt soc_limit_high soc then soc ⊖ soc_limit_high else lit 0 0 in
        let violation_kg = (over_limit ⊕ excess) ⊗ total_capacity_kg in
        record {
          sim_soc = soc;
          max_violation_kg =
              if lt s.max_violation_kg violation_kg then violation_kg else s.max_violation_kg;
          cum_potential_production_kg = s.cum_potential_production_kg ⊕ prod ⊗ dt_hours;
        }

    -- `steps` steps; beyond its end the demand is 0, and the production profile is never that short.
    pub mpc_loop : ℕ → List F → List F → Forecast F → Forecast F
    mpc_loop zero prods dems s = s
    mpc_loop (suc n) [] dems s = s
    mpc_loop (suc n) (p ∷ prods) [] s = mpc_loop n prods [] (mpc_step p (lit 0 0) s)
    mpc_loop (suc n) (p ∷ prods) (d ∷ dems) s = mpc_loop n prods dems (mpc_step p d s)

  -- The reduction ratio at the end, clamped.
  pub mpc_factor : Forecast F → F
  mpc_factor s =
      let factor = lit 1 0 ⊖ s.max_violation_kg ⊘ s.cum_potential_production_kg in
      if le s.max_violation_kg (lit 1 6)
      then lit 1 0
      else (if le s.cum_potential_production_kg (lit 1 6)
          then lit 0 0
          else (if lt factor (lit 0 0)
              then lit 0 0
              else if lt (lit 1 0) factor
              then lit 1 0
              else factor))

  pub calculate_storage_mpc_factor : F → F → List F → List F → F → F → ℕ → F
  unfolding mpc_factor mpc_loop mpc_step
  calculate_storage_mpc_factor soc capacity prods dems dt limit horizon =
      if le capacity (lit 1 6)
      then lit 0 0
      else mpc_factor (
          mpc_loop capacity dt limit horizon prods dems (record {
            sim_soc = soc;
            max_violation_kg = lit 0 0;
            cum_potential_production_kg = lit 0 0;
          }))

  module _ (laws : IsOrdered F) where
    open laws use {lit_lt, not_le_of_lt, lit_le}

    not_below : (m n : ℕ) → Le (lit n 0) (lit m 0) → lt (lit m 0) (lit n 0) ≡ false
    not_below m n h = elim (Bool-cases (lt (lit m 0) (lit n 0))) [
      | inl y ↦ cc (h, not_le_of_lt _ _ y)
      | inr e ↦ e
    ]

    -- Whatever the forecast, NaN in it included, the factor is neither below 0 nor above 1.
    pub mpc_factor_range :
        (soc capacity : F) (prods dems : List F) (dt limit : F) (horizon : ℕ)
        → let factor = calculate_storage_mpc_factor soc capacity prods dems dt limit horizon in
          (lt factor (lit 0 0) ≡ false) × (lt (lit 1 0) factor ≡ false)
    unfolding calculate_storage_mpc_factor
    mpc_factor_range soc capacity prods dems dt limit horizon = ground (
      arith,
      not_below 0 0 (IsNum-lit laws 0 0),
      not_below 1 0 (lit_le 0 0 1 0 (omega arith)),
      not_below 1 1 (IsNum-lit laws 1 0),
    )
