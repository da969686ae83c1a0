-- ===== src/Kernels/Cooler.antt =====
-- `solve_dry_cooler_thermal_jit`, the heat exchangers from gas to glycol and from glycol to air, and
-- `solve_cyclone_mechanics`.
use matrix_factory.Prelude.{ℕ, Bool, ◌&&◌, ◌||◌, ◌==◌, if◌then◌else◌}
use matrix_factory.Float.{Float, Numpy, ◌⊕◌, ◌⊖◌, ◌⊗◌, ◌⊘◌}

-- A stream and the tube that it flows through.
pub record TubeSide (F : Type 0) : Type 0 where
  pub flow_area : F
  pub d_tube : F
  pub mu : F
  pub k : F
  pub pr : F

-- The inputs of the dynamic U-value.
pub record DynamicU (F : Type 0) : Type 0 where
  pub gas : TubeSide F
  pub glycol : TubeSide F
  pub k_tube_wall : F
  pub r_foul_glycol : F
  pub use_dynamic_u : Bool

pub record CoolerInputs (F : Type 0) : Type 0 where
  pub m_dot_gas : F
  pub cp_gas : F
  pub t_gas_in_k : F
  pub glycol_flow_kg_s : F
  pub glycol_cp : F
  pub t_glycol_in_k : F
  pub tqc_u : F
  pub tqc_area : F
  pub t_air_in_k : F
  pub dc_u : F
  pub dc_area : F
  pub dc_air_flow_kg_s : F
  pub cp_air : F
  pub use_dc : Bool

pub record CoolerOutputs (F : Type 0) : Type 0 where
  pub t_gas_out_k : F
  pub t_glycol_hot_k : F
  pub t_glycol_cold_k : F
  pub q_tqc_w : F
  pub q_dc_w : F
  pub eff_tqc : F
  pub eff_dc : F

-- `d50_microns`, `delta_P_pa`, `v_axial`, `v_tan`
pub record Separation (F : Type 0) : Type 0 where
  pub d50_microns : F
  pub delta_p_pa : F
  pub v_axial : F
  pub v_tan : F

module _ {F : Type 0} ⦃fl : Float F⦄ where
  open fl use {lit, lt, le, abs, neg, min, max, pow}

  -- The film coefficient of a side, from its mass flow, Dittus and Boelter's exponent and a default.
  abbrev pub film : TubeSide F → F → F → F → F
  film s flow exponent default =
      let re = if lt (lit 0 0) s.mu then flow ⊘ s.flow_area ⊗ s.d_tube ⊘ s.mu else lit 0 0 in
      let nu =
        if lt (lit 0 0) re && lt (lit 0 0) s.pr
        then lit 23 3 ⊗ pow re (lit 8 1) ⊗ pow s.pr exponent
        else lit 366 2 in
      if lt (lit 0 0) s.d_tube then nu ⊗ s.k ⊘ s.d_tube else default

  module _ (np : Numpy F) where
    abbrev pub total_resistance : DynamicU F → F → F → F
    total_resistance d h_gas h_gly =
        let r_in = d.gas.d_tube ⊘ lit 20 1 in
        let r_out = d.glycol.d_tube ⊘ lit 20 1 in
        lit 1 0 ⊘ h_gas
        ⊕ r_in ⊗ np.log (r_out ⊘ r_in) ⊘ d.k_tube_wall
        ⊕ r_in ⊘ r_out ⊘ h_gly
        ⊕ d.r_foul_glycol

    unfoldable pub cooler_u : DynamicU F → F → F → F → F
    cooler_u d tqc_u m_dot_gas glycol_flow =
        let h_gas = film d.gas m_dot_gas (lit 3 1) (lit 5000 1) in
        let h_gly = film d.glycol glycol_flow (lit 4 1) (lit 2000 1) in
        let r_total = total_resistance d h_gas h_gly in
        if d.use_dynamic_u && lt (lit 0 0) d.gas.flow_area && lt (lit 0 0) d.glycol.flow_area
        then if lt (lit 0 0) h_gas && lt (lit 0 0) h_gly && lt (lit 0 0) d.k_tube_wall
          then if lt (lit 0 0) r_total then lit 1 0 ⊘ r_total else tqc_u
          else tqc_u
        else tqc_u

    -- `R = C_min / C_max if C_max > 1e-9 else 0.0`
    abbrev pub capacity_ratio : F → F → F
    capacity_ratio c_min c_max = if lt (lit 1 9) c_max then c_min ⊘ c_max else lit 0 0

    -- Counter-flow.
    unfoldable pub tqc_effectiveness : F → F → F
    tqc_effectiveness ntu r =
        let exp_val = np.exp (neg ntu ⊗ (lit 1 0 ⊖ r)) in
        let denom = lit 1 0 ⊖ r ⊗ exp_val in
        if lt (abs (r ⊖ lit 1 0)) (lit 1 9)
        then ntu ⊘ (lit 1 0 ⊕ ntu)
        else if lt (lit 1 12) (abs denom)
        then (lit 1 0 ⊖ exp_val) ⊘ denom
        else lit 1 0

    -- Cross-flow.
    unfoldable pub dc_effectiveness : F → F → F
    dc_effectiveness ntu r =
        if lt (lit 0 0) ntu && lt (lit 0 0) r
        then lit 1 0
          ⊖ np.exp (pow ntu (lit 22 2) ⊘ r ⊗ (np.exp (neg r ⊗ pow ntu (lit 78 2)) ⊖ lit 1 0))
        else if lt (lit 0 0) ntu
        then lit 1 0 ⊖ np.exp (neg ntu)
        else lit 0 0

    -- The effectiveness and the heat of an exchanger between two capacity flows.
    abbrev pub exchanged : (F → F → F) → F → F → F → F → F × F
    exchanged effectiveness c_one c_two ua delta_t =
        let c_min = min c_one c_two in
        let eff = effectiveness (ua ⊘ c_min) (capacity_ratio c_min (max c_one c_two)) in
        if lt (lit 1 9) c_min then (eff, eff ⊗ (c_min ⊗ delta_t)) else (lit 0 0, lit 0 0)

    -- `T + Q / C if C > 1e-9 else T`, and the same with a minus.
    abbrev pub warmed : F → F → F → F
    warmed t q c = if lt (lit 1 9) c then t ⊕ q ⊘ c else t

    abbrev pub chilled : F → F → F → F
    chilled t q c = if lt (lit 1 9) c then t ⊖ q ⊘ c else t

    unfoldable pub solve_dry_cooler_thermal_jit : CoolerInputs F → DynamicU F → CoolerOutputs F
    unfolding cooler_u tqc_effectiveness dc_effectiveness
    solve_dry_cooler_thermal_jit i d =
        let u_tqc = cooler_u d i.tqc_u i.m_dot_gas i.glycol_flow_kg_s in
        let c_hot = i.m_dot_gas ⊗ i.cp_gas in
        let c_cold = i.glycol_flow_kg_s ⊗ i.glycol_cp in
        let (eff_tqc, q_tqc) =
          exchanged tqc_effectiveness c_hot c_cold (u_tqc ⊗ i.tqc_area)
            (i.t_gas_in_k ⊖ i.t_glycol_in_k) in
        let hot = warmed i.t_glycol_in_k q_tqc c_cold in
        let (eff_dc, q_dc) =
          exchanged dc_effectiveness c_cold (i.dc_air_flow_kg_s ⊗ i.cp_air) (i.dc_u ⊗ i.dc_area)
            (hot ⊖ i.t_air_in_k) in
        record {
          t_gas_out_k = chilled i.t_gas_in_k q_tqc c_hot;
          t_glycol_hot_k = hot;
          t_glycol_cold_k = if i.use_dc then chilled hot q_dc c_cold else hot;
          q_tqc_w = q_tqc;
          q_dc_w = if i.use_dc then q_dc else lit 0 0;
          eff_tqc = eff_tqc;
          eff_dc = if i.use_dc then eff_dc else lit 0 0;
        }

    -- `tan` is NumPy's. A count of tubes is not negative.
    unfoldable pub solve_cyclone_mechanics : (F → F) → F → F → F → F → F → F → ℕ → Separation F
    solve_cyclone_mechanics tan q_gas rho_g rho_l mu_g d_element vane_angle n_tubes =
        if n_tubes == 0 || le q_gas (lit 1 9)
        then record {
          d50_microns = lit 0 0;
          delta_p_pa = lit 0 0;
          v_axial = lit 0 0;
          v_tan = lit 0 0;
        }
        else (let d_hub = lit 3 1 ⊗ d_element in
            let area = np.pi ⊘ lit 40 1 ⊗ (pow d_element (lit 2 0) ⊖ pow d_hub (lit 2 0)) in
            let v_axial = q_gas ⊘ (lit n_tubes 0 ⊗ area) in
            let v_tan = v_axial ⊗ tan vane_angle in
            let g_spin = pow v_tan (lit 2 0) ⊘ ((d_element ⊕ d_hub) ⊘ lit 40 1) in
            let t_res =
              if lt (lit 1 9) v_axial then lit 30 1 ⊗ d_element ⊘ v_axial else lit 1000000 0 in
            let s_drift = (d_element ⊖ d_hub) ⊘ lit 20 1 in
            let density_diff = rho_l ⊖ rho_g in
            record {
              d50_microns =
                  if lt (lit 0 0) density_diff && lt (lit 0 0) g_spin && lt (lit 0 0) t_res
                  then np.sqrt (lit 180 1 ⊗ mu_g ⊗ s_drift ⊘ (density_diff ⊗ g_spin ⊗ t_res))
                    ⊗ lit 1000000 0
                  else lit 0 0;
              delta_p_pa = lit 48 1 ⊗ lit 5 1 ⊗ rho_g ⊗ pow v_axial (lit 2 0);
              v_axial = v_axial;
              v_tan = v_tan;
            })
