-- ===== src/Air.antt =====
-- physical_engine/factory_simulation/cathode_air_bop.py, compressor.py with the ideal-gas work it calls,
-- and microstructure.py.
use matrix_factory.Prelude.{ℕ, ◌||◌, if◌then◌else◌}
use matrix_factory.Float.{Float, ◌⊕◌, ◌⊖◌, ◌⊗◌, ◌⊘◌}

module _ {F : Type 0} ⦃fl : Float F⦄ where
  open fl use {lit, le, pow, min, max}

  pub calculate_cathode_air_flow_rate : F → ℕ → F → F
  calculate_cathode_air_flow_rate i_total_a n_cells lambda_air =
      let i_safe = max (lit 0 0) i_total_a in
      let lam_safe = max (lit 1 0) lambda_air in
      let n_o2_moles_sec = (lit n_cells 0 ⊗ i_safe) ⊘ (lit 4 0 ⊗ lit 9648533212 5) in
      lam_safe ⊗ n_o2_moles_sec ⊗ (lit 2897 5 ⊘ lit 21 2)

  pub calculate_compressor_power : F → F → F → F → F → F
  calculate_compressor_power m_dot_air_kg_s p_in_pa p_out_pa t_in_k eta_comp =
      let m_dot_safe = max (lit 0 0) m_dot_air_kg_s in
      let p_ratio = max (lit 1 0) (p_out_pa ⊘ max (lit 1000 0) p_in_pa) in
      let exponent = (lit 14 1 ⊖ lit 1 0) ⊘ lit 14 1 in
      let eta_safe = max (lit 1 1) (min (lit 1 0) eta_comp) in
      let work_ideal = m_dot_safe ⊗ lit 1005 0 ⊗ t_in_k ⊗ (pow p_ratio exponent ⊖ lit 1 0) in
      if le m_dot_safe (lit 1 12) then lit 0 0 else work_ideal ⊘ eta_safe

  pub calculate_net_stack_power : F → F → F
  calculate_net_stack_power p_gross_w w_comp_w = p_gross_w ⊖ w_comp_w

  -- With γ = 1.41 and R = 4124.2 J/(kg·K), those of hydrogen.
  pub calculate_compression_work : F → F → F → F → F → F
  calculate_compression_work p1 p2 mass temperature efficiency =
      let gamma = lit 141 2 in
      let pressure_ratio = p2 ⊘ p1 in
      let exponent = (gamma ⊖ lit 1 0) ⊘ gamma in
      let work =
        (gamma ⊘ (gamma ⊖ lit 1 0))
        ⊗ (mass ⊗ lit 41242 1 ⊗ temperature ⊘ efficiency)
        ⊗ (pow pressure_ratio exponent ⊖ lit 1 0) in
      if le p1 (lit 0 0) then lit 0 0 else work

  -- `CompressorStage.power_kw`, with the stage's efficiency first.
  pub power_kw : F → F → F → F → F → F
  unfolding calculate_compression_work
  power_kw eta mdot_kg_s t_in_k p_in_bar p_out_bar =
      let work_j =
        calculate_compression_work (p_in_bar ⊗ lit 100000 0) (p_out_bar ⊗ lit 100000 0) mdot_kg_s
          t_in_k eta in
      if le mdot_kg_s (lit 0 0) || le p_in_bar (lit 0 0) then lit 0 0 else work_j ⊘ lit 1000 0

  -- physical_engine/factory_simulation/microstructure.py.
  pub compute_effective_porosity_conductivity : F → F → F → F
  compute_effective_porosity_conductivity sigma_bulk gdl_porosity m_exponent =
      let eps_safe = max (lit 1 2) (min (lit 95 2) gdl_porosity) in
      sigma_bulk ⊗ pow (lit 1 0 ⊖ eps_safe) m_exponent

  unfoldable pub compute_contact_resistance : F → F → F
  compute_contact_resistance p_assembly_mpa r_contact_0 =
      let p_safe = max (lit 5 1) p_assembly_mpa in
      let p_dev = fl.abs (p_safe ⊖ lit 425 2) ⊘ lit 425 2 in
      let r_contact = r_contact_0 ⊗ (lit 1 0 ⊕ lit 35 2 ⊗ p_dev ⊕ lit 25 2 ⊗ pow p_dev (lit 2 0)) in
      max (lit 0 0) r_contact
