-- ===== src/Thermal/Nodes.antt =====
-- `step_stack_thermal_nd_jit` and `StackThermalModelND`: a chain of nodes along the coolant's path.
use matrix_factory.Prelude.{
  ◌≡◌, refl, ap, ◌∙◌, ℕ, suc, List, [], ◌∷◌, Option, none, some, length, replicate,
  length-replicate, if◌then◌else◌,
}
use matrix_factory.Float.{Float, ◌⊕◌, ◌⊖◌, ◌⊗◌, ◌⊘◌}

pub record Chain (F : Type 0) : Type 0 where
  pub c_cell : F
  pub cp_coolant : F
  pub h_a_cell_ext : F
  pub h_a_inter_cell : F

-- The fields of `StackThermalModelND`.
pub record StackThermalModelNd (F : Type 0) : Type 0 where
  pub n_cells : ℕ
  pub t_initial : F
  pub t_cell : List F
  pub chain : Chain F
  pub last_q_output : F

module _ {F : Type 0} ⦃fl : Float F⦄ where
  open fl use {lit, lt}

  -- The heat from a neighbour, of which the ends of the chain have one only.
  abbrev pub conduction : F → Option F → F → F
  conduction h_a none t = lit 0 0
  conduction h_a (some neighbour) t = (neighbour ⊖ t) ⊗ h_a

  abbrev pub first : List F → Option F
  first [] = none
  first (t ∷ ts) = some t

  -- The nodes from one on, with the node before it, the coolant's temperature there, and the heat
  -- removed so far.
  pub nodes_from : Chain F → F → F → F → Option F → List F → F → F → List F × F
  nodes_from c q_gen_per_cell mass_flow dt left [] t_coolant q_removed_total = ([], q_removed_total)
  nodes_from c q_gen_per_cell mass_flow dt left (t ∷ ts) t_coolant q_removed_total =
      let q_coolant = (t ⊖ t_coolant) ⊗ c.h_a_cell_ext in
      let q_cond_left = conduction c.h_a_inter_cell left t in
      let q_cond_right = conduction c.h_a_inter_cell (first ts) t in
      let dt_dt = (q_gen_per_cell ⊕ q_cond_left ⊕ q_cond_right ⊖ q_coolant) ⊘ c.c_cell in
      let t_next =
        if lt (lit 1 6) mass_flow
        then t_coolant ⊕ q_coolant ⊘ (mass_flow ⊗ c.cp_coolant)
        else t_coolant in
      let (rest, q) =
        nodes_from c q_gen_per_cell mass_flow dt (some t) ts t_next (q_removed_total ⊕ q_coolant) in
      ((t ⊕ dt ⊗ dt_dt) ∷ rest, q)

  pub step_stack_thermal_nd : List F → F → F → F → F → Chain F → List F × F
  unfolding nodes_from
  step_stack_thermal_nd t_cell q_gen_per_cell coolant_inlet_t_k coolant_mass_flow_kg_s dt c =
      nodes_from c q_gen_per_cell coolant_mass_flow_kg_s dt none t_cell coolant_inlet_t_k (lit 0 0)

  pub stack_thermal_model_nd : ℕ → F → Chain F → StackThermalModelNd F
  stack_thermal_model_nd n_cells t_initial c = record {
    n_cells = n_cells;
    t_initial = t_initial;
    t_cell = replicate n_cells t_initial;
    chain = c;
    last_q_output = lit 0 0;
  }

  pub step_nd : F → F → F → F → StackThermalModelNd F → StackThermalModelNd F
  unfolding step_stack_thermal_nd
  step_nd dt q_gen_total_w coolant_inlet_t_k coolant_mass_flow_kg_s m =
      let q_gen_per_cell = q_gen_total_w ⊘ lit m.n_cells 0 in
      let (t_cell, q_output) =
        step_stack_thermal_nd m.t_cell q_gen_per_cell coolant_inlet_t_k coolant_mass_flow_kg_s dt
          m.chain in
      record m { t_cell = t_cell; last_q_output = q_output }

  pub reset_nd : StackThermalModelNd F → StackThermalModelNd F
  reset_nd m = record m { t_cell = replicate m.n_cells m.t_initial; last_q_output = lit 0 0 }

  -- The states that a model reaches from its construction by steps and resets, in any order.
  pub data Reachable : StackThermalModelNd F → Type 0 where
    made :
        (n_cells : ℕ) (t_initial : F) (c : Chain F)
        → Reachable (stack_thermal_model_nd n_cells t_initial c)
    stepped :
        (dt q t flow : F) {m : StackThermalModelNd F}
        → Reachable m
        → Reachable (step_nd dt q t flow m)
    was_reset : {m : StackThermalModelNd F} → Reachable m → Reachable (reset_nd m)

  nodes_from-length :
      (c : Chain F) (q flow dt : F) (left : Option F) (ts : List F) (t_coolant total : F)
      → length (nodes_from c q flow dt left ts t_coolant total).0 ≡ length ts
  unfolding nodes_from
  nodes_from-length c q flow dt left [] t_coolant total = refl
  nodes_from-length c q flow dt left (t ∷ ts) t_coolant total =
      ap suc (nodes_from-length c q flow dt (some t) ts _ _)

  -- Every state that a chain of nodes reaches has one temperature for each of its cells.
  pub reachable-length : {m : StackThermalModelNd F} → Reachable m → length m.t_cell ≡ m.n_cells
  unfolding stack_thermal_model_nd step_nd step_stack_thermal_nd reset_nd
  reachable-length (made n_cells t_initial c) = length-replicate n_cells t_initial
  reachable-length (stepped dt q t flow {m} r) =
      nodes_from-length m.chain _ flow dt none m.t_cell t _ ∙ reachable-length r
  reachable-length (was_reset {m} r) = length-replicate m.n_cells m.t_initial
