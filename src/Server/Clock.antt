-- ===== src/Server/Clock.antt =====
-- `AdvanceTime`: one step of the bench under the lock.
use matrix_factory.Prelude.{
  ◌≡◌, refl, ap, ◌∙◌, suc, Bool, true, false, List, some, length, set, length-set, get_elem?, inl,
  inr, ◌⊎◌, Bool-cases, get_elem?-set_other, get_elem?-set_self, arith, if◌then◌else◌, Result, ok,
  err, ◌>>=◌,
}
use matrix_factory.Float.{Float, Numpy, ◌⊕◌, ◌⊖◌, ◌⊗◌, ◌⊘◌}
use matrix_factory.Air.{calculate_cathode_air_flow_rate, calculate_compressor_power}
use matrix_factory.Pemfc.{Stack, Cell, calculate_pemfc_voltage}
use matrix_factory.Thermal.{StackThermalModel, step}
use matrix_factory.Server.{
  Servicer, read, chiller_temp_k, compressor_power_kw, h2_tank_pressure_bar, stack_current_a_cm2,
  stack_core_temp_k, stack_skin_temp_k, stack_temp_k, vector_length, IsBench,
}

pub record StepReady (F : Type 0) : Type 0 where
  pub target_time : F
  pub success : Bool
  pub state_vector : List F

module _ {F : Type 0} ⦃fl : Float F⦄ (np : Numpy F) where
  open fl use {lit, lt, min}

  -- The current that the step works with: a small one counts as none.
  abbrev pub bench_current : F → F
  bench_current j = if lt j (lit 1 10) then lit 0 0 else j

  -- The servicer after the write that resets a small current; it stays if a later line raises.
  abbrev pub settle : Servicer F → F → Servicer F
  settle s j =
      if lt j (lit 1 10) then record s { state = set s.state stack_current_a_cm2 (lit 0 0) } else s

  abbrev pub heat_of : F → F → Cell F → F
  heat_of t j cell =
      let q_gen = j ⊗ (cell.eta_act ⊕ cell.eta_ohm) in
      if lt t (lit 35315 2)
      then q_gen ⊕ min (lit 5000 0) ((lit 35315 2 ⊖ t) ⊗ lit 1000 0)
      else q_gen

  abbrev pub compressor_draw : Servicer F → F → F
  compressor_draw s j_curr =
      let m_dot_air = calculate_cathode_air_flow_rate (j_curr ⊗ lit 300 0) s.num_cells (lit 2 0) in
      calculate_compressor_power m_dot_air (lit 101325 0) (lit 202650 0) (lit 29815 2) (lit 75 2)

  abbrev pub bench_stack : Servicer F → F → F → Stack F
  bench_stack s j_curr pressure =
      let m_dot_air = calculate_cathode_air_flow_rate (j_curr ⊗ lit 300 0) s.num_cells (lit 2 0) in
      record {
        a_h2 = np.clip pressure (lit 5 1) (lit 10 0);
        a_o2 = np.clip (lit 1 0 ⊕ m_dot_air ⊗ lit 10 0) (lit 5 1) (lit 10 0);
        r_internal = s.r_internal;
        n_cells = s.num_cells;
        ecsa_ratio = lit 1 0;
        lambda_mem = lit 14 0;
        j_lim = lit 25 1;
      }

  -- The writes at the end of a step, of the temperatures of `m` and the compressor's draw.
  abbrev pub mirror : StackThermalModel F → F → List F → List F
  mirror m w_comp xs =
      set
        (set (set (set xs stack_core_temp_k m.t_core) stack_skin_temp_k m.t_skin) stack_temp_k
          m.t_core)
        compressor_power_kw (w_comp ⊘ lit 1000 0)

  -- What the step reads of the vector.
  abbrev pub readings : List F → Result (F × F × F × F)
  readings xs = do
    t ← read xs stack_core_temp_k
    t_coolant ← read xs chiller_temp_k
    j_curr ← read xs stack_current_a_cm2
    pressure ← read xs h2_tank_pressure_bar
    ok (t, t_coolant, j_curr, pressure)

  abbrev pub stepped : F → Servicer F → F → F → F → Cell F → Servicer F
  stepped dt s t t_coolant j_curr cell =
      let s1 = settle s j_curr in
      let thermal = (step dt (heat_of t (bench_current j_curr) cell) t_coolant s1.thermal).0 in
      record s1 {
        thermal = thermal;
        state = mirror thermal (compressor_draw s j_curr) s1.state;
        step_counter = suc s1.step_counter;
      }

  abbrev pub after_voltage :
      F → Servicer F → F → F → F → Result (Cell F) → Servicer F × Result (Unit {0})
  after_voltage dt s t t_coolant j_curr (err e) = (settle s j_curr, err e)
  after_voltage dt s t t_coolant j_curr (ok cell) = (stepped dt s t t_coolant j_curr cell, ok tt)

  abbrev pub after_readings :
      F → Servicer F → Result (F × F × F × F) → Servicer F × Result (Unit {0})
  after_readings dt s (err e) = (s, err e)
  after_readings dt s (ok (t, t_coolant, j_curr, pressure)) =
      after_voltage dt s t t_coolant j_curr
        (calculate_pemfc_voltage np (bench_current j_curr) t (bench_stack s j_curr pressure))

  -- The body of the `try`: the servicer as the return or the exception leaves it, and which it was.
  unfoldable pub advance : F → Servicer F → Servicer F × Result (Unit {0})
  advance dt s = after_readings dt s (readings s.state)

  abbrev pub reply : F → F → List F → Result (Unit {0}) → StepReady F
  reply dt current_time xs (ok u) = record {
    target_time = current_time ⊕ dt;
    success = true;
    state_vector = xs;
  }
  reply dt current_time xs (err e) = record {
    target_time = current_time;
    success = false;
    state_vector = xs;
  }

  unfoldable pub advance_time : F → F → Servicer F → Servicer F × StepReady F
  unfolding advance
  advance_time dt current_time s =
      let (s', outcome) = advance dt s in (s', reply dt current_time s'.state outcome)

  settle-IsBench : (s : Servicer F) (j : F) → IsBench s → IsBench (settle s j)
  settle-IsBench s j b = elim (Bool-cases (lt j (lit 1 10))) [
    | inl y ↦ rw y (record {
      full = length-set s.state 5 (lit 0 0) ∙ b.full;
      core = get_elem?-set_other s.state 5 7 (lit 0 0) (λ e. cc) ∙ b.core;
      skin = get_elem?-set_other s.state 5 8 (lit 0 0) (λ e. cc) ∙ b.skin;
    })
    | inr n ↦ rw n b
  ]

  pub mirror-full :
      (m : StackThermalModel F) (w : F) (xs : List F) → length (mirror m w xs) ≡ length xs
  mirror-full m w xs =
      length-set _ 3 _ ∙ length-set _ 6 _ ∙ length-set _ 8 _ ∙ length-set xs 7 m.t_core

  pub mirror-core :
      (m : StackThermalModel F) (w : F) (xs : List F)
      → length xs ≡ vector_length
      → get_elem? (mirror m w xs) stack_core_temp_k ≡ some m.t_core
  mirror-core m w xs n =
      get_elem?-set_other _ 3 7 _ (λ e. cc)
      ∙ get_elem?-set_other _ 6 7 _ (λ e. cc)
      ∙ get_elem?-set_other _ 8 7 _ (λ e. cc)
      ∙ get_elem?-set_self xs 7 m.t_core (omega (arith, n))

  pub mirror-skin :
      (m : StackThermalModel F) (w : F) (xs : List F)
      → length xs ≡ vector_length
      → get_elem? (mirror m w xs) stack_skin_temp_k ≡ some m.t_skin
  mirror-skin m w xs n =
      get_elem?-set_other _ 3 8 _ (λ e. cc)
      ∙ get_elem?-set_other _ 6 8 _ (λ e. cc)
      ∙ get_elem?-set_self _ 8 m.t_skin (omega (arith, length-set xs 7 m.t_core, n))

  settle-rest :
      (s : Servicer F) (j : F)
      → ((settle s j).thermal ≡ s.thermal) × ((settle s j).step_counter ≡ s.step_counter)
  settle-rest s j = elim (Bool-cases (lt j (lit 1 10))) [
    | inl y ↦ rw y (refl, refl)
    | inr n ↦ rw n (refl, refl)
  ]

  -- What the reply says, and what holds of the servicer with it.
  abbrev pub Outcome : F → F → Servicer F → Servicer F → StepReady F → Type 0
  Outcome dt current_time s s' r =
      IsBench s'
      × (r.state_vector ≡ s'.state)
      × (((r.success ≡ true)
            × (r.target_time ≡ current_time ⊕ dt)
            × (s'.step_counter ≡ suc s.step_counter))
          ⊎ ((r.success ≡ false)
              × (r.target_time ≡ current_time)
              × (s'.step_counter ≡ s.step_counter)
              × (s'.thermal ≡ s.thermal)))

  -- From a vector that has its length and shows the thermal model's temperatures, `AdvanceTime` leads
  -- to such a vector and sends it, on every branch. Its reply either is a success at the new time,
  -- with the step counted, or a failure at the old time, with the counter and the thermal model as
  -- they were.
  pub advance_time-Outcome :
      (dt current_time : F) (s : Servicer F)
      → IsBench s
      → Outcome dt current_time s
          (advance_time dt current_time s).0
          (advance_time dt current_time s).1
  unfolding advance_time advance
  advance_time-Outcome dt current_time s b = by_readings (readings s.state)
    where
      by_voltage :
          (t t_coolant j_curr : F) (v : Result (Cell F))
          → let (s', r) = after_voltage dt s t t_coolant j_curr v in
            Outcome dt current_time s s' (reply dt current_time s'.state r)
      by_voltage t t_coolant j_curr (err e) =
          let (same, count) = settle-rest s j_curr in
          (settle-IsBench s j_curr b, refl, inr (refl, refl, count, same))
      by_voltage t t_coolant j_curr (ok cell) =
          let s1 = settle s j_curr in
          let full = (settle-IsBench s j_curr b).full in
          let m = (step dt (heat_of t (bench_current j_curr) cell) t_coolant s1.thermal).0 in
          let w = compressor_draw s j_curr in
          (
            record {
              full = mirror-full m w s1.state ∙ full;
              core = mirror-core m w s1.state full;
              skin = mirror-skin m w s1.state full;
            },
            refl,
            inl (refl, refl, ap suc (settle-rest s j_curr).1),
          )

      by_readings :
          (r : Result (F × F × F × F))
          → let (s', o) = after_readings dt s r in
            Outcome dt current_time s s' (reply dt current_time s'.state o)
      by_readings (err e) = (b, refl, inr (refl, refl, refl, refl))
      by_readings (ok (t, t_coolant, j_curr, pressure)) = by_voltage t t_coolant j_curr _
