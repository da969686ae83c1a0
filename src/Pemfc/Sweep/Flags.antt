-- ===== src/Pemfc/Sweep/Flags.antt =====
-- What the flags of the electro-thermal sweep say of its points.
use matrix_factory.Prelude.{
  ◌≡◌, refl, sym, ◌∙◌, ap, subst, ℕ, Bool, true, false, not, ◌||◌, List, [], ◌∷◌, ◌++◌,
  if◌then◌else◌, map, value_error, ok, guard-eq-ok, >>=-eq-ok, ok-injective, append_nil,
  append_assoc,
}
use matrix_factory.Float.{Float, Numpy, ◌⊕◌, ◌⊗◌}
use matrix_factory.Pemfc.{
  Stack, Cell, ohmic_degradation, thermal_shutdown, low_activation, ohmic_degradation_eta_v,
  thermal_shutdown_temp_k, calculate_pemfc_voltage, thermal_step,
}
use matrix_factory.Pemfc.Sweep.{
  Trace, Heat, any_at_limit, flag_if, starved, thermal_point, thermal_loop,
  batch_polarization_sweep_thermal,
}

-- A point of the sweep: the cell, and the temperatures it was measured at.
pub record Point (F : Type 0) : Type 0 where
  pub cell : Cell F
  pub t_core : F
  pub t_skin : F

module _ {F : Type 0} ⦃fl : Float F⦄ (np : Numpy F) (c : Stack F) (h : Heat F) where
  -- From two temperatures, the points that the current densities give one after the other: each at
  -- the temperatures that the heat of the point before it left.
  pub data IsRun : F → F → List F → List (Point F) → Type 0 where
    done : {core skin : F} → IsRun core skin [] []
    point :
        {core skin core' skin' j : F} {js : List F} {cell : Cell F} {ps : List (Point F)}
        → calculate_pemfc_voltage np j core c ≡ ok cell
        → thermal_step core skin h.dt
            ((j ⊗ fl.lit c.n_cells 0) ⊗ (cell.eta_act ⊕ cell.eta_ohm))
            h.t_coolant
            h.c_core
            h.c_skin
            h.h_a_int
            h.h_a_ext
          ≡ ok (core', skin')
        → IsRun core' skin' js ps
        → IsRun core skin (j ∷ js) (record { cell = cell; t_core = core; t_skin = skin } ∷ ps)

  abbrev pub is_ohmic : Point F → Bool
  is_ohmic p = fl.lt ohmic_degradation_eta_v p.cell.eta_ohm

  abbrev pub is_hot : Point F → Bool
  is_hot p = fl.lt thermal_shutdown_temp_k p.t_core

  abbrev pub any : (Point F → Bool) → List (Point F) → Bool
  any test [] = false
  any test (p ∷ ps) = test p || any test ps

  -- Bits 0 and 2.
  abbrev pub word : Bool → Bool → ℕ
  word ohmic hot = if ohmic then (if hot then 5 else 1) else (if hot then 4 else 0)

  flag-word :
      (ohmic hot a b : Bool)
      → flag_if np b thermal_shutdown (flag_if np a ohmic_degradation (word ohmic hot))
        ≡ word (ohmic || a) (hot || b)
  flag-word true true true true = refl
  flag-word true true true false = refl
  flag-word true true false true = refl
  flag-word true true false false = refl
  flag-word true false true true = refl
  flag-word true false true false = refl
  flag-word true false false true = refl
  flag-word true false false false = refl
  flag-word false true true true = refl
  flag-word false true true false = refl
  flag-word false true false true = refl
  flag-word false true false false = refl
  flag-word false false true true = refl
  flag-word false false true false = refl
  flag-word false false false true = refl
  flag-word false false false false = refl

  or_assoc : (a b d : Bool) → ((a || b) || d) ≡ (a || (b || d))
  or_assoc true b d = refl
  or_assoc false b d = refl

  or-false : (a : Bool) → (a || false) ≡ a
  or-false true = refl
  or-false false = refl

  -- The trace `s'` extends `s` by the points `ps`.
  abbrev Extends : Bool → Bool → Trace F → List (Point F) → Trace F → Type 0
  Extends ohmic hot s ps s' =
      (s'.voltages ≡ s.voltages ++ map (λ p. p.cell.v_stack) ps)
      × (s'.t_core_arr ≡ s.t_core_arr ++ map (λ p. p.t_core) ps)
      × (s'.t_skin_arr ≡ s.t_skin_arr ++ map (λ p. p.t_skin) ps)
      × (s'.failure ≡ word (ohmic || any is_ohmic ps) (hot || any is_hot ps))

  -- The heat of a point.
  abbrev q_gen : F → Cell F → F
  q_gen j cell = (j ⊗ fl.lit c.n_cells 0) ⊗ (cell.eta_act ⊕ cell.eta_ohm)

  -- The trace after a point.
  abbrev after : Trace F → Point F → Trace F
  after s p = record {
    voltages = s.voltages ++ p.cell.v_stack ∷ [];
    t_core_arr = s.t_core_arr ++ p.t_core ∷ [];
    t_skin_arr = s.t_skin_arr ++ p.t_skin ∷ [];
    failure =
        flag_if np (is_hot p) thermal_shutdown
          (flag_if np (is_ohmic p) ohmic_degradation s.failure);
  }

  thermal_point-after :
      (j core skin core' skin' : F) (s : Trace F) {s1 : Trace F}
      → thermal_point np c h j core skin s ≡ ok (s1, core', skin')
      → (cell : Cell F) × (calculate_pemfc_voltage np j core c ≡ ok cell)
        × (thermal_step core skin h.dt
              (q_gen j cell)
              h.t_coolant
              h.c_core
              h.c_skin
              h.h_a_int
              h.h_a_ext
            ≡ ok (core', skin'))
        × (after s (record { cell = cell; t_core = core; t_skin = skin }) ≡ s1)
  unfolding thermal_point
  thermal_point-after j core skin core' skin' s e =
      let (cell, ec, e2) = >>=-eq-ok (calculate_pemfc_voltage np j core c) _ e in
      let (temps, et, e3) =
        >>=-eq-ok
          (thermal_step core skin h.dt (q_gen j cell) h.t_coolant h.c_core h.c_skin h.h_a_int
            h.h_a_ext)
          _ e2 in
      let same = ok-injective e3 in
      (cell, ec, et ∙ ap (λ r. ok (r.1, r.2)) same, ap (λ r. r.0) same)

  extend :
      (ohmic hot : Bool) (s : Trace F) (p : Point F) (ps : List (Point F)) (s' : Trace F)
      → Extends (ohmic || is_ohmic p) (hot || is_hot p) (after s p) ps s'
      → Extends ohmic hot s (p ∷ ps) s'
  extend ohmic hot s p ps s' (v, tc, ts, w) = (
    v ∙ append_assoc s.voltages _ _,
    tc ∙ append_assoc s.t_core_arr _ _,
    ts ∙ append_assoc s.t_skin_arr _ _,
    w
        ∙ rw
            (or_assoc ohmic (is_ohmic p) (any is_ohmic ps), or_assoc hot (is_hot p) (any is_hot ps))
            refl,
  )

  thermal_loop-Extends :
      (ohmic hot : Bool) (js : List F) (core skin : F) (s : Trace F) {s' : Trace F}
      → s.failure ≡ word ohmic hot
      → thermal_loop np c h js core skin s ≡ ok s'
      → (ps : List (Point F)) × IsRun core skin js ps × Extends ohmic hot s ps s'
  unfolding thermal_loop
  thermal_loop-Extends ohmic hot [] core skin s w e =
      let same = ok-injective e in
      (
        [],
        done,
        subst (λ x. Extends ohmic hot s [] x) same
            (
              sym (append_nil s.voltages),
              sym (append_nil s.t_core_arr),
              sym (append_nil s.t_skin_arr),
              w ∙ sym (rw (or-false ohmic, or-false hot) refl),
            ),
      )
  thermal_loop-Extends ohmic hot (j ∷ js) core skin s {s'} w e =
      let ((s1, core', skin'), e1, rest) = >>=-eq-ok (thermal_point np c h j core skin s) _ e in
      let (cell, ec, et, same) = thermal_point-after j core skin core' skin' s e1 in
      let p : Point F = record { cell = cell; t_core = core; t_skin = skin } in
      let (ps, run, more) =
        thermal_loop-Extends (ohmic || is_ohmic p) (hot || is_hot p) js core' skin' (after s p)
          (ap
              (λ f.
                flag_if np (is_hot p) thermal_shutdown
                  (flag_if np (is_ohmic p) ohmic_degradation f))
              w
            ∙ flag-word ohmic hot (is_ohmic p) (is_hot p))
          (subst (λ x. thermal_loop np c h js core' skin' x ≡ ok s') (sym same) rest) in
      (p ∷ ps, point ec et run, extend ohmic hot s p ps s' more)

  -- A thermal sweep that returns reports a run from its initial temperature: a voltage and the two
  -- temperatures of each of its points, and as flags bit 0 if the ohmic loss of a point is above its
  -- limit, bit 2 if a point is hotter than the shutdown temperature, bit 3 if the stack is starved.
  pub thermal_sweep-IsRun :
      (js : List F) (t_init : F) {s : Trace F}
      → batch_polarization_sweep_thermal np js t_init c h ≡ ok s
      → (ps : List (Point F)) × IsRun t_init t_init js ps
        × (s.voltages ≡ map (λ p. p.cell.v_stack) ps)
        × (s.t_core_arr ≡ map (λ p. p.t_core) ps)
        × (s.t_skin_arr ≡ map (λ p. p.t_skin) ps)
        × (s.failure
            ≡ flag_if np (starved np c) low_activation (word (any is_ohmic ps) (any is_hot ps)))
  unfolding batch_polarization_sweep_thermal
  thermal_sweep-IsRun js t_init e =
      let (_, e1) = guard-eq-ok (not (any_at_limit np c.j_lim js)) value_error _ e in
      let (s1, e2, e3) =
        >>=-eq-ok
          (thermal_loop np c h js t_init t_init
            (record { voltages = []; t_core_arr = []; t_skin_arr = []; failure = 0 }))
          _ e1 in
      let same = ok-injective e3 in
      let (ps, run, (v, tc, ts, w)) = thermal_loop-Extends false false js t_init t_init _ refl e2 in
      (
        ps,
        run,
        sym (ap (λ r. r.voltages) same) ∙ v,
        sym (ap (λ r. r.t_core_arr) same) ∙ tc,
        sym (ap (λ r. r.t_skin_arr) same) ∙ ts,
        sym (ap (λ r. r.failure) same) ∙ ap (λ f. flag_if np (starved np c) low_activation f) w,
      )
