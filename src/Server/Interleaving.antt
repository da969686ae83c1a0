-- ===== src/Server/Interleaving.antt =====
-- `RunBatchTest` beside `AdvanceTime`: the test's writes to the servicer, of which the first two take
-- no lock, with steps of the bench between any two of them. A step is taken as a whole, as its lock
-- makes it for the writes to the vector.
use matrix_factory.Prelude.{
  ◌≡◌, refl, sym, subst, ◌∙◌, inl, inr, Bool, true, false, List, [], ◌∷◌, some, length, set,
  length-set, get_elem?, get_elem?-set_other, get_elem?-set_self, Bool-cases, arith, Result, ok,
  err,
}
use matrix_factory.Float.{Float, Numpy}
use matrix_factory.Pemfc.{Cell}
use matrix_factory.Pemfc.Sweep.{Trace}
use matrix_factory.Thermal.{StackThermalModel, step}
use matrix_factory.Server.{Servicer, IsBench, stack_current_a_cm2, vector_length}
use matrix_factory.Server.Clock.{
  settle, heat_of, bench_current, compressor_draw, readings, mirror, mirror-full, mirror-core,
  mirror-skin, after_voltage, after_readings, reply, advance, advance_time,
}
use matrix_factory.Server.Batch.{FluidProperties, show_point, pace, paced}

-- One write of a running test.
pub data Write (F : Type 0) : Type 0 where
  assign_core assign_skin : F → Write F
  show : F → F → F → F → Write F
  reset : Write F

module _ {F : Type 0} ⦃fl : Float F⦄ (np : Numpy F) (fluids : FluidProperties F) where
  open fl use {lit, lt}

  abbrev pub apply : Write F → Servicer F → Servicer F
  apply (assign_core core) s = record s { thermal = record (s.thermal) { t_core = core } }
  apply (assign_skin skin) s = record s { thermal = record (s.thermal) { t_skin = skin } }
  apply (show j v core skin) s = record s { state = show_point np fluids j v core skin s.state }
  apply reset s = record s { state = set s.state stack_current_a_cm2 (lit 0 0) }

  abbrev pub run_writes : List (Write F) → Servicer F → Servicer F
  run_writes [] s = s
  run_writes (w ∷ ws) s = run_writes ws (apply w s)

  -- The pacing loop, and the reset after it.
  abbrev pub pacing_writes : List F → List F → List F → List F → List (Write F)
  pacing_writes (j ∷ js) (v ∷ vs) (core ∷ cores) (skin ∷ skins) =
      show j v core skin ∷ pacing_writes js vs cores skins
  pacing_writes _ _ _ _ = reset ∷ []

  -- The writes of a test after its sweep.
  abbrev pub test_writes : List F → Trace F → F → F → List (Write F)
  test_writes js trace core skin =
      assign_core core
      ∷ assign_skin skin
      ∷ pacing_writes js trace.voltages trace.t_core_arr trace.t_skin_arr

  pacing_writes-paced :
      (js vs cores skins : List F) (s : Servicer F)
      → run_writes (pacing_writes js vs cores skins) s ≡ record s {
        state = set (pace np fluids js vs cores skins s.state) stack_current_a_cm2 (lit 0 0);
      }
  unfolding pace
  pacing_writes-paced [] vs cores skins s = refl
  pacing_writes-paced (j ∷ js) [] cores skins s = refl
  pacing_writes-paced (j ∷ js) (v ∷ vs) [] skins s = refl
  pacing_writes-paced (j ∷ js) (v ∷ vs) (core ∷ cores) [] s = refl
  pacing_writes-paced (j ∷ js) (v ∷ vs) (core ∷ cores) (skin ∷ skins) s =
      pacing_writes-paced js vs cores skins (apply (show j v core skin) s)

  -- With no step between them, the writes are those of the sequential test.
  pub test_writes-paced :
      (js : List F) (trace : Trace F) (core skin : F) (s : Servicer F)
      → run_writes (test_writes js trace core skin) s ≡ paced np fluids s js trace core skin
  test_writes-paced js trace core skin s =
      pacing_writes-paced js trace.voltages trace.t_core_arr trace.t_skin_arr
        (apply (assign_skin skin) (apply (assign_core core) s))

  -- The servicers that a test with these writes left leads to, with any steps among them.
  pub data Interleaved : List (Write F) → Servicer F → Servicer F → Type 0 where
    finished : (s : Servicer F) → Interleaved [] s s
    written :
        (w : Write F) (s : Servicer F) {ws : List (Write F)} {s' : Servicer F}
        → Interleaved ws (apply w s) s'
        → Interleaved (w ∷ ws) s s'
    beside :
        (dt current_time : F) (s : Servicer F) {ws : List (Write F)} {s' : Servicer F}
        → Interleaved ws (advance_time np dt current_time s).0 s'
        → Interleaved ws s s'

  -- The current is 0, or is still to be reset as the last of the writes.
  abbrev pub IsIdle : Servicer F → Type 0
  IsIdle s = get_elem? s.state stack_current_a_cm2 ≡ some (lit 0 0)

  -- The last write is the reset.
  abbrev EndsInReset : List (Write F) → Type 0
  EndsInReset [] = ◌≡◌ {A = Bool} true false
  EndsInReset (w ∷ []) = w ≡ reset
  EndsInReset (w ∷ v ∷ ws) = EndsInReset (v ∷ ws)

  EndsInReset-cons : (w : Write F) (ws : List (Write F)) → EndsInReset ws → EndsInReset (w ∷ ws)
  EndsInReset-cons w [] h = cc
  EndsInReset-cons w (v ∷ ws) h = h

  pacing_writes-EndsInReset :
      (js vs cores skins : List F) → EndsInReset (pacing_writes js vs cores skins)
  pacing_writes-EndsInReset [] vs cores skins = refl
  pacing_writes-EndsInReset (j ∷ js) [] cores skins = refl
  pacing_writes-EndsInReset (j ∷ js) (v ∷ vs) [] skins = refl
  pacing_writes-EndsInReset (j ∷ js) (v ∷ vs) (core ∷ cores) [] = refl
  pacing_writes-EndsInReset (j ∷ js) (v ∷ vs) (core ∷ cores) (skin ∷ skins) =
      EndsInReset-cons (show j v core skin) (pacing_writes js vs cores skins)
        (pacing_writes-EndsInReset js vs cores skins)

  abbrev Settles : List (Write F) → Servicer F → Type 0
  Settles [] s = IsIdle s
  Settles (w ∷ ws) s = EndsInReset (w ∷ ws)

  -- What a step does, whether or not the vector shows the thermal model before it.
  abbrev pub IsStep : Servicer F → Servicer F → Bool → Type 0
  IsStep s s' success =
      (length s'.state ≡ vector_length) × (IsIdle s → IsIdle s') × (success ≡ true → IsBench s')

  settle-full : (s : Servicer F) (j : F) → length (settle np s j).state ≡ length s.state
  settle-full s j = elim (Bool-cases (lt j (lit 1 10))) [
    | inl y ↦ rw y (length-set s.state 5 (lit 0 0))
    | inr n ↦ rw n refl
  ]

  settle-IsIdle :
      (s : Servicer F) (j : F) → length s.state ≡ vector_length → IsIdle s → IsIdle (settle np s j)
  settle-IsIdle s j full idle = elim (Bool-cases (lt j (lit 1 10))) [
    | inl y ↦ rw y (get_elem?-set_self s.state 5 (lit 0 0) (omega (arith, full)))
    | inr n ↦ rw n idle
  ]

  mirror-current :
      (m : StackThermalModel F) (w : F) (xs : List F)
      → get_elem? (mirror np m w xs) stack_current_a_cm2 ≡ get_elem? xs stack_current_a_cm2
  mirror-current m w xs =
      get_elem?-set_other _ 3 5 _ (λ e. cc)
      ∙ get_elem?-set_other _ 6 5 _ (λ e. cc)
      ∙ get_elem?-set_other _ 8 5 _ (λ e. cc)
      ∙ get_elem?-set_other xs 7 5 m.t_core (λ e. cc)

  pub advance_time-IsStep :
      (dt current_time : F) (s : Servicer F)
      → length s.state ≡ vector_length
      → IsStep s (advance_time np dt current_time s).0 (advance_time np dt current_time s).1.success
  unfolding advance_time advance
  advance_time-IsStep dt current_time s full = by_readings (readings np s.state)
    where
      by_voltage :
          (t t_coolant j_curr : F) (v : Result (Cell F))
          → let (s', r) = after_voltage np dt s t t_coolant j_curr v in
            IsStep s s' (reply np dt current_time s'.state r).success
      by_voltage t t_coolant j_curr (err e) =
          (settle-full s j_curr ∙ full, settle-IsIdle s j_curr full, λ ok_reply. cc)
      by_voltage t t_coolant j_curr (ok cell) =
          let s1 = settle np s j_curr in
          let full1 : length s1.state ≡ vector_length = settle-full s j_curr ∙ full in
          let m = (step dt (heat_of np t (bench_current np j_curr) cell) t_coolant s1.thermal).0 in
          let w = compressor_draw np s j_curr in
          (
            mirror-full np m w s1.state ∙ full1,
            λ idle. mirror-current m w s1.state ∙ settle-IsIdle s j_curr full idle,
            λ _. record {
              full = mirror-full np m w s1.state ∙ full1;
              core = mirror-core np m w s1.state full1;
              skin = mirror-skin np m w s1.state full1;
            },
          )

      by_readings :
          (r : Result (F × F × F × F))
          → let (s', o) = after_readings np dt s r in
            IsStep s s' (reply np dt current_time s'.state o).success
      by_readings (err e) = (full, λ idle. idle, λ ok_reply. cc)
      by_readings (ok (t, t_coolant, j_curr, pressure)) = by_voltage t t_coolant j_curr _

  apply-full : (w : Write F) (s : Servicer F) → length (apply w s).state ≡ length s.state
  apply-full (assign_core core) s = refl
  apply-full (assign_skin skin) s = refl
  apply-full (show j v core skin) s =
      length-set _ 6 _
      ∙ length-set _ 8 skin
      ∙ length-set _ 7 core
      ∙ length-set _ 4 v
      ∙ length-set s.state 5 j
  apply-full reset s = length-set s.state 5 (lit 0 0)

  written-Settles :
      (w : Write F) (ws : List (Write F)) (s : Servicer F)
      → length s.state ≡ vector_length
      → Settles (w ∷ ws) s
      → Settles ws (apply w s)
  written-Settles w [] s full h =
      subst (λ v. IsIdle (apply v s)) (sym h)
        (get_elem?-set_self s.state 5 (lit 0 0) (omega (arith, full)))
  written-Settles w (v ∷ ws) s full h = h

  stepped-Settles :
      (ws : List (Write F)) (s s' : Servicer F)
      → (IsIdle s → IsIdle s')
      → Settles ws s
      → Settles ws s'
  stepped-Settles [] s s' keeps h = keeps h
  stepped-Settles (w ∷ ws) s s' keeps h = h

  Interleaved-Settles :
      {ws : List (Write F)} {s s' : Servicer F}
      → Interleaved ws s s'
      → length s.state ≡ vector_length
      → Settles ws s
      → (length s'.state ≡ vector_length) × IsIdle s'
  Interleaved-Settles (finished s) full settles = (full, settles)
  Interleaved-Settles (written w s {ws} rest) full settles =
      Interleaved-Settles rest (apply-full w s ∙ full) (written-Settles w ws s full settles)
  Interleaved-Settles (beside dt current_time s {ws} rest) full settles =
      let (full', keeps, _) = advance_time-IsStep dt current_time s full in
      Interleaved-Settles rest full'
        (stepped-Settles ws s (advance_time np dt current_time s).0 keeps settles)

  -- Let a test's writes run on a vector of nine entries, with any steps of the bench between them.
  -- However they fall, the vector ends with nine entries and the stack's current at 0, and the next
  -- step that succeeds leaves a vector that shows the temperatures of the thermal model, though they
  -- may differ before it.
  pub Interleaved-IsBench :
      (js : List F) (trace : Trace F) (core skin : F) {s s' : Servicer F} (dt current_time : F)
      → length s.state ≡ vector_length
      → Interleaved (test_writes js trace core skin) s s'
      → (length s'.state ≡ vector_length)
        × (get_elem? s'.state stack_current_a_cm2 ≡ some (lit 0 0))
        × ((advance_time np dt current_time s').1.success ≡ true
            → IsBench (advance_time np dt current_time s').0)
  Interleaved-IsBench js trace core skin {s} {s'} dt current_time full run =
      let ends = pacing_writes-EndsInReset js trace.voltages trace.t_core_arr trace.t_skin_arr in
      let (full', idle) = Interleaved-Settles run full (
        EndsInReset-cons (assign_core core)
          (assign_skin skin ∷ pacing_writes js trace.voltages trace.t_core_arr trace.t_skin_arr)
          (EndsInReset-cons (assign_skin skin)
            (pacing_writes js trace.voltages trace.t_core_arr trace.t_skin_arr) ends)) in
      let (_, _, heals) = advance_time-IsStep dt current_time s' full' in (full', idle, heals)
