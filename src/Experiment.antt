-- ===== src/Experiment.antt =====
-- experiments/run_prosa_vs_adacor.py: main, which runs both arms of the experiment in batches. The
-- launch script, the reading of the metrics and the analysis script are parameters that may do anything
-- to the files, and fail; the substitution of the price series in the template is a parameter too.
pub mod Batches
use matrix_factory.Prelude.{
  ℕ, zero, suc, ◌+◌, ◌-◌, ◌/◌, Bool, true, false, List, [], ◌∷◌, ◌++◌, Option, none, some, ltb,
  if◌then◌else◌, Error, Result, ok, err, runtime_error,
}

-- A call of launch_phase4.sh: the arm, and the environment's RUN_START_ID and RUN_COUNT.
pub record Launch : Type 0 where
  pub adacor_enabled : Bool
  pub run_start_id : ℕ
  pub run_count : ℕ

-- The files that main touches: the template, if it exists, the database, if it exists, and the saved
-- results.
pub record Files (T D R : Type 0) : Type 0 where
  pub template : Option T
  pub database : Option D
  pub results : Option (List R)

-- The files, and the launches made so far.
pub record World (T D R : Type 0) : Type 0 where
  pub files : Files T D R
  pub launches : List Launch

-- What main calls. The Boolean is whether the script exited with 0. `extract_metrics` is given the arm,
-- may create the database, and may raise.
pub record Tools (T D R : Type 0) : Type 0 where
  pub launch_phase4 : Launch → Files T D R → Files T D R × Bool
  pub price_series_set : T → T
  pub extract_metrics : Bool → Files T D R → Result (List R) × Files T D R
  pub analyze_results : Files T D R → Files T D R × Bool

-- `range(start, start + 5 * n, 5)`
abbrev pub batch_starts : ℕ → ℕ → List ℕ
batch_starts start zero = []
batch_starts start (suc n) = start ∷ batch_starts (start + 5) n

abbrev pub min_nat : ℕ → ℕ → ℕ
min_nat a b = if ltb b a then b else a

-- The launches of one arm.
abbrev pub batches : Bool → ℕ → List ℕ → List Launch
batches adacor run_count [] = []
batches adacor run_count (start ∷ starts) =
    record {
      adacor_enabled = adacor;
      run_start_id = start;
      run_count = min_nat 5 (run_count - start);
    }
    ∷ batches adacor run_count starts

module _ {T D R : Type 0} (tools : Tools T D R) where
  -- A computation on the world, which may raise.
  abbrev pub Run : Type 0 → Type 0
  Run A = World T D R → Result A × World T D R

  abbrev pub proceed :
      {A B : Type 0} → (A → Run B) → Result A × World T D R → Result B × World T D R
  proceed f (err e, w) = (err e, w)
  proceed f (ok a, w) = f a w

  infixl 5 ◌>>=◌ ◌>>◌
  abbrev pub ◌>>=◌ : {A B : Type 0} → Run A → (A → Run B) → Run B
  ◌>>=◌ m f w = proceed f (m w)

  abbrev pub ◌>>◌ : {B : Type 0} → Run (Unit {0}) → Run B → Run B
  m >> k = m >>= λ _. k

  abbrev pub on_files : (Files T D R → Files T D R) → Run (Unit {0})
  on_files f w = (ok tt, record w { files = f w.files })

  -- `check=True`
  abbrev pub run_launch : Launch → Run (Unit {0})
  run_launch l w =
      let (files, done) = tools.launch_phase4 l w.files in
      (
        if done then ok tt else err runtime_error,
        record { files = files; launches = w.launches ++ (l ∷ []) },
      )

  unfoldable pub run_launches : List Launch → Run (Unit {0})
  run_launches [] w = (ok tt, w)
  run_launches (l ∷ ls) w = (run_launch l >> run_launches ls) w

  abbrev pub run_metrics : Bool → Run (List R)
  run_metrics adacor w =
      let (rows, files) = tools.extract_metrics adacor w.files in (rows, record w { files = files })

  -- The database is removed, the arm is launched in batches of 5, and its metrics are read.
  unfoldable pub run_arm : Bool → ℕ → Run (List R)
  unfolding run_launches
  run_arm adacor run_count = do
    on_files (λ f. record f { database = none })
    run_launches (batches adacor run_count (batch_starts 0 ((run_count + 4) / 5)))
    run_metrics adacor

  abbrev pub run_analysis : Run (Unit {0})
  run_analysis w =
      let (files, done) = tools.analyze_results w.files in
      (if done then ok tt else err runtime_error, record w { files = files })

  -- The body of the `try`.
  unfoldable pub run_experiment : T → ℕ → Run (Unit {0})
  unfolding run_arm
  run_experiment original run_count = do
    on_files (λ f. record f { template = some (tools.price_series_set original) })
    prosa ← run_arm false run_count
    adacor ← run_arm true run_count
    on_files (λ f. record f { results = some (prosa ++ adacor) })
    run_analysis

  -- The `finally` writes the original back.
  unfoldable pub main : ℕ → Run (Unit {0})
  unfolding run_experiment
  main run_count w = elim w.files.template [
    | none ↦ (err runtime_error, w)
    | some original ↦
        let (done, w') = run_experiment original run_count w in
        (done, record w' { files = record w'.files { template = some original } })
  ]
