-- ===== src/Examples/Scripts.antt =====
-- The project files of two runs, and an experiment of seven runs per arm.
use matrix_factory.Prelude.{
  ℕ, ◌+◌, ◌≡◌, refl, Bool, true, false, List, [], ◌∷◌, ◌++◌, Option, none, some, ok,
}
use matrix_factory.Jcm.{Word, Segment, word, gap, codes, rewrite_runs}
use matrix_factory.Jcm.Rewrite.{isolated_runs, rewrite_runs-eq-isolated_runs}
use matrix_factory.Experiment.{World, Tools, main}
use matrix_factory.Experiment.Batches.{arm, ids, covered, MakesFrom, main-IsExperiment}

-- `.send(order_1, tell)`
abbrev agent_files : List (Word × List Segment)
agent_files =
    (
      codes "station_1.asl",
      gap (codes ".")
          ∷ word (codes "send")
          ∷ gap (codes "(")
          ∷ word (codes "order_1")
          ∷ gap (codes ", ")
          ∷ word (codes "tell")
          ∷ gap (codes ")")
          ∷ [],
    )
    ∷ []

rewrite_runs-eq-isolated_runs_example :
    rewrite_runs agent_files 10 2 ≡ some (isolated_runs agent_files 10 2)
rewrite_runs-eq-isolated_runs_example = rewrite_runs-eq-isolated_runs agent_files 10 2

-- The template, the database and a row of the results are numbers.
abbrev tools : Tools ℕ ℕ ℕ
tools = record {
  launch_phase4 = λ l files. (record files { database = some l.run_start_id }, true);
  price_series_set = λ t. t + 1;
  extract_metrics = λ adacor files. (ok (l_rows files.database), files);
  analyze_results = λ files. (files, adacor_done files.results);
}
  where
    l_rows : Option ℕ → List ℕ
    l_rows none = []
    l_rows (some n) = n ∷ []

    adacor_done : Option (List ℕ) → Bool
    adacor_done none = false
    adacor_done (some rows) = true

abbrev world : World ℕ ℕ ℕ
world = record {
  files = record { template = some 40; database = some 3; results = none };
  launches = [];
}

main-IsExperiment_example :
    ((main tools 7 world).1.files.template ≡ some 40)
    × MakesFrom tools (arm false 7 ++ arm true 7) [] (main tools 7 world)
    × (covered (arm false 7) ≡ ids 0 7)
    × (covered (arm true 7) ≡ ids 0 7)
main-IsExperiment_example = main-IsExperiment tools 7 world 40 refl
