-- ===== src/Examples/Launcher.antt =====
-- Machines of eight and of two processors.
use matrix_factory.Prelude.{
  ℕ, ◌≡◌, ◌≤◌, true, false, List, [], ◌∷◌, some, arith, All, length, get_elem?, ok, err,
  zero_division,
}
use matrix_factory.Daemon.{Args, Process, compute_daemon_core_sets, total_cores, poll, launch}
use matrix_factory.Daemon.Cores.{IsPinning}
use matrix_factory.Daemon.Pinning.{core_sets-IsPinning, core_sets_without_spare}
use matrix_factory.Daemon.Supervision.{IsStarted, Reach}
use matrix_factory.Daemon.Launch.{launch_restores}

core_sets-IsPinning_example :
    (sets : List (List ℕ)) × (compute_daemon_core_sets (some 8) 3 2 ≡ ok sets)
    × (length sets ≡ 3)
    × All (IsPinning 2 (total_cores (some 8) 3)) sets
unfolding total_cores
core_sets-IsPinning_example = core_sets-IsPinning (some 8) 3 2 (omega arith)

core_sets_without_spare_example : compute_daemon_core_sets (some 2) 3 2 ≡ err zero_division
unfolding total_cores
core_sets_without_spare_example = core_sets_without_spare (some 2) 3 2 (omega arith) (omega arith)

abbrev args : Args
args = record { run_start_id = 7; run_count = 3; base_port = 50051; jvm_reserved_cores = 2 }

abbrev sets : List (List ℕ)
sets = (2 ∷ 3 ∷ []) ∷ (4 ∷ 5 ∷ []) ∷ (6 ∷ 7 ∷ []) ∷ []

abbrev survivors : List Process
survivors =
    record { run_id = 7; port = 50058; num_threads = 2; core_set = 2 ∷ []; is_alive = true }
    ∷ record { run_id = 8; port = 50059; num_threads = 2; core_set = 3 ∷ []; is_alive = false }
    ∷ []

launch_restores_example :
    (fs : List Process) × (num_threads : ℕ) × (core_sets : List (List ℕ)) × (launch (some 8) args
      ≡ ok fs)
    × (compute_daemon_core_sets (some 8) 3 2 ≡ ok core_sets)
    × (1 ≤ num_threads)
    × (length fs ≡ 3)
    × ((i : ℕ) (p : Process) → get_elem? fs i ≡ some p → IsStarted args i p)
    × ((ps : List Process)
        → Reach args num_threads core_sets fs ps
        → poll args num_threads core_sets ps ≡ ok fs)
unfolding total_cores
launch_restores_example = launch_restores (some 8) args (omega arith) (omega arith)
