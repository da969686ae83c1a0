-- ===== src/Daemon/Launch.antt =====
-- `main` of the launcher, from the command line to its supervision loop.
use matrix_factory.Prelude.{
  ℕ, ◌/◌, ◌≤◌, ◌<◌, ◌≡◌, Option, some, List, arith, ltb, length, get_elem?, ok, if◌then◌else◌,
}
use matrix_factory.Daemon.{
  Process, Args, total_cores, threads_per_daemon, compute_daemon_core_sets, launch, poll,
}
use matrix_factory.Daemon.Pinning.{core_sets-IsPinning}
use matrix_factory.Daemon.Supervision.{IsStarted, Reach, poll_restores}

threads :
    (total run_count : ℕ)
    → 0 < run_count
    → (n : ℕ) × (threads_per_daemon total run_count ≡ ok n) × (1 ≤ n)
threads total run_count h =
    (if ltb 1 (total / run_count) then total / run_count else 1, ground arith, ground arith)

-- With a run to start and a core to spare, the launch succeeds: one daemon for each run, alive, with
-- its own identifier and port and at least one thread. And from whatever crashes and polls make of
-- that fleet one more poll succeeds and gives it back as it was started.
pub launch_restores :
    (cpu_count : Option ℕ) (args : Args)
    → 0 < args.run_count
    → args.jvm_reserved_cores < total_cores cpu_count args.run_count
    → (fs : List Process) × (num_threads : ℕ) × (core_sets : List (List ℕ)) × (launch cpu_count args
        ≡ ok fs)
      × (compute_daemon_core_sets cpu_count args.run_count args.jvm_reserved_cores ≡ ok core_sets)
      × (1 ≤ num_threads)
      × (length fs ≡ args.run_count)
      × ((i : ℕ) (p : Process) → get_elem? fs i ≡ some p → IsStarted args i p)
      × ((ps : List Process)
          → Reach args num_threads core_sets fs ps
          → poll args num_threads core_sets ps ≡ ok fs)
unfolding launch
launch_restores cpu_count args h spare =
    let (n, en, pos) = threads (total_cores cpu_count args.run_count) args.run_count h in
    let (sets, es, count, pinned) =
      core_sets-IsPinning cpu_count args.run_count args.jvm_reserved_cores spare in
    let (fs, ef, size, at, restore) = poll_restores args n sets args.run_count (omega arith) in
    (fs, n, sets, rw (en, es) ef, es, pos, size, at, restore)
