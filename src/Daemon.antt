-- ===== src/Daemon.antt =====
-- physical_engine/daemon_launcher.py: which processor cores each daemon of a Monte Carlo batch is
-- pinned to, and the supervision of the daemon processes. Counts and identifiers are naturals: the
-- command line's signed values are taken to be nonnegative.
pub mod Cores
pub mod Pinning
pub mod Supervision
pub mod Launch
use matrix_factory.Prelude.{
  ℕ, zero, suc, ◌+◌, ◌-◌, ◌*◌, ◌/◌, ◌%◌, Bool, true, false, Option, none, some, List, [], ◌∷◌, ltb,
  ◌==◌, if◌then◌else◌, length, get_elem?, Result, ok, err, zero_division, index_error, ◌>>=◌,
  or_raise,
}

-- `os.cpu_count() or default`: `None` and 0 are both false.
abbrev pub count_or : Option ℕ → ℕ → ℕ
count_or none default = default
count_or (some n) default = if n == 0 then default else n

-- `list(range(start, start + n))`
abbrev pub range_from : ℕ → ℕ → List ℕ
range_from start zero = []
range_from start (suc n) = start ∷ range_from (suc start) n

abbrev pub take : ℕ → List ℕ → List ℕ
take zero xs = []
take (suc n) [] = []
take (suc n) (x ∷ xs) = x ∷ take n xs

abbrev pub drop : ℕ → List ℕ → List ℕ
drop zero xs = xs
drop (suc n) [] = []
drop (suc n) (x ∷ xs) = drop n xs

-- `xs[lo:hi]`
abbrev pub slice : List ℕ → ℕ → ℕ → List ℕ
slice xs lo hi = take (hi - lo) (drop lo xs)

-- `(total_cores, available_cores)`
unfoldable pub total_cores : Option ℕ → ℕ → ℕ
total_cores cpu_count run_count = count_or cpu_count run_count

unfoldable pub available_cores : Option ℕ → ℕ → ℕ → List ℕ
unfolding total_cores
available_cores cpu_count run_count reserved =
    range_from reserved (total_cores cpu_count run_count - reserved)

-- `available_cores[i % len(available_cores)]` for the runs `i`, `i + 1`, … that are left.
unfoldable pub round_robin : List ℕ → ℕ → ℕ → Result (List (List ℕ))
round_robin cores i zero = ok []
round_robin cores i (suc left) = do
  core ←
      if length cores == 0
      then err zero_division
      else or_raise (get_elem? cores (i % length cores)) index_error
  rest ← round_robin cores (suc i) left
  ok ((core ∷ []) ∷ rest)

-- The slices of the runs `i`, `i + 1`, … that are left.
unfoldable pub slices : List ℕ → ℕ → ℕ → ℕ → List (List ℕ)
slices cores run_count i zero = []
slices cores run_count i (suc left) =
    slice cores (i * length cores / run_count) (suc i * length cores / run_count)
    ∷ slices cores run_count (suc i) left

unfoldable pub compute_daemon_core_sets : Option ℕ → ℕ → ℕ → Result (List (List ℕ))
unfolding available_cores round_robin slices
compute_daemon_core_sets cpu_count run_count reserved =
    let cores = available_cores cpu_count run_count reserved in
    if ltb (length cores) run_count
    then round_robin cores 0 run_count
    else ok (slices cores run_count 0 run_count)

-- A child process of the launcher, with the arguments that `_daemon_entry` was started with.
pub record Process : Type 0 where
  pub run_id : ℕ
  pub port : ℕ
  pub num_threads : ℕ
  pub core_set : List ℕ
  pub is_alive : Bool

-- `multiprocessing.Process(target=_daemon_entry, …)`, started, for the run at `index`.
abbrev pub start_daemon : ℕ → ℕ → ℕ → List (List ℕ) → ℕ → Result Process
start_daemon run_start_id base_port num_threads core_sets index = do
  cores ← or_raise (get_elem? core_sets index) index_error
  ok (record {
    run_id = run_start_id + index;
    port = base_port + index;
    num_threads = num_threads;
    core_set = cores;
    is_alive = true;
  })

-- The loop that starts the runs `index`, `index + 1`, … that are left.
pub start_all : ℕ → ℕ → ℕ → List (List ℕ) → ℕ → ℕ → Result (List Process)
start_all run_start_id base_port num_threads core_sets index zero = ok []
start_all run_start_id base_port num_threads core_sets index (suc left) = do
  process ← start_daemon run_start_id base_port num_threads core_sets index
  rest ← start_all run_start_id base_port num_threads core_sets (suc index) left
  ok (process ∷ rest)

pub record Args : Type 0 where
  pub run_start_id : ℕ
  pub run_count : ℕ
  pub base_port : ℕ
  pub jvm_reserved_cores : ℕ

-- `max(1, total_cores // run_count)`
abbrev pub threads_per_daemon : ℕ → ℕ → Result ℕ
threads_per_daemon total run_count =
    if run_count == 0
    then err zero_division
    else ok (if ltb 1 (total / run_count) then total / run_count else 1)

-- `main` up to its supervision loop.
pub launch : Option ℕ → Args → Result (List Process)
unfolding compute_daemon_core_sets start_all total_cores
launch cpu_count args = do
  num_threads ← threads_per_daemon (total_cores cpu_count args.run_count) args.run_count
  core_sets ← compute_daemon_core_sets cpu_count args.run_count args.jvm_reserved_cores
  start_all args.run_start_id args.base_port num_threads core_sets 0 args.run_count

-- One round of `while not shutdown_requested`: what has exited is replaced.
pub poll : Args → ℕ → List (List ℕ) → List Process → Result (List Process)
poll args num_threads core_sets [] = ok []
poll args num_threads core_sets (p ∷ ps) = do
  p' ←
      if p.is_alive
      then ok p
      else (start_daemon args.run_start_id args.base_port num_threads core_sets
          (p.run_id - args.run_start_id))
  ps' ← poll args num_threads core_sets ps
  ok (p' ∷ ps')

-- `process.terminate()`, and `join(timeout=10)`: `heeds` says whether the process exits in time.
abbrev pub terminate : Bool → Process → Process
terminate heeds p = if heeds then record p { is_alive = false } else p

-- `if process.is_alive(): process.kill()`
abbrev pub kill_survivor : Process → Process
kill_survivor p = if p.is_alive then record p { is_alive = false } else p

-- The `finally` block: `heeds` says which runs exit on SIGTERM.
pub stop_all : (ℕ → Bool) → List Process → List Process
stop_all heeds [] = []
stop_all heeds (p ∷ ps) = kill_survivor (terminate (heeds p.run_id) p) ∷ stop_all heeds ps
