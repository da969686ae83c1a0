-- ===== src/Daemon/Pinning.antt =====
-- What `compute_daemon_core_sets` promises: the sets are a partition of the spare cores when there
-- are enough, never touch a reserved core, and exist unless no core is spare.
use matrix_factory.Prelude.{
  ℕ, zero, suc, ◌-◌, ◌≤◌, ◌<◌, ◌≡◌, refl, inl, inr, true, false, Option, List, arith, ltb, ◌==◌,
  length, All, ok, err, zero_division, Bool-cases,
}
use matrix_factory.Daemon.{total_cores, compute_daemon_core_sets, round_robin, slices}
use matrix_factory.Daemon.Cores.{
  flatten, IsPinning, cores, cores-IsSpare, length-cores, round_robin_lem, slices-IsPinning,
  flatten-slices, length-slices,
}

module _ (cpu_count : Option ℕ) (run_count reserved : ℕ) where
  -- If some core is spare, the call returns one set for each run, and every set is nonempty and
  -- holds only cores of the machine that are not reserved for the JVM.
  pub core_sets-IsPinning :
      reserved < total_cores cpu_count run_count
      → (sets : List (List ℕ)) × (compute_daemon_core_sets cpu_count run_count reserved ≡ ok sets)
        × (length sets ≡ run_count)
        × All (IsPinning reserved (total_cores cpu_count run_count)) sets
  unfolding compute_daemon_core_sets
  core_sets-IsPinning spare =
      let xs = cores cpu_count run_count reserved in
      let t = total_cores cpu_count run_count in
      let n : length xs ≡ t - reserved = length-cores cpu_count run_count reserved in
      let a = cores-IsSpare cpu_count run_count reserved in
      elim (Bool-cases (ltb (length xs) run_count)) [
        | inl few ↦
            let (sets, e, count, pinned) =
              round_robin_lem reserved t xs 0 run_count a (omega arith) in
            (sets, rw few e, count, pinned)
        | inr enough ↦ (
          slices xs run_count 0 run_count,
          rw enough refl,
          length-slices xs run_count 0 run_count,
          slices_all run_count (λ p.
              slices-IsPinning reserved t xs run_count 0 run_count a p (ground arith)
                (omega arith)),
        )
      ]
    where
      slices_all :
          (k : ℕ)
          → (0 < k
              → All
                  (IsPinning reserved (total_cores cpu_count run_count))
                  (slices (cores cpu_count run_count reserved) k 0 k))
          → All
              (IsPinning reserved (total_cores cpu_count run_count))
              (slices (cores cpu_count run_count reserved) k 0 k)
      slices_all zero f = unfold slices in tt
      slices_all (suc k) f = f (omega arith)

  -- With at least one run and at least as many spare cores as runs, the sets, joined in order, are
  -- the spare cores: they are disjoint, and no spare core is left out.
  pub core_sets_partition :
      {sets : List (List ℕ)}
      → 0 < run_count
      → run_count ≤ total_cores cpu_count run_count - reserved
      → compute_daemon_core_sets cpu_count run_count reserved ≡ ok sets
      → flatten sets ≡ cores cpu_count run_count reserved
  unfolding compute_daemon_core_sets
  core_sets_partition {sets} p h e =
      let xs = cores cpu_count run_count reserved in
      let n : length xs ≡ total_cores cpu_count run_count - reserved =
        length-cores cpu_count run_count reserved in
      let enough : ltb (length xs) run_count ≡ false = ground arith in
      let s : slices xs run_count 0 run_count ≡ sets = cc (enough) in
      rw (← s) (flatten-slices xs run_count (omega arith) p)

  -- If every core of the machine is reserved and there is a run to place, the call fails with
  -- ZeroDivisionError instead of falling back to shared cores.
  pub core_sets_without_spare :
      0 < run_count
      → total_cores cpu_count run_count ≤ reserved
      → compute_daemon_core_sets cpu_count run_count reserved ≡ err zero_division
  unfolding compute_daemon_core_sets
  core_sets_without_spare p h =
      let xs = cores cpu_count run_count reserved in
      let n : length xs ≡ total_cores cpu_count run_count - reserved =
        length-cores cpu_count run_count reserved in
      let few : ltb (length xs) run_count ≡ true = ground arith in
      let empty : (length xs == 0) ≡ true = ground arith in rw few (no_core run_count p empty)
    where
      no_core :
          (left : ℕ)
          → 0 < left
          → (length (cores cpu_count run_count reserved) == 0) ≡ true
          → round_robin (cores cpu_count run_count reserved) 0 left ≡ err zero_division
      no_core zero q e = elim q [ ]
      no_core (suc left) q e = unfold round_robin in rw e refl
