-- ===== src/Daemon/Supervision.antt =====
-- The launcher's supervision of its daemons: what is started, and that a poll undoes every crash.
use mathlib.Core.Option.{some-injective}
use matrix_factory.Prelude.{
  ℕ, zero, suc, ◌+◌, ◌-◌, ◌≤◌, ◌≡◌, refl, ap, ap₂, sym, subst, ◌∙◌, inl, inr, Bool, true, false,
  some, List, [], ◌∷◌, ◌++◌, map, arith, length, get_elem?, get_elem?-some, All, Result, ok,
  ok-injective, Bool-cases,
}
use matrix_factory.Daemon.{
  Process, Args, start_daemon, start_all, poll, terminate, kill_survivor, stop_all,
}

-- The process as it was when it was started.
abbrev pub revive : Process → Process
revive p = record p { is_alive = true }

-- The process at `index` of a fleet whose first has index `from`.
abbrev pub IsStarted : Args → ℕ → Process → Type 0
IsStarted args index p =
    (p.run_id ≡ args.run_start_id + index) × (p.port ≡ args.base_port + index) × (p.is_alive ≡ true)

module _ (args : Args) (num_threads : ℕ) (core_sets : List (List ℕ)) where
  abbrev pub started : ℕ → Result Process
  started = start_daemon args.run_start_id args.base_port num_threads core_sets

  abbrev fleet : ℕ → ℕ → Result (List Process)
  fleet = start_all args.run_start_id args.base_port num_threads core_sets

  -- A restart gives back the process as it was.
  abbrev IsOwn : Process → Type 0
  IsOwn p = started (p.run_id - args.run_start_id) ≡ ok (revive p)

  abbrev process_at : ℕ → List ℕ → Process
  process_at index cores = record {
    run_id = args.run_start_id + index;
    port = args.base_port + index;
    num_threads = num_threads;
    core_set = cores;
    is_alive = true;
  }

  process_at-IsOwn :
      (index : ℕ) (cores : List ℕ)
      → get_elem? core_sets index ≡ some cores
      → IsOwn (process_at index cores)
  process_at-IsOwn index cores a =
      let same : args.run_start_id + index - args.run_start_id ≡ index = omega arith in
      rw (same, a) refl

  -- The fleet is started whenever there are core sets enough, every process as it should be.
  fleet_lem :
      (index left : ℕ)
      → index + left ≤ length core_sets
      → (ps : List Process) × (fleet index left ≡ ok ps)
        × (length ps ≡ left)
        × All IsOwn ps
        × (map revive ps ≡ ps)
        × ((i : ℕ) (p : Process) → get_elem? ps i ≡ some p → IsStarted args (index + i) p)
  unfolding start_all
  fleet_lem index zero h = ([], refl, refl, tt, refl, λ i p e. cc)
  fleet_lem index (suc left) h =
      let (cores, a) = get_elem?-some core_sets index (omega arith) in
      let (ps, e, n, own, same, at) = fleet_lem (suc index) left (omega arith) in
      (
        process_at index cores ∷ ps,
        rw (a, e) refl,
        ap suc n,
        (process_at-IsOwn index cores a, own),
        ap (λ qs. process_at index cores ∷ qs) same,
        positions cores ps at,
      )
    where
      positions :
          (cores : List ℕ) (ps : List Process)
          → ((i : ℕ) (p : Process) → get_elem? ps i ≡ some p → IsStarted args (suc index + i) p)
          → (i : ℕ) (p : Process) → get_elem? (process_at index cores ∷ ps) i ≡ some p
          → IsStarted args (index + i) p
      positions cores ps at zero p e = rw (← some-injective _ _ e) (omega arith, omega arith, refl)
      positions cores ps at (suc i) p e = let (r, q, l) = at i p e in (omega arith, omega arith, l)

  -- What can happen to the fleet: a daemon exits, or the launcher polls.
  pub data Step : List Process → List Process → Type 0 where
    exit :
        (before after : List Process) (p : Process)
        → Step (before ++ p ∷ after) (before ++ record p { is_alive = false } ∷ after)
    polled : {ps qs : List Process} → poll args num_threads core_sets ps ≡ ok qs → Step ps qs

  pub data Reach (ps : List Process) : List Process → Type 0 where
    here : Reach ps ps
    next : {qs rs : List Process} → Reach ps qs → Step qs rs → Reach ps rs

  poll_lem :
      (ps : List Process) → All IsOwn ps → poll args num_threads core_sets ps ≡ ok (map revive ps)
  unfolding poll
  poll_lem [] own = refl
  poll_lem (p ∷ ps) (o, own) = elim (Bool-cases p.is_alive) [
    | inl alive ↦
        let same : revive p ≡ p = ground arith in
        simp (alive, poll_lem ps own) (ap (λ q. ok (q ∷ map revive ps)) (sym same))
    | inr dead ↦ rw (dead, o, poll_lem ps own) refl
  ]

  -- What crashes and polls keep, of the fleet `fs` that was started.
  record IsFleet (fs ps : List Process) : Type 0 where
    own : All IsOwn ps
    same : map revive ps ≡ fs

  All-crash :
      (before after : List Process) (p : Process)
      → All IsOwn (before ++ p ∷ after)
      → All IsOwn (before ++ record p { is_alive = false } ∷ after)
  All-crash [] after p own = own
  All-crash (q ∷ before) after p (o, own) = (o, All-crash before after p own)

  map-crash :
      (before after : List Process) (p : Process)
      → map revive (before ++ record p { is_alive = false } ∷ after)
        ≡ map revive (before ++ p ∷ after)
  map-crash [] after p = refl
  map-crash (q ∷ before) after p = ap (λ ps. revive q ∷ ps) (map-crash before after p)

  map-revive_self : (ps : List Process) → map revive (map revive ps) ≡ map revive ps
  map-revive_self [] = refl
  map-revive_self (p ∷ ps) = ap (λ qs. revive p ∷ qs) (map-revive_self ps)

  All-revive : (ps : List Process) → All IsOwn ps → All IsOwn (map revive ps)
  All-revive [] own = tt
  All-revive (p ∷ ps) (o, own) = (o, All-revive ps own)

  Step-IsFleet : {fs ps qs : List Process} → Step ps qs → IsFleet fs ps → IsFleet fs qs
  Step-IsFleet (exit before after p) f = record {
    own = All-crash before after p f.own;
    same = map-crash before after p ∙ f.same;
  }
  Step-IsFleet (polled {ps = ps} e) f =
      let found : map revive ps ≡ _ = ok-injective (sym (poll_lem ps f.own) ∙ e) in
      record {
        own = subst (All IsOwn) found (All-revive ps f.own);
        same = rw (← found) (map-revive_self ps ∙ f.same);
      }

  Reach-IsFleet : {fs ps : List Process} → IsFleet fs fs → Reach fs ps → IsFleet fs ps
  Reach-IsFleet f here = f
  Reach-IsFleet f (next r s) = Step-IsFleet s (Reach-IsFleet f r)

  -- The launcher starts one daemon for each run, alive, with its own identifier and port; and from
  -- whatever crashes and polls have made of that fleet, one more poll succeeds and gives it back:
  -- the same runs on the same ports and cores, all alive.
  pub poll_restores :
      (run_count : ℕ)
      → run_count ≤ length core_sets
      → (fs : List Process) × (start_all args.run_start_id args.base_port num_threads core_sets 0
            run_count
          ≡ ok fs)
        × (length fs ≡ run_count)
        × ((i : ℕ) (p : Process) → get_elem? fs i ≡ some p → IsStarted args i p)
        × ((ps : List Process) → Reach fs ps → poll args num_threads core_sets ps ≡ ok fs)
  poll_restores run_count h =
      let (fs, e, n, own, same, at) = fleet_lem 0 run_count (omega arith) in
      (
        fs,
        e,
        n,
        λ i p a. let (r, q, l) = at i p a in (omega arith, omega arith, l),
        λ ps r.
            let f = Reach-IsFleet (record { own = own; same = same }) r in
            poll_lem ps f.own ∙ ap ok f.same,
      )

stopped_dead : (b : Bool) (p : Process) → (kill_survivor (terminate b p)).is_alive ≡ false
stopped_dead b p = ground arith

stopped_id : (b : Bool) (p : Process) → (kill_survivor (terminate b p)).run_id ≡ p.run_id
stopped_id b p = ground arith

-- After the `finally` block no daemon runs, whether it heeded SIGTERM or had to be killed, and no
-- run is lost from the table.
pub stop_all_lem :
    (heeds : ℕ → Bool) (ps : List Process)
    → All (λ p. p.is_alive ≡ false) (stop_all heeds ps)
      × (map (λ p. p.run_id) (stop_all heeds ps) ≡ map (λ p. p.run_id) ps)
unfolding stop_all
stop_all_lem heeds [] = (tt, refl)
stop_all_lem heeds (p ∷ ps) =
    let (dead, ids) = stop_all_lem heeds ps in
    (
      (stopped_dead (heeds p.run_id) p, dead),
      ap₂ (λ i is. i ∷ is) (stopped_id (heeds p.run_id) p) ids,
    )
