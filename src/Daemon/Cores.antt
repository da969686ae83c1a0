-- ===== src/Daemon/Cores.antt =====
-- The core sets of `compute_daemon_core_sets`: which cores they hold, and when the function raises.
use native.Mathlib.Nat.{
  le-div_iff_mul-le, mul-div_cancel_left, div-mul-le_self, zero-div, div-le_of_le-mul,
  mul-le-mul_right, mod-lt,
}
use mathlib.Core.List.{append_assoc, append-nil}
use matrix_factory.Prelude.{
  ℕ, zero, suc, ◌+◌, ◌-◌, ◌*◌, ◌/◌, ◌%◌, ◌≤◌, ◌<◌, ◌≡◌, refl, ap, ◌∙◌, Option, false, List, [], ◌∷◌,
  ◌++◌, arith, sym, ◌==◌, All-get, length, get_elem?-some, All, ok,
}
use matrix_factory.Daemon.{
  range_from, take, drop, slice, total_cores, available_cores, round_robin, slices,
}

abbrev pub flatten : List (List ℕ) → List ℕ
flatten [] = []
flatten (xs ∷ xss) = xs ++ flatten xss

length-range_from : (start n : ℕ) → length (range_from start n) ≡ n
length-range_from start zero = refl
length-range_from start (suc n) = ap suc (length-range_from (suc start) n)

-- A core that is neither below `reserved` nor at or above `total`.
abbrev pub IsSpare : ℕ → ℕ → ℕ → Type 0
IsSpare reserved total core = (reserved ≤ core) × (core < total)

range_from-IsSpare :
    (reserved total start n : ℕ)
    → reserved ≤ start
    → n ≤ total - start
    → All (IsSpare reserved total) (range_from start n)
range_from-IsSpare reserved total start zero h k = tt
range_from-IsSpare reserved total start (suc n) h k =
    ((h, omega arith), range_from-IsSpare reserved total (suc start) n (omega arith) (omega arith))

take-append-drop : (n : ℕ) (xs : List ℕ) → take n xs ++ drop n xs ≡ xs
take-append-drop zero xs = refl
take-append-drop (suc n) [] = refl
take-append-drop (suc n) (x ∷ xs) = ap (λ ys. x ∷ ys) (take-append-drop n xs)

drop-nil : (n : ℕ) → drop n [] ≡ []
drop-nil zero = refl
drop-nil (suc n) = refl

drop-drop : (a n b : ℕ) (xs : List ℕ) → a + n ≡ b → drop n (drop a xs) ≡ drop b xs
drop-drop zero n b xs e = ap (λ k. drop k xs) (omega arith)
drop-drop (suc a) n zero xs e = absurd (omega arith)
drop-drop (suc a) n (suc b) [] e = drop-nil n
drop-drop (suc a) n (suc b) (x ∷ xs) e = drop-drop a n b xs (omega arith)

slice-append-drop : (xs : List ℕ) (a b : ℕ) → a ≤ b → slice xs a b ++ drop b xs ≡ drop a xs
slice-append-drop xs a b h =
    rw (← drop-drop a (b - a) b xs (omega arith)) (take-append-drop (b - a) (drop a xs))

drop-length : (xs : List ℕ) → drop (length xs) xs ≡ []
drop-length [] = refl
drop-length (x ∷ xs) = drop-length xs

-- Where each slice begins, over `n` cores and `k` runs.
abbrev cut : ℕ → ℕ → ℕ → ℕ
cut n k i = i * n / k

cut_step : (n k i : ℕ) → 0 < k → k ≤ n → cut n k i + 1 ≤ cut n k (suc i)
cut_step n k i p h = (le-div_iff_mul-le p).1 (omega (arith, div-mul-le_self (i * n) k))

slices-append-drop :
    (xs : List ℕ) (k i left : ℕ)
    → 0 < k
    → k ≤ length xs
    → flatten (slices xs k i left) ++ drop (cut (length xs) k (i + left)) xs
      ≡ drop (cut (length xs) k i) xs
unfolding slices
slices-append-drop xs k i zero p h = ap (λ j. drop (cut (length xs) k j) xs) (omega arith)
slices-append-drop xs k i (suc left) p h =
    let n = length xs in
    let step : cut n k i ≤ cut n k (suc i) = omega (arith, cut_step n k i p h) in
    let ih = slices-append-drop xs k (suc i) left p h in
    let e : suc i + left ≡ i + suc left = omega arith in
    append_assoc _ (flatten (slices xs k (suc i) left)) _
    ∙ ap (λ ys. slice xs (cut n k i) (cut n k (suc i)) ++ ys) (rw (← e) ih)
    ∙ slice-append-drop xs (cut n k i) (cut n k (suc i)) step

pub length-slices : (xs : List ℕ) (k i left : ℕ) → length (slices xs k i left) ≡ left
unfolding slices
length-slices xs k i zero = refl
length-slices xs k i (suc left) = ap suc (length-slices xs k (suc i) left)

-- Enough cores: the sets are a partition of the spare cores, in order.
pub flatten-slices : (xs : List ℕ) (k : ℕ) → k ≤ length xs → 0 < k → flatten (slices xs k 0 k) ≡ xs
flatten-slices xs k h p =
    let n = length xs in
    let all : cut n k k ≡ n = mul-div_cancel_left n p in
    let done : drop (cut n k k) xs ≡ [] = rw all (drop-length xs) in
    let first : cut n k 0 ≡ 0 = ap (λ m. m / k) (omega arith) ∙ zero-div k in
    let total = slices-append-drop xs k 0 k p h in
    let start : drop (cut n k 0) xs ≡ xs = rw first refl in
    let last : drop (cut n k (0 + k)) xs ≡ [] =
      ap (λ j. drop (cut n k j) xs) (omega arith) ∙ done in
    sym (append-nil _) ∙ ap (λ ys. flatten (slices xs k 0 k) ++ ys) (sym last) ∙ total ∙ start

-- A set that is not empty and holds spare cores only.
abbrev pub IsPinning : ℕ → ℕ → List ℕ → Type 0
IsPinning reserved total cores = (0 < length cores) × All (IsSpare reserved total) cores

module _ (P : ℕ → Type 0) where
  All-take : (n : ℕ) (xs : List ℕ) → All P xs → All P (take n xs)
  All-take zero xs a = tt
  All-take (suc n) [] a = tt
  All-take (suc n) (x ∷ xs) (p, a) = (p, All-take n xs a)

  All-drop : (n : ℕ) (xs : List ℕ) → All P xs → All P (drop n xs)
  All-drop zero xs a = a
  All-drop (suc n) [] a = tt
  All-drop (suc n) (x ∷ xs) (p, a) = All-drop n xs a

length-slice : (xs : List ℕ) (a b : ℕ) → a < b → b ≤ length xs → 0 < length (slice xs a b)
length-slice xs a b h k = positive (b - a) (drop a xs) (omega arith) (reach a xs (omega arith))
  where
    positive : (n : ℕ) (ys : List ℕ) → 0 < n → 0 < length ys → 0 < length (take n ys)
    positive zero ys p q = p
    positive (suc n) [] p q = q
    positive (suc n) (y ∷ ys) p q = omega arith

    reach : (n : ℕ) (ys : List ℕ) → n < length ys → 0 < length (drop n ys)
    reach zero ys p = p
    reach (suc n) [] p = elim p [ ]
    reach (suc n) (y ∷ ys) p = reach n ys (omega arith)

pub slices-IsPinning :
    (reserved total : ℕ) (xs : List ℕ) (k i left : ℕ)
    → All (IsSpare reserved total) xs
    → 0 < k
    → k ≤ length xs
    → i + left ≤ k
    → All (IsPinning reserved total) (slices xs k i left)
unfolding slices
slices-IsPinning r t xs k i zero a p h e = tt
slices-IsPinning r t xs k i (suc left) a p h e =
    let n = length xs in
    let inside : cut n k (suc i) ≤ n =
      div-le_of_le-mul k (mul-le-mul_right n (let j : suc i ≤ k = omega arith in j)) in
    (
      (
        length-slice xs (cut n k i) (cut n k (suc i)) (omega (arith, cut_step n k i p h)) inside,
        All-take (IsSpare r t) _ _ (All-drop (IsSpare r t) (cut n k i) xs a),
      ),
      slices-IsPinning r t xs k (suc i) left a p h (omega arith),
    )

-- `round_robin` over at least one core returns one spare core for each run.
pub round_robin_lem :
    (reserved total : ℕ) (xs : List ℕ) (i left : ℕ)
    → All (IsSpare reserved total) xs
    → 0 < length xs
    → (sets : List (List ℕ)) × (round_robin xs i left ≡ ok sets)
      × (length sets ≡ left)
      × All (IsPinning reserved total) sets
unfolding round_robin
round_robin_lem r t xs i zero a p = ([], refl, refl, tt)
round_robin_lem r t xs i (suc left) a p =
    let (core, at) = get_elem?-some xs (i % length xs) (mod-lt i p) in
    let (sets, e, n, pinned) = round_robin_lem r t xs (suc i) left a p in
    let full : (length xs == 0) ≡ false = ground arith in
    (
      (core ∷ []) ∷ sets,
      rw (full, at, e),
      ap suc n,
      ((omega arith, (All-get (IsSpare r t) xs (i % length xs) a at, tt)), pinned),
    )

module _ (cpu_count : Option ℕ) (run_count reserved : ℕ) where
  abbrev pub cores : List ℕ
  cores = available_cores cpu_count run_count reserved

  pub cores-IsSpare : All (IsSpare reserved (total_cores cpu_count run_count)) cores
  unfolding available_cores
  cores-IsSpare =
      let total = total_cores cpu_count run_count in
      range_from-IsSpare reserved total reserved (total - reserved) (omega arith) (omega arith)

  pub length-cores : length cores ≡ total_cores cpu_count run_count - reserved
  unfolding available_cores
  length-cores = length-range_from reserved (total_cores cpu_count run_count - reserved)
