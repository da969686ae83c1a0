-- ===== src/Pemfc/Sweep/Race.antt =====
-- The flags of `batch_polarization_sweep` when its iterations run on several threads. The row
-- `i % numba_threads` is not one thread's own, and `flag_scratch[idx] |= bit` is a read and a write.
use matrix_factory.Prelude.{
  ◌≡◌, refl, ◌∙◌, inl, inr, ℕ, zero, suc, ◌%◌, ◌≤◌, ◌<◌, Bool, true, false, List, [], ◌∷◌, All,
  Bool-cases, arith, ◌==◌, if◌then◌else◌, length, replicate, length-replicate,
}
use Prim.Native.Nat.{bit_or}
use matrix_factory.Pemfc.{ohmic_degradation}
use matrix_factory.Pemfc.Sweep.{update, or_all}
use matrix_factory.Pemfc.Sweep.Threads.{
  IsBit, or_all-one, set_bit, length-update, or-bits, or_all-replicate,
}

-- The two halves of the statement at iteration `i`, which runs if the point is degraded.
pub data Access : Type 0 where
  fetch store : ℕ → Access

abbrev pub flag_at : List ℕ → ℕ → ℕ
flag_at [] k = 0
flag_at (w ∷ ws) zero = w
flag_at (w ∷ ws) (suc k) = flag_at ws k

-- The accesses in the order in which they happen, whatever that is, on what each iteration last read.
pub interleaved : ℕ → List Access → (ℕ → ℕ) → List ℕ → List ℕ
interleaved n [] seen flag_scratch = flag_scratch
interleaved n (fetch i ∷ rest) seen flag_scratch =
    interleaved n rest (λ k. if k == i then flag_at flag_scratch (i % n) else seen k) flag_scratch
interleaved n (store i ∷ rest) seen flag_scratch =
    interleaved n rest seen (update flag_scratch (i % n) (λ _. bit_or (seen i) ohmic_degradation))

abbrev pub any_store : List Access → Bool
any_store [] = false
any_store (fetch i ∷ rest) = any_store rest
any_store (store i ∷ rest) = true

flag_at-IsBit : (ws : List ℕ) (k : ℕ) → All IsBit ws → IsBit (flag_at ws k)
flag_at-IsBit [] k bits = inl refl
flag_at-IsBit (w ∷ ws) zero (b, bits) = b
flag_at-IsBit (w ∷ ws) (suc k) (b, bits) = flag_at-IsBit ws k bits

write-IsBit : (ws : List ℕ) (k v : ℕ) → v ≡ 1 → All IsBit ws → All IsBit (update ws k (λ _. v))
write-IsBit [] k v e bits = tt
write-IsBit (w ∷ ws) zero v e (b, bits) = (inr e, bits)
write-IsBit (w ∷ ws) (suc k) v e (b, bits) = (b, write-IsBit ws k v e bits)

or_all-write :
    (acc : ℕ) (ws : List ℕ) (k v : ℕ)
    → v ≡ 1
    → IsBit acc
    → All IsBit ws
    → k < length ws
    → or_all acc (update ws k (λ _. v)) ≡ 1
or_all-write acc [] k v e a bits h = absurd (omega (arith, h))
or_all-write acc (w ∷ ws) zero v e a (b, bits) h = rw (e, set_bit acc a) (or_all-one ws bits)
or_all-write acc (w ∷ ws) (suc k) v e a (b, bits) h =
    or_all-write (bit_or acc w) ws k v e (or-bits acc w a b) bits (omega arith)

interleaved_lem :
    (m : ℕ) (todo : List Access) (seen : ℕ → ℕ) (ws : List ℕ)
    → ((k : ℕ) → IsBit (seen k))
    → All IsBit ws
    → length ws ≡ suc m
    → or_all 0 (interleaved (suc m) todo seen ws) ≡ (if any_store todo then 1 else or_all 0 ws)
unfolding interleaved
interleaved_lem m [] seen ws s bits len = refl
interleaved_lem m (fetch i ∷ rest) seen ws s bits len =
    interleaved_lem m rest (λ k. if k == i then flag_at ws (i % suc m) else seen k) ws next bits len
  where
    next : (k : ℕ) → IsBit (if k == i then flag_at ws (i % suc m) else seen k)
    next k = elim (Bool-cases (k == i)) [
      | inl y ↦ rw y (flag_at-IsBit ws (i % suc m) bits)
      | inr n ↦ rw n (s k)
    ]
interleaved_lem m (store i ∷ rest) seen ws s bits len =
    let one = set_bit (seen i) (s i) in
    let written = or_all-write 0 ws (i % suc m) _ one (inl refl) bits (omega (arith, len)) in
    interleaved_lem m rest seen (update ws (i % suc m) (λ _. bit_or (seen i) 1)) s
      (write-IsBit ws (i % suc m) _ one bits) (length-update ws (i % suc m) _ ∙ len)
    ∙ stays (any_store rest) written
  where
    stays : (b : Bool) {w : ℕ} → w ≡ 1 → (if b then 1 else w) ≡ 1
    stays true e = refl
    stays false e = e

-- However the threads interleave the reads and the writes of the flag rows, lost updates included, the
-- rows joined at the end hold the degradation bit if some write happened, and 0 otherwise.
pub lost_updates_harmless :
    (numba_threads : ℕ) (accesses : List Access)
    → 1 ≤ numba_threads
    → or_all 0 (interleaved numba_threads accesses (λ _. 0) (replicate numba_threads 0))
      ≡ (if any_store accesses then ohmic_degradation else 0)
lost_updates_harmless zero accesses h = absurd (omega arith)
lost_updates_harmless (suc m) accesses h =
    interleaved_lem m accesses (λ _. 0) (replicate (suc m) 0) (λ _. inl refl)
      (or_all-replicate (suc m)).1 (length-replicate (suc m) 0)
    ∙ start (any_store accesses)
  where
    start : (b : Bool) → (if b then 1 else or_all 0 (replicate (suc m) 0)) ≡ (if b then 1 else 0)
    start true = refl
    start false = (or_all-replicate (suc m)).0
