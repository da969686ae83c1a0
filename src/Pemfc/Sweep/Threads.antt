-- ===== src/Pemfc/Sweep/Threads.antt =====
-- How many threads share the scratch arrays of a sweep.
use matrix_factory.Prelude.{
  append_nil, append_assoc, length-replicate, ◌≡◌, refl, sym, ◌∙◌, ap, ap₂, inl, inr, ◌⊎◌, ℕ, zero,
  suc, ◌%◌, ◌≤◌, ◌<◌, Bool, true, false, not, ◌||◌, List, [], ◌∷◌, ◌++◌, none, some, replicate,
  if◌then◌else◌, length, All, arith, Bool-cases, ◌==◌, value_error, Result, ok, err, ◌>>=◌, ◌>>◌,
  guard,
}
use Prim.Native.Nat.{bit_or}
use matrix_factory.Float.{Float, Numpy}
use matrix_factory.Pemfc.{
  Stack, Cell, ohmic_degradation, thermal_shutdown, low_activation, ohmic_degradation_eta_v,
  thermal_shutdown_temp_k, calculate_pemfc_voltage,
}
use matrix_factory.Pemfc.Sweep.{
  update, or_all, Arrays, any_at_limit, flag_if, starved, sweep_point, sweep_loop,
  batch_polarization_sweep,
}

-- Words of which only the lowest bit can be set.
abbrev pub IsBit : ℕ → Type 0
IsBit w = (w ≡ 0) ⊎ (w ≡ 1)

or-one : (w : ℕ) → IsBit w → bit_or 1 w ≡ 1
or-one w (inl e) = rw e refl
or-one w (inr e) = rw e refl

pub or_all-one : (ws : List ℕ) → All IsBit ws → or_all 1 ws ≡ 1
or_all-one [] _ = refl
or_all-one (w ∷ ws) (b, bs) = rw (or-one w b) (or_all-one ws bs)

pub set_bit : (w : ℕ) → IsBit w → bit_or w 1 ≡ 1
set_bit w (inl e) = rw e refl
set_bit w (inr e) = rw e refl

pub length-update {ℓ} :
    {A : Type ℓ} (xs : List A) (i : ℕ) (f : A → A) → length (update xs i f) ≡ length xs
length-update [] i f = refl
length-update (x ∷ xs) zero f = refl
length-update (x ∷ xs) (suc i) f = ap suc (length-update xs i f)

update_id {ℓ} : {A : Type ℓ} (xs : List A) (i : ℕ) → update xs i (λ x. x) ≡ xs
update_id [] i = refl
update_id (x ∷ xs) zero = refl
update_id (x ∷ xs) (suc i) = ap (λ ys. x ∷ ys) (update_id xs i)

update-bits : (ws : List ℕ) (i : ℕ) → All IsBit ws → All IsBit (update ws i (λ w. bit_or w 1))
update-bits [] i _ = tt
update-bits (w ∷ ws) zero (b, bs) = (inr (set_bit w b), bs)
update-bits (w ∷ ws) (suc i) (b, bs) = (b, update-bits ws i bs)

pub or-bits : (v w : ℕ) → IsBit v → IsBit w → IsBit (bit_or v w)
or-bits v w (inl e) (inl e') = inl (rw (e, e') refl)
or-bits v w (inl e) (inr e') = inr (rw (e, e') refl)
or-bits v w (inr e) b = inr (rw e (or-one w b))

or_all-update :
    (acc : ℕ) (ws : List ℕ) (i : ℕ)
    → IsBit acc
    → All IsBit ws
    → i < length ws
    → or_all acc (update ws i (λ w. bit_or w 1)) ≡ 1
or_all-update acc [] i a _ h = elim h [ ]
or_all-update acc (w ∷ ws) zero a (b, bs) h = rw (set_bit w b, set_bit acc a) (or_all-one ws bs)
or_all-update acc (w ∷ ws) (suc i) a (b, bs) h =
    or_all-update (bit_or acc w) ws i (or-bits acc w a b) bs (omega arith)

pub or_all-replicate : (n : ℕ) → (or_all 0 (replicate n 0) ≡ 0) × All IsBit (replicate n 0)
or_all-replicate zero = (refl, tt)
or_all-replicate (suc n) = ((or_all-replicate n).0, (inl refl, (or_all-replicate n).1))

module _ {F : Type 0} ⦃fl : Float F⦄ (np : Numpy F) (t : F) (c : Stack F) where
  -- The points of the curve, each computed on its own.
  abbrev pub cells_of : List F → Result (List (Cell F))
  cells_of [] = ok []
  cells_of (j ∷ js) = do
    cell ← calculate_pemfc_voltage np j t c
    cells ← cells_of js
    ok (cell ∷ cells)

  abbrev pub any_ohmic : List (Cell F) → Bool
  any_ohmic [] = false
  any_ohmic (cell ∷ cells) = fl.lt ohmic_degradation_eta_v cell.eta_ohm || any_ohmic cells

  abbrev pub voltages_of : List (Cell F) → List F
  voltages_of [] = []
  voltages_of (cell ∷ cells) = cell.v_stack ∷ voltages_of cells

  -- The sweep with neither threads nor scratch arrays.
  abbrev pub sweep_spec : List F → Result (List F × ℕ)
  sweep_spec js = do
    guard (not (any_at_limit np c.j_lim js)) value_error
    cells ← cells_of js
    let failure = if any_ohmic cells then ohmic_degradation else 0
    let failure = flag_if np (fl.lt thermal_shutdown_temp_k t) thermal_shutdown failure
    ok (voltages_of cells, flag_if np (starved np c) low_activation failure)

  -- What the loop makes of the arrays `s` is what the curve says.
  abbrev AgreesWith : Arrays F → Result (List (Cell F)) → Result (Arrays F) → Type 0
  AgreesWith s (ok cells) (ok s') =
      (s'.voltages ≡ s.voltages ++ voltages_of cells)
      × (or_all 0 s'.flag_scratch ≡ (if any_ohmic cells then 1 else or_all 0 s.flag_scratch))
  AgreesWith s (err e) (err e') = e ≡ e'
  AgreesWith s _ _ = ⊥

  -- The arrays after a point.
  abbrev step : ℕ → ℕ → Arrays F → Cell F → Arrays F
  step n i s cell = record {
    voltages = s.voltages ++ cell.v_stack ∷ [];
    scratch = update s.scratch (i % n) (λ _. some cell);
    flag_scratch =
        update s.flag_scratch (i % n)
          (flag_if np (fl.lt ohmic_degradation_eta_v cell.eta_ohm) ohmic_degradation);
  }

  -- What a point does to the flags.
  step-flags :
      (m i : ℕ) (s : Arrays F) (cell : Cell F)
      → All IsBit s.flag_scratch
      → length s.flag_scratch ≡ suc m
      → All IsBit (step (suc m) i s cell).flag_scratch
        × (length (step (suc m) i s cell).flag_scratch ≡ suc m)
        × (or_all 0 (step (suc m) i s cell).flag_scratch
            ≡ (if fl.lt ohmic_degradation_eta_v cell.eta_ohm then 1 else or_all 0 s.flag_scratch))
  step-flags m i s cell bits len = elim (Bool-cases (fl.lt ohmic_degradation_eta_v cell.eta_ohm)) [
    | inl y ↦ rw y (
      update-bits s.flag_scratch (i % suc m) bits,
      length-update s.flag_scratch (i % suc m) _ ∙ len,
      or_all-update 0 s.flag_scratch (i % suc m) (inl refl) bits (omega (arith, len)),
    )
    | inr n ↦ rw (n, update_id s.flag_scratch (i % suc m)) (bits, len, refl)
  ]

  extend :
      (m i : ℕ) (s : Arrays F) (cell : Cell F) (r : Result (List (Cell F))) (q : Result (Arrays F))
      → (or_all 0 (step (suc m) i s cell).flag_scratch
          ≡ (if fl.lt ohmic_degradation_eta_v cell.eta_ohm then 1 else or_all 0 s.flag_scratch))
      → AgreesWith (step (suc m) i s cell) r q
      → AgreesWith s (r >>= λ cells. ok (cell ∷ cells)) q
  extend m i s cell (ok cells) (ok s') h (v, f) = (
    v ∙ append_assoc s.voltages (cell.v_stack ∷ []) (voltages_of cells),
    f ∙ ap (λ w. if any_ohmic cells then 1 else w) h ∙ merge _ (any_ohmic cells) _,
  )
    where
      merge :
          (a b : Bool) (w : ℕ) → (if b then 1 else if a then 1 else w) ≡ (if a || b then 1 else w)
      merge true true w = refl
      merge true false w = refl
      merge false b w = refl
  extend m i s cell (err e) (err e') h a = a
  extend m i s cell (ok cells) (err e') h a = a
  extend m i s cell (err e) (ok s') h a = a

  sweep_loop-AgreesWith :
      (m i : ℕ) (js : List F) (s : Arrays F)
      → All IsBit s.flag_scratch
      → length s.flag_scratch ≡ suc m
      → AgreesWith s (cells_of js) (sweep_loop np t c (suc m) i js s)
  unfolding sweep_loop sweep_point
  sweep_loop-AgreesWith m i [] s bits len = (sym (append_nil s.voltages), refl)
  sweep_loop-AgreesWith m i (j ∷ js) s bits len =
      rw nonzero
        (go (calculate_pemfc_voltage np j t c) (λ s1. sweep_loop-AgreesWith m (suc i) js s1))
    where
      nonzero : (suc m == 0) ≡ false
      nonzero = ground arith

      go :
          (r : Result (Cell F))
          → ((s1 : Arrays F)
              → All IsBit s1.flag_scratch
              → length s1.flag_scratch ≡ suc m
              → AgreesWith s1 (cells_of js) (sweep_loop np t c (suc m) (suc i) js s1))
          → AgreesWith s (r >>= λ cell. cells_of js >>= λ cells. ok (cell ∷ cells)) (
              (r >>= λ cell. ok (step (suc m) i s cell)) >>= λ s1.
              sweep_loop np t c (suc m) (suc i) js s1)
      go (err e) rest = refl
      go (ok cell) rest =
          let (bits', len', h) = step-flags m i s cell bits len in
          extend m i s cell (cells_of js) _ h (rest (step (suc m) i s cell) bits' len')

  -- With at least one thread the sweep is `sweep_spec`, errors included: the voltages, the flags and
  -- the exception do not depend on the number of threads, nor on what the scratch rows hold.
  pub sweep_threads_irrelevant :
      (js : List F) (numba_threads : ℕ)
      → 1 ≤ numba_threads
      → batch_polarization_sweep np js t c numba_threads ≡ sweep_spec js
  unfolding batch_polarization_sweep
  sweep_threads_irrelevant js zero h = absurd (omega arith)
  sweep_threads_irrelevant js (suc m) h =
      go (not (any_at_limit np c.j_lim js)) (cells_of js) _ agree
    where
      start : Arrays F
      start = record {
        voltages = [];
        scratch = replicate (suc m) none;
        flag_scratch = replicate (suc m) 0;
      }

      agree : AgreesWith start (cells_of js) (sweep_loop np t c (suc m) 0 js start)
      agree =
          sweep_loop-AgreesWith m 0 js start (or_all-replicate (suc m)).1
            (length-replicate (suc m) 0)

      report : List F × ℕ → List F × ℕ
      report (vs, w) = (
        vs,
        flag_if np (starved np c) low_activation
            (flag_if np (fl.lt thermal_shutdown_temp_k t) thermal_shutdown w),
      )

      go :
          (b : Bool) (r : Result (List (Cell F))) (q : Result (Arrays F))
          → AgreesWith start r q
          → (guard b value_error >> (q >>= λ s. ok (report (s.voltages, or_all 0 s.flag_scratch))))
            ≡ (guard b value_error
                >> (r >>= λ cells.
                    ok (
                      report
                        (voltages_of cells, if any_ohmic cells then ohmic_degradation else 0))))
      go false r q a = refl
      go true (err e) (err e') a = ap (λ x. err x) (sym a)
      go true (ok cells) (ok s') (v, f) =
          ap₂ (λ vs w. ok (report (vs, w))) v
            (f ∙ ap (λ w. if any_ohmic cells then 1 else w) (or_all-replicate (suc m)).0)
      go true (ok cells) (err e') a = absurd a
      go true (err e) (ok s') a = absurd a
