-- ===== src/Kernels/Limits.antt =====
-- What `solve_temp_limited_pressure_jit` finds.
use matrix_factory.Prelude.{ℕ, zero, suc, ◌≡◌, refl, inl, inr, ◌⊎◌, false, some, Bool-cases}
use matrix_factory.Float.{Float, Numpy, ◌⊕◌, ◌⊖◌, ◌⊗◌, ◌⊘◌, Le, IsOrdered, IsRounded, IsMidpoint}
use matrix_factory.Kernels.{Within}
use matrix_factory.Kernels.Stages.{
  MixtureTables, compute_t_out_for_p_jit, calculate_mixture_compression_jit, pressure_loop,
  solve_temp_limited_pressure_jit,
}

module _ {F : Type 0} ⦃fl : Float F⦄ (np : Numpy F) (laws : IsOrdered F) (rounded : IsRounded F)
    (midpoint : IsMidpoint F) (m : MixtureTables F) (p_in t_in t_max efficiency : F) where
  open fl use {lit, lt, le, abs}
  open laws use {le_num, le_trans}
  open rounded use {mul_comm}
  open midpoint use {mid_between}

  -- The estimate at a pressure is a temperature of at most `t_max`.
  pub IsCool : F → Type 0
  IsCool p = (t : F) × (compute_t_out_for_p_jit np m p_in p t_in efficiency ≡ some t) × Le t t_max

  -- Both temperatures are found at every pressure of the range.
  pub IsSolvable : F → Type 0
  IsSolvable p_max =
      (p : F)
      → Within p_in p_max p
      → ((t : F) × (compute_t_out_for_p_jit np m p_in p t_in efficiency ≡ some t))
        × ((out : F × F × F) × (calculate_mixture_compression_jit np m p_in p t_in efficiency
              ≡ some out))

  not_IsCool :
      (p t : F)
      → compute_t_out_for_p_jit np m p_in p t_in efficiency ≡ some t
      → le t t_max ≡ false
      → ¬ IsCool p
  unfolding IsCool
  not_IsCool p t e hot (s, e', k) = let same : t ≡ s = cc (e, e') in cc

  mid_Within :
      (low high : F)
      → Le (lit 0 0) low
      → Le low high
      → Le high (lit 1_000_000_000_000_000 0)
      → Le low ((low ⊕ high) ⊗ lit 5 1) × Le ((low ⊕ high) ⊗ lit 5 1) high
  mid_Within low high a b d = rw (mul_comm (low ⊕ high) (lit 5 1)) (mid_between low high a b d)

  pressure_loop_lem :
      (p_max : F)
      → IsSolvable p_max
      → Le (lit 0 0) p_in
      → Le p_max (lit 1_000_000_000_000_000 0)
      → (n : ℕ) (low high : F) → Le p_in low
      → Le low high
      → Le high p_max
      → (low ≡ p_in) ⊎ IsCool low
      → (p : F) × (pressure_loop np m p_in t_in t_max efficiency n low high ≡ some p)
        × Within p_in p_max p
        × ((p ≡ p_in) ⊎ IsCool p)
  unfolding pressure_loop IsCool IsSolvable
  pressure_loop_lem p_max solvable nonneg small zero low high from ordered to cool =
      (low, refl, (from, le_trans _ _ _ ordered to), cool)
  pressure_loop_lem p_max solvable nonneg small (suc n) low high from ordered to cool =
      let mid = (low ⊕ high) ⊗ lit 5 1 in
      let (above, below) =
        mid_Within low high (le_trans _ _ _ nonneg from) ordered (le_trans _ _ _ to small) in
      let from_mid = le_trans _ _ _ from above in
      let ((t, e), _) = solvable mid (from_mid, le_trans _ _ _ below to) in
      elim (Bool-cases (le t t_max)) [
        | inl y ↦ elim (Bool-cases (lt (abs (high ⊖ mid) ⊘ mid) (lit 1 3))) [
          | inl near ↦
              (mid, rw (e, y, near) refl, (from_mid, le_trans _ _ _ below to), inr (t, e, y))
          | inr far ↦
              let (p, q, range, cool_p) =
                pressure_loop_lem p_max solvable nonneg small n mid high from_mid below to
                  (inr (t, e, y)) in
              (p, rw (e, y, far) q, range, cool_p)
        ]
        | inr hot ↦ elim (Bool-cases (lt (abs (mid ⊖ low) ⊘ low) (lit 1 3))) [
          | inl near ↦ (low, rw (e, hot, near) refl, (from, le_trans _ _ _ ordered to), cool)
          | inr far ↦
              let (p, q, range, cool_p) =
                pressure_loop_lem p_max solvable nonneg small n low mid from above
                  (le_trans _ _ _ below to) cool in
              (p, rw (e, hot, far) q, range, cool_p)
        ]
      ]

  -- For pressures from 0 to 10^15 Pa, if both temperatures are found at every pressure of the range,
  -- the solver returns a pressure of the range with the temperature and the work of its compression.
  -- That pressure is the inlet's or one whose estimated outlet temperature is at most `T_max`, and it
  -- is the target if the estimate there is.
  pub solve_temp_limited_pressure_jit_lem :
      (p_max : F)
      → IsSolvable p_max
      → Le (lit 0 0) p_in
      → Le p_in p_max
      → Le p_max (lit 1_000_000_000_000_000 0)
      → (p t_out work h_out : F) × (solve_temp_limited_pressure_jit np m p_in t_in t_max efficiency
            p_max
          ≡ some (p, t_out, work))
        × (calculate_mixture_compression_jit np m p_in p t_in efficiency
            ≡ some (work, t_out, h_out))
        × Within p_in p_max p
        × ((p ≡ p_in) ⊎ IsCool p)
        × (IsCool p_max → p ≡ p_max)
  unfolding solve_temp_limited_pressure_jit IsCool IsSolvable
  solve_temp_limited_pressure_jit_lem p_max solvable nonneg ordered small =
      let top : Within p_in p_max p_max = (ordered, (le_num _ _ ordered).1) in
      let ((t, e), ((w, t', h'), q)) = solvable p_max top in
      elim (Bool-cases (le t t_max)) [
        | inl y ↦ (p_max, t', w, h', rw (e, y, q) refl, q, top, inr (t, e, y), λ c. refl)
        | inr hot ↦
            let (p, found, range, cool) =
              pressure_loop_lem p_max solvable nonneg small 25 p_in p_max (le_num _ _ ordered).0
                ordered (le_num _ _ small).0 (inl refl) in
            let (_, ((w', t'', h''), q')) = solvable p range in
            (
              p,
              t'',
              w',
              h'',
              rw (e, hot, found, q') refl,
              q',
              range,
              cool,
              λ c. absurd (not_IsCool p_max t e hot c),
            )
      ]
