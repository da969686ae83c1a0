-- ===== src/Deoxo/Bed.antt =====
-- What `solve_deoxo_pfr_step` records and returns.
use matrix_factory.Prelude.{
  ℕ, zero, suc, ◌≤◌, ◌≡◌, subst, inl, inr, true, false, List, [], ◌∷◌, length, length-append, ltb,
  ltb→lt, if◌then◌else◌, All, All-append, Bool-cases, arith,
}
use matrix_factory.Float.{Float, Numpy, ◌⊗◌, IsNum, Le, IsOrdered, IsNum-lit}
use matrix_factory.Deoxo.{BedPoint, Reactor, Run}
use matrix_factory.Deoxo.Pfr.{
  recorded, is_on_target, cooled_step, reacting_step, pfr_loop, solve_deoxo_pfr_step,
}

length-recorded :
    {F : Type 0} (max_iter : ℕ) (ps : List (BedPoint F)) (p : BedPoint F)
    → 1 ≤ length ps
    → length ps ≤ max_iter
    → (1 ≤ length (recorded max_iter ps p)) × (length (recorded max_iter ps p) ≤ max_iter)
length-recorded max_iter ps p one few = elim (Bool-cases (ltb (length ps) max_iter)) [
  | inl y ↦ rw y (
    omega (arith, length-append ps (p ∷ [])),
    omega (arith, ltb→lt _ _ y, length-append ps (p ∷ [])),
  )
  | inr n ↦ rw n (one, few)
]

recorded-All :
    {F : Type 0} (P : BedPoint F → Type 0) (max_iter : ℕ) (ps : List (BedPoint F)) (p : BedPoint F)
    → All P ps
    → P p
    → All P (recorded max_iter ps p)
recorded-All P max_iter ps p all h = elim (Bool-cases (ltb (length ps) max_iter)) [
  | inl y ↦ rw y (All-append P ps (p ∷ []) all (h, tt))
  | inr n ↦ rw n all
]

module _ {F : Type 0} ⦃fl : Float F⦄ where
  open fl use {lit}

  pub AtMostOne : F → Type 0
  AtMostOne x = IsNum x → Le x (lit 1 0)

  -- No temperature of the profile is above the peak.
  pub IsPeak : F → List (BedPoint F) → Type 0
  IsPeak peak ps = All (λ p. IsNum p.temperature → Le p.temperature peak) ps

module _ {F : Type 0} ⦃fl : Float F⦄ (np : Numpy F) (laws : IsOrdered F) (b : Reactor F)
    (k0 u_a y_o2_in y_o2_target l_total : F) (max_iter : ℕ) (t_in : F) where
  open fl use {lit, lt, le, min}
  open laws use {le_num, le_trans, lit_le, le_of_lt, le_of_not_lt, min_lem, min_either}

  record IsRun (run : Run F) : Type 0 where
    started : 1 ≤ length run.profile
    short : length run.profile ≤ max_iter
    capped : All (λ p. AtMostOne p.conversion) run.profile
    converted : AtMostOne run.x_total
    peak_num : IsNum t_in → IsNum run.t_peak
    hottest : lt (lit 0 0) y_o2_target ≡ false → IsNum t_in → IsPeak run.t_peak run.profile

  min-AtMostOne : (x : F) → AtMostOne (min (lit 1 0) x)
  unfolding AtMostOne
  min-AtMostOne x num = elim (min_either (lit 1 0) x) [
    | inl e ↦ rw e (IsNum-lit laws 1 0)
    | inr e ↦ (min_lem (lit 1 0) x (IsNum-lit laws 1 0) (subst (λ y. IsNum y) e num)).0
  ]

  raise : (low high : F) (ps : List (BedPoint F)) → Le low high → IsPeak low ps → IsPeak high ps
  unfolding IsPeak
  raise low high [] h all = tt
  raise low high (p ∷ ps) h (a, all) = ((λ num. le_trans _ _ _ (a num) h), raise low high ps h all)

  module _ (run : Run F) (g : IsRun run) (l_curr : F) where
    cooled_step-IsRun :
        is_on_target np b k0 u_a y_o2_in y_o2_target l_total max_iter run.x_total ≡ true
        → IsRun (cooled_step np b k0 u_a y_o2_in y_o2_target l_total max_iter l_curr run).1
    unfolding cooled_step AtMostOne IsPeak
    cooled_step-IsRun on = record {
      started = (length-recorded max_iter run.profile _ g.started g.short).0;
      short = (length-recorded max_iter run.profile _ g.started g.short).1;
      capped =
          recorded-All (λ p. AtMostOne p.conversion) max_iter run.profile _ g.capped g.converted;
      converted = g.converted;
      peak_num = g.peak_num;
      hottest = λ off num. cc (rw off at on);
    }

    -- The peak after a step to `t`: a number, no lower than the peak before, and than `t`.
    peak_after :
        (t : F)
        → IsNum t_in
        → Le run.t_peak (if lt run.t_peak t then t else run.t_peak)
          × (IsNum t → Le t (if lt run.t_peak t then t else run.t_peak))
    peak_after t num = elim (Bool-cases (lt run.t_peak t)) [
      | inl y ↦ rw y (le_of_lt _ _ y, λ n. n)
      | inr k ↦ rw k (g.peak_num num, λ n. le_of_not_lt run.t_peak t (g.peak_num num) n k)
    ]

    reacting_step-IsRun :
        (f_o2_in : F)
        → IsRun
            (reacting_step np b k0 u_a y_o2_in y_o2_target l_total max_iter f_o2_in l_curr run).1
    unfolding reacting_step IsPeak
    reacting_step-IsRun f_o2_in = record {
      started = (length-recorded max_iter run.profile _ g.started g.short).0;
      short = (length-recorded max_iter run.profile _ g.started g.short).1;
      capped =
          recorded-All (λ p. AtMostOne p.conversion) max_iter run.profile _ g.capped
            (min-AtMostOne _);
      converted = min-AtMostOne _;
      peak_num = λ num. (le_num _ _ (peak_after _ num).0).1;
      hottest = λ off num.
          recorded-All (λ p. IsNum p.temperature → Le p.temperature _) max_iter run.profile _
            (raise _ _ run.profile (peak_after _ num).0 (g.hottest off num)) (peak_after _ num).1;
    }

  pfr_loop-IsRun :
      (f_o2_in : F) (n : ℕ) (l_curr : F) (run : Run F)
      → IsRun run
      → IsRun (pfr_loop np b k0 u_a y_o2_in y_o2_target l_total max_iter f_o2_in n l_curr run)
  unfolding pfr_loop
  pfr_loop-IsRun f_o2_in zero l_curr run g = g
  pfr_loop-IsRun f_o2_in (suc n) l_curr run g = elim (Bool-cases (le l_total l_curr)) [
    | inl done ↦ rw done g
    | inr more ↦
        elim (Bool-cases
          (is_on_target np b k0 u_a y_o2_in y_o2_target l_total max_iter run.x_total)) [
            | inl on ↦
                rw (more, on) (pfr_loop-IsRun f_o2_in n _ _ (cooled_step-IsRun run g l_curr on))
            | inr off ↦
                rw (more, off)
                  (pfr_loop-IsRun f_o2_in n _ _ (reacting_step-IsRun run g l_curr f_o2_in))
          ]
  ]

  solve_deoxo_pfr_step-IsRun :
      1 ≤ max_iter
      → IsRun (solve_deoxo_pfr_step np b k0 u_a y_o2_in y_o2_target l_total max_iter t_in)
  unfolding solve_deoxo_pfr_step AtMostOne IsPeak
  solve_deoxo_pfr_step-IsRun h = elim (Bool-cases (le (b.molar_flow_total ⊗ y_o2_in) (lit 1 12))) [
    | inl y ↦ rw y start-IsRun
    | inr n ↦ rw n (pfr_loop-IsRun (b.molar_flow_total ⊗ y_o2_in) max_iter (lit 0 0) _ start-IsRun)
  ]
    where
      start : Run F
      start = record {
        x_total = lit 0 0;
        t_out = t_in;
        t_peak = t_in;
        profile = record { length_m = lit 0 0; temperature = t_in; conversion = lit 0 0 } ∷ [];
      }

      start-IsRun : IsRun start
      start-IsRun = record {
        started = omega arith;
        short = h;
        capped = (λ num. lit_le 0 0 1 0 (omega arith), tt);
        converted = λ num. lit_le 0 0 1 0 (omega arith);
        peak_num = λ num. num;
        hottest = λ off num. (λ n. n, tt);
      }

  -- The bed's profile has at least one entry and at most `max_iter`, and no conversion in it that is a
  -- number, nor the total, is above 1.
  pub solve_deoxo_pfr_step_lem :
      1 ≤ max_iter
      → let run = solve_deoxo_pfr_step np b k0 u_a y_o2_in y_o2_target l_total max_iter t_in in
        (1 ≤ length run.profile)
        × (length run.profile ≤ max_iter)
        × All (λ p. AtMostOne p.conversion) run.profile
        × AtMostOne run.x_total
  solve_deoxo_pfr_step_lem h =
      let g = solve_deoxo_pfr_step-IsRun h in (g.started, g.short, g.capped, g.converted)

  -- Without a target for the oxygen and with a number as inlet temperature, no recorded temperature
  -- that is a number is above the peak that is returned.
  pub solve_deoxo_pfr_step-IsPeak :
      1 ≤ max_iter
      → lt (lit 0 0) y_o2_target ≡ false
      → IsNum t_in
      → let run = solve_deoxo_pfr_step np b k0 u_a y_o2_in y_o2_target l_total max_iter t_in in
        IsPeak run.t_peak run.profile
  solve_deoxo_pfr_step-IsPeak h off num = (solve_deoxo_pfr_step-IsRun h).hottest off num
