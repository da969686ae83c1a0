-- ===== src/Deoxo/Zones.antt =====
-- What `solve_deoxo_multizone_jit` writes and returns.
use matrix_factory.Prelude.{
  ℕ, zero, suc, Result, ok, err, zero_division, ◌>>=◌, ◌==◌, ◌+◌, ◌*◌, ◌≤◌, ◌<◌, ◌≡◌, refl, subst,
  inl, inr, List, [], ◌∷◌, ◌++◌, length, length-append, lt→ltb, if◌then◌else◌, All-append,
  Bool-cases, arith,
}
use matrix_factory.Float.{
  Float, Numpy, ◌⊕◌, ◌⊗◌, ◌⊘◌, IsNum, Le, IsOrdered, IsRounded, IsSigned, clamp_num',
}
use matrix_factory.Deoxo.{BedPoint, Reactor}
use matrix_factory.Deoxo.Fractions.{IsFraction, AreFractions, zero-IsFraction, joined-IsFraction}
use matrix_factory.Deoxo.Multizone.{
  Zone, Walk, Local, divides_by_zero, checked_grads, checked_rk4, record_point, record_step,
  inert_zone, relaxed, joined, zone_step, zone_loop, reacting_zone, walk_zone, walk_zones,
  solve_deoxo_multizone_jit,
}

record_point-ok :
    {F : Type 0} (capacity : ℕ) (profile : List (BedPoint F)) (p : BedPoint F)
    → length profile < capacity
    → record_point capacity profile p ≡ ok (profile ++ (p ∷ []))
record_point-ok capacity profile p h = rw (lt→ltb _ _ h) refl

length-record :
    {F : Type 0} (profile : List (BedPoint F)) (p : BedPoint F)
    → length (profile ++ (p ∷ [])) ≡ length profile + 1
length-record profile p = length-append profile (p ∷ [])

-- A value with a property, or a ZeroDivisionError.
pub Ends {ℓ} : {A : Type ℓ} → (A → Type 0) → Result A → Type 0
Ends P (ok a) = P a
Ends P (err e) = e ≡ zero_division

bind-Ends :
    {A B : Type 0} (P : A → Type 0) (Q : B → Type 0) (m : Result A) (f : A → Result B)
    → Ends P m
    → ((a : A) → P a → Ends Q (f a))
    → Ends Q (m >>= f)
unfolding Ends
bind-Ends P Q (ok a) f h k = k a h
bind-Ends P Q (err e) f h k = h

module _ {F : Type 0} ⦃fl : Float F⦄ (np : Numpy F) (laws : IsOrdered F) (rounded : IsRounded F)
    (signed : IsSigned F np) where
  open fl use {lit, lt, le, min, max}
  open laws use {le_trans, lit_le, le_of_lt}
  open rounded use {sub_nonneg, num_sub_parts, num_mul_parts, mul_nonneg}
  open signed use {mul_unit}

  module _ (b : Reactor F) (n capacity : ℕ) (t_in : F) where
    -- Room for `k` more entries, fractions so far, and a peak no lower than the inlet.
    pub record IsWalk (k : ℕ) (w : Walk F) : Type 0 where
      pub room : length w.profile + k ≤ capacity
      pub started : 1 ≤ length w.profile
      pub fractions : AreFractions w.profile
      pub total : IsFraction w.x_global
      pub peak : IsNum t_in → Le t_in w.t_max_global

    record IsLocal (k : ℕ) (s : Local F) : Type 0 where
      room : length s.history + k ≤ capacity
      started : 1 ≤ length s.history
      fractions : AreFractions s.history
      converted : IsFraction s.x_local
      peak : IsNum t_in → Le t_in s.t_max

    higher :
        (t_max t : F)
        → (IsNum t_in → Le t_in t_max)
        → IsNum t_in
        → Le t_in (if lt t_max t then t else t_max)
    higher t_max t h num = elim (Bool-cases (lt t_max t)) [
      | inl y ↦ rw y (le_trans _ _ _ (h num) (le_of_lt _ _ y))
      | inr k ↦ rw k (h num)
    ]

    checked_grads-Ends :
        (k0 u_a y_o2 f_o2 x t : F) → Ends (λ g. Unit {0}) (checked_grads np b k0 u_a y_o2 f_o2 x t)
    unfolding Ends
    checked_grads-Ends k0 u_a y_o2 f_o2 x t = elim (Bool-cases (divides_by_zero np b f_o2 x t)) [
      | inl y ↦ rw y refl
      | inr n ↦ rw n tt
    ]

    checked_rk4-Ends :
        (grads : F → F → Result (F × F))
        → ((x t : F) → Ends (λ g. Unit {0}) (grads x t))
        → (dl x t : F) → Ends (λ g. Unit {0}) (checked_rk4 np b grads dl x t)
    unfolding Ends
    checked_rk4-Ends grads h dl x t =
        bind-Ends (λ g. Unit {0}) (λ g. Unit {0}) (grads x t) _ (h x t)
          (λ (x1, t1) u1.
            bind-Ends (λ g. Unit {0}) (λ g. Unit {0}) (grads _ _) _ (h _ _)
              (λ (x2, t2) u2.
                bind-Ends (λ g. Unit {0}) (λ g. Unit {0}) (grads _ _) _ (h _ _)
                  (λ (x3, t3) u3.
                    bind-Ends (λ g. Unit {0}) (λ g. Unit {0}) (grads _ _) _ (h _ _)
                      (λ (x4, t4) u4. tt))))

    record_step-IsLocal :
        (z : Zone F) (w : Walk F) (k : ℕ) (s : Local F) (next : F × F)
        → IsFraction w.x_global
        → IsLocal (suc k) s
        → Ends (λ s'. IsLocal k s') (record_step np b n capacity z w s next)
    unfolding Ends AreFractions IsFraction
    record_step-IsLocal z w k s (x_next, t_next) total g =
        let dl = z.l_zone ⊘ lit n 0 in
        let x = min (lit 1 0) (max (lit 0 0) x_next) in
        let unit : IsFraction x =
          clamp_num' laws (lit 0 0) (lit 1 0) x_next (lit_le 0 0 1 0 (omega arith)) in
        let p : BedPoint F = record {
          length_m = w.offset ⊕ (s.l_local ⊕ dl);
          temperature = t_next;
          conversion = joined w.x_global x;
        } in
        rw (record_point-ok capacity s.history p (omega (arith, g.room))) (record {
          room = omega (arith, g.room, length-record s.history p);
          started = omega (arith, g.started, length-record s.history p);
          fractions =
              All-append (λ q. IsFraction q.conversion) s.history (p ∷ []) g.fractions
                (joined-IsFraction np laws rounded signed w.x_global x total unit, tt);
          converted = unit;
          peak = higher s.t_max t_next g.peak;
        })

    zone_step-IsLocal :
        (z : Zone F) (w : Walk F) (f_o2 : F) (k : ℕ) (s : Local F)
        → IsFraction w.x_global
        → IsLocal (suc k) s
        → Ends (λ s'. IsLocal k s') (zone_step np b n capacity z w f_o2 s)
    zone_step-IsLocal z w f_o2 k s total g =
        let dl = z.l_zone ⊘ lit n 0 in
        let grads = checked_grads np b z.k0 z.u_a w.y_o2_curr f_o2 in
        bind-Ends (λ u. Unit {0}) (λ s'. IsLocal k s')
          (checked_rk4 np b grads dl s.x_local s.t_local) _
          (checked_rk4-Ends grads (checked_grads-Ends z.k0 z.u_a w.y_o2_curr f_o2) dl s.x_local
            s.t_local)
          (λ next u. record_step-IsLocal z w k s next total g)

    zone_loop-IsLocal :
        (z : Zone F) (w : Walk F) (f_o2 : F) (k j : ℕ) (s : Local F)
        → IsFraction w.x_global
        → IsLocal (j + k) s
        → Ends (λ s'. IsLocal k s') (zone_loop np b n capacity z w f_o2 j s)
    unfolding zone_loop Ends
    zone_loop-IsLocal z w f_o2 k zero s total g =
        let e : 0 + k ≡ k = omega arith in subst (λ i. IsLocal i s) e g
    zone_loop-IsLocal z w f_o2 k (suc j) s total g =
        let sum : suc j + k ≡ suc (j + k) = omega arith in
        bind-Ends (λ s'. IsLocal (j + k) s') (λ s'. IsLocal k s')
          (zone_step np b n capacity z w f_o2 s) _
          (zone_step-IsLocal z w f_o2 (j + k) s total (subst (λ i. IsLocal i s) sum g))
          (λ s' g'. zone_loop-IsLocal z w f_o2 k j s' total g')

    inert_zone-IsWalk :
        (z : Zone F) (k : ℕ) (w : Walk F)
        → IsWalk (n + 1 + k) w
        → Ends (λ w'. IsWalk k w') (inert_zone np b n capacity z w)
    unfolding inert_zone Ends AreFractions
    inert_zone-IsWalk z k w g =
        let p : BedPoint F = record {
          length_m = w.offset ⊕ z.l_zone;
          temperature = relaxed np b n capacity z w.t_curr;
          conversion = w.x_global;
        } in
        rw (record_point-ok capacity w.profile p (omega (arith, g.room))) (record {
          room = omega (arith, g.room, length-record w.profile p);
          started = omega (arith, g.started, length-record w.profile p);
          fractions =
              All-append (λ q. IsFraction q.conversion) w.profile (p ∷ []) g.fractions
                (g.total, tt);
          total = g.total;
          peak = g.peak;
        })

    reacting_zone-IsWalk :
        (z : Zone F) (k : ℕ) (w : Walk F) (f_o2 : F)
        → IsWalk (n + 1 + k) w
        → Ends (λ w'. IsWalk k w') (reacting_zone np b n capacity z w f_o2)
    unfolding reacting_zone Ends
    reacting_zone-IsWalk z k w f_o2 g = elim (Bool-cases (n == 0)) [
      | inl y ↦ rw y refl
      | inr some_step ↦ rw some_step (
          bind-Ends (λ s. IsLocal k s) (λ w'. IsWalk k w')
            (zone_loop np b n capacity z w f_o2 n (record {
              x_local = lit 0 0;
              t_local = w.t_curr;
              l_local = lit 0 0;
              t_max = w.t_max_global;
              history = w.profile;
            }))
            _
            (zone_loop-IsLocal z w f_o2 k n _ g.total (record {
              room = omega (arith, g.room);
              started = g.started;
              fractions = g.fractions;
              converted = zero-IsFraction np laws rounded signed;
              peak = g.peak;
            }))
            (λ s g'. record {
              room = g'.room;
              started = g'.started;
              fractions = g'.fractions;
              total =
                  joined-IsFraction np laws rounded signed w.x_global s.x_local g.total
                    g'.converted;
              peak = g'.peak;
            }))
    ]

    walk_zone-IsWalk :
        (z : Zone F) (k : ℕ) (w : Walk F)
        → IsWalk (n + 1 + k) w
        → Ends (λ w'. IsWalk k w') (walk_zone np b n capacity z w)
    unfolding walk_zone Ends
    walk_zone-IsWalk z k w g = elim (Bool-cases (le z.l_zone (lit 1 6))) [
      | inl short ↦ rw short (record {
        room = omega (arith, g.room);
        started = g.started;
        fractions = g.fractions;
        total = g.total;
        peak = g.peak;
      })
      | inr long ↦ elim (Bool-cases (le (b.molar_flow_total ⊗ w.y_o2_curr) (lit 1 12))) [
        | inl inert ↦ rw (long, inert) (inert_zone-IsWalk z k w g)
        | inr rich ↦ rw (long, rich) (reacting_zone-IsWalk z k w _ g)
      ]
    ]

    walk_zones-IsWalk :
        (zs : List (Zone F)) (w : Walk F)
        → IsWalk (length zs * (n + 1)) w
        → Ends (λ w'. IsWalk 0 w') (walk_zones np b n capacity zs w)
    unfolding walk_zones Ends
    walk_zones-IsWalk [] w g = subst (λ i. IsWalk i w) empty g
      where
        empty : 0 * (n + 1) ≡ 0
        empty = omega arith
    walk_zones-IsWalk (z ∷ zs) w g =
        let next : suc (length zs) * (n + 1) ≡ n + 1 + length zs * (n + 1) = grind arith in
        bind-Ends (λ w'. IsWalk (length zs * (n + 1)) w') (λ w'. IsWalk 0 w')
          (walk_zone np b n capacity z w) _
          (walk_zone-IsWalk z (length zs * (n + 1)) w (subst (λ i. IsWalk i w) next g))
          (λ w' g'. walk_zones-IsWalk zs w' g')

  -- For any zones and inputs, NaN too, the solver never writes outside its arrays: it returns, or raises
  -- the ZeroDivisionError of a zone in no steps or of a zero divisor in the gradients. What it returns is
  -- a profile of at least one entry and at most `num_zones * (max_steps + 1) + 1`, every conversion in
  -- it that is a number lies between 0 and 1, so does the total, and the peak is not below the inlet's
  -- temperature, if that is a number.
  pub solve_deoxo_multizone_jit_lem :
      (b : Reactor F) (zones : List (Zone F)) (t_in y_o2_in : F) (n : ℕ)
      → Ends
          (λ run.
            (1 ≤ length run.profile)
            × (length run.profile ≤ length zones * (n + 1) + 1)
            × AreFractions run.profile
            × IsFraction run.x_total
            × (IsNum t_in → Le t_in run.t_peak))
          (solve_deoxo_multizone_jit np b zones t_in y_o2_in n)
  unfolding solve_deoxo_multizone_jit AreFractions Ends
  solve_deoxo_multizone_jit_lem b zones t_in y_o2_in n =
      bind-Ends (λ w. IsWalk b n (length zones * (n + 1) + 1) t_in 0 w)
        (λ run.
          (1 ≤ length run.profile)
          × (length run.profile ≤ length zones * (n + 1) + 1)
          × AreFractions run.profile
          × IsFraction run.x_total
          × (IsNum t_in → Le t_in run.t_peak))
        (walk_zones np b n (length zones * (n + 1) + 1) zones _) _
        (walk_zones-IsWalk b n (length zones * (n + 1) + 1) t_in zones
          (record {
            offset = lit 0 0;
            t_curr = t_in;
            y_o2_curr = y_o2_in;
            t_max_global = t_in;
            x_global = lit 0 0;
            profile = record { length_m = lit 0 0; temperature = t_in; conversion = lit 0 0 } ∷ [];
          })
          (record {
            room = omega arith;
            started = omega arith;
            fractions = (zero-IsFraction np laws rounded signed, tt);
            total = zero-IsFraction np laws rounded signed;
            peak = λ num. num;
          }))
        (λ w g. (g.started, omega (arith, g.room), g.fractions, g.total, g.peak))
