-- ===== src/Tanks/Balance.antt =====
-- Mass over `distribute_mass_to_tanks` and its callers, in exact arithmetic.
use matrix_factory.Prelude.{
  ◌≡◌, refl, ap, sym, ◌∙◌, inl, inr, ◌⊎◌, ◌≢◌, true, false, List, [], ◌∷◌, arith, All, Bool-cases,
}
use matrix_factory.Float.{
  Float, ◌⊕◌, ◌⊖◌, ◌⊗◌, IsNum, Le, IsOrdered, IsExact, move, sub_self, IsNum-lit,
}
use matrix_factory.Tanks.{
  Tank, accepts_mass, mark_full, fill_one, distribute_mass_to_tanks, simulate_filling_timestep,
}

module _ {F : Type 0} ⦃fl : Float F⦄ where
  open fl use {lit, le, lt, min}

  abbrev pub total_mass : List (Tank F) → F
  total_mass [] = lit 0 0
  total_mass (t ∷ ts) = t.mass ⊕ total_mass ts

  -- A tank whose mass and capacity are numbers.
  abbrev pub IsMeasured : Tank F → Type 0
  IsMeasured t = IsNum t.mass × IsNum t.capacity

  -- A tank that holds no more than its capacity.
  abbrev pub IsWithin : Tank F → Type 0
  IsWithin t = Le t.mass t.capacity

  pub mark_full-mass : (t : Tank F) → (mark_full t).mass ≡ t.mass
  mark_full-mass t = ground arith

  mark_full-capacity : (t : Tank F) → (mark_full t).capacity ≡ t.capacity
  mark_full-capacity t = ground arith

  -- A run of the loop, turn by turn.
  data Fills : F → List (Tank F) → List (Tank F) → F → Type 0 where
    nil : (r : F) → Fills r [] [] r
    done : (r : F) (ts : List (Tank F)) → le r (lit 0 0) ≡ true → Fills r ts ts r
    skip :
        (r : F) (t : Tank F) (ts : List (Tank F)) {ts' : List (Tank F)} {left : F}
        → le r (lit 0 0) ≡ false
        → accepts_mass t.state ≡ false
        → Fills r ts ts' left
        → Fills r (t ∷ ts) (t ∷ ts') left
    accept :
        (r : F) (t : Tank F) (ts : List (Tank F)) {ts' : List (Tank F)} {left : F}
        → le r (lit 0 0) ≡ false
        → accepts_mass t.state ≡ true
        → Fills (fill_one r t).1 ts ts' left
        → Fills r (t ∷ ts) ((fill_one r t).0 ∷ ts') left

  distribute-Fills :
      (r : F) (ts : List (Tank F))
      → Fills r ts (distribute_mass_to_tanks r ts).0 (distribute_mass_to_tanks r ts).1
  unfolding distribute_mass_to_tanks
  distribute-Fills r [] = nil r
  distribute-Fills r (t ∷ ts) = elim (Bool-cases (le r (lit 0 0))) [
    | inl e ↦ rw e (done r (t ∷ ts) e)
    | inr more ↦ rw more (elim (Bool-cases (accepts_mass t.state)) [
      | inl e ↦ simp e (accept r t ts more e (distribute-Fills (fill_one r t).1 ts))
      | inr e ↦ simp e (skip r t ts more e (distribute-Fills r ts))
    ])
  ]

  module _ (laws : IsOrdered F) (exact : IsExact F) where
    open laws use {le_num, le_trans, min_lem, le_of_not_lt}
    open exact use {
      add_assoc, add_comm, num_sub, num_add, le-sub_iff, sub-add, add-sub, le_antisymm,
    }

    -- What one tank may take of `r` is a number.
    pub IsNum-share :
        (r : F) (t : Tank F) → IsNum r → IsMeasured t → IsNum (min r (t.capacity ⊖ t.mass))
    IsNum-share r t n (m, c) =
        (le_num _ _ (min_lem r (t.capacity ⊖ t.mass) n (num_sub _ _ c m)).0).0

    fill_one-total :
        (r : F) (t : Tank F)
        → IsNum r
        → IsMeasured t
        → (fill_one r t).0.mass ⊕ (fill_one r t).1 ≡ t.mass ⊕ r
    fill_one-total r t n m =
        let share = min r (t.capacity ⊖ t.mass) in
        rw (mark_full-mass (record t { mass = t.mass ⊕ share }))
          (move exact t.mass share r (IsNum-share r t n m))

    -- What is taken in and what is left over add up to what there was.
    Fills-total :
        {r left : F} {ts ts' : List (Tank F)}
        → Fills r ts ts' left
        → IsNum r
        → All IsMeasured ts
        → total_mass ts' ⊕ left ≡ total_mass ts ⊕ r
    Fills-total (nil r) n a = refl
    Fills-total (done r ts e) n a = refl
    Fills-total (skip r t ts more shut f) n (m, a) =
        add_assoc _ _ _ ∙ ap (λ b. t.mass ⊕ b) (Fills-total f n a) ∙ sym (add_assoc _ _ _)
    Fills-total (accept r t ts {ts' = ts'} {left = left} more open_tank f) n (m, a) =
        let t' = (fill_one r t).0 in
        let r' = (fill_one r t).1 in
        let ih = Fills-total f (num_sub _ _ n (IsNum-share r t n m)) a in
        add_assoc t'.mass (total_mass ts') left
        ∙ ap (λ b. t'.mass ⊕ b) (ih ∙ add_comm (total_mass ts) r')
        ∙ sym (add_assoc t'.mass r' (total_mass ts))
        ∙ ap (λ b. b ⊕ total_mass ts) (fill_one-total r t n m)
        ∙ add_assoc t.mass r (total_mass ts)
        ∙ ap (λ b. t.mass ⊕ b) (add_comm r (total_mass ts))
        ∙ sym (add_assoc t.mass (total_mass ts) r)

    -- A tank that held no more than its capacity holds no more after its turn.
    fill_one-IsWithin : (r : F) (t : Tank F) → IsNum r → IsMeasured t → IsWithin (fill_one r t).0
    fill_one-IsWithin r t n (m, c) =
        let share = min r (t.capacity ⊖ t.mass) in
        let (_, fits, _) = min_lem r (t.capacity ⊖ t.mass) n (num_sub _ _ c m) in
        let within : Le (t.mass ⊕ share) t.capacity =
          rw (add_comm t.mass share) ((le-sub_iff share t.capacity t.mass m).0 fits) in
        let t' = record t { mass = t.mass ⊕ share } in
        rw (mark_full-mass t', mark_full-capacity t') within

    Fills-IsWithin :
        {r left : F} {ts ts' : List (Tank F)}
        → Fills r ts ts' left
        → IsNum r
        → All IsMeasured ts
        → All IsWithin ts
        → All IsWithin ts'
    Fills-IsWithin (nil r) n a w = tt
    Fills-IsWithin (done r ts e) n a w = w
    Fills-IsWithin (skip r t ts more shut f) n (m, a) (w, ws) = (w, Fills-IsWithin f n a ws)
    Fills-IsWithin (accept r t ts more open_tank f) n (m, a) (w, ws) =
        (fill_one-IsWithin r t n m, Fills-IsWithin f (num_sub _ _ n (IsNum-share r t n m)) a ws)

    -- In exact arithmetic `distribute_mass_to_tanks` neither makes nor loses mass: the bank's total
    -- afterwards and the overflow add up to the bank's total before and the mass offered. And no tank
    -- that was within its capacity is filled beyond it. Masses, capacities and the mass offered are
    -- taken to be numbers.
    pub distribute_balance :
        (total : F) (ts : List (Tank F))
        → IsNum total
        → All IsMeasured ts
        → let (ts', overflow) = distribute_mass_to_tanks total ts in
          (total_mass ts' ⊕ overflow ≡ total_mass ts ⊕ total) × (All IsWithin ts → All IsWithin ts')
    distribute_balance total ts n a =
        let f = distribute-Fills total ts in (Fills-total f n a, Fills-IsWithin f n a)

    -- An accepting tank that is not full to its capacity.
    abbrev pub HasRoom : Tank F → Type 0
    HasRoom t = (accepts_mass t.state ≡ true) × (t.mass ≢ t.capacity)

    done-left :
        {r left : F} {ts ts' : List (Tank F)} → Fills r ts ts' left → Le r (lit 0 0) → left ≡ r
    done-left (nil r) h = refl
    done-left (done r ts e) h = refl
    done-left (skip r t ts more shut f) h = cc
    done-left (accept r t ts more open_tank f) h = cc

    fill_one-filled :
        (r : F) (t : Tank F)
        → IsNum r
        → IsMeasured t
        → ((fill_one r t).0.mass ≡ t.capacity) ⊎ Le (fill_one r t).1 (lit 0 0)
    fill_one-filled r t n (m, c) =
        let avail = t.capacity ⊖ t.mass in
        let (_, _, which) = min_lem r avail n (num_sub _ _ c m) in
        let t' = record t { mass = t.mass ⊕ min r avail } in
        elim which [
          | inl e ↦ inr (rw (e, sub_self exact r n) (IsNum-lit laws 0 0))
          | inr e ↦ inl (
              mark_full-mass t'
              ∙ ap (λ b. t.mass ⊕ b) e
              ∙ add_comm _ _
              ∙ sub-add t.capacity t.mass m)
        ]

    Fills-full :
        {r left : F} {ts ts' : List (Tank F)}
        → Fills r ts ts' left
        → IsNum r
        → All IsMeasured ts
        → le left (lit 0 0) ≡ false
        → All (λ t. ¬ HasRoom t) ts'
    Fills-full (nil r) n a h = tt
    Fills-full (done r ts e) n a h = cc
    Fills-full (skip r t ts more shut f) n (m, a) h = ((λ room. cc (room.0)), Fills-full f n a h)
    Fills-full (accept r t ts {left = left} more open_tank f) n (m, a) h = (
      (λ room. elim (fill_one-filled r t n m) [
        | inl e ↦ room.1 (e ∙ sym (mark_full-capacity _))
        | inr spent ↦ cc (done-left f spent)
      ]),
      Fills-full f (num_sub _ _ n (IsNum-share r t n m)) a h,
    )

    -- In exact arithmetic mass overflows only if no tank could take it: when the overflow is not <= 0,
    -- every tank that still accepts mass is filled to exactly its capacity.
    pub overflow_only_if_full :
        (total : F) (ts : List (Tank F))
        → IsNum total
        → All IsMeasured ts
        → le (distribute_mass_to_tanks total ts).1 (lit 0 0) ≡ false
        → All (λ t. ¬ HasRoom t) (distribute_mass_to_tanks total ts).0
    overflow_only_if_full total ts n a h = Fills-full (distribute-Fills total ts) n a h

    Fills-IsNum :
        {r left : F} {ts ts' : List (Tank F)}
        → Fills r ts ts' left
        → IsNum r
        → All IsMeasured ts
        → IsNum left
    Fills-IsNum (nil r) n a = n
    Fills-IsNum (done r ts e) n a = n
    Fills-IsNum (skip r t ts more shut f) n (m, a) = Fills-IsNum f n a
    Fills-IsNum (accept r t ts more open_tank f) n (m, a) =
        Fills-IsNum f (num_sub _ _ n (IsNum-share r t n m)) a

    -- In exact arithmetic a filling step stores what it says: the amount stored and the overflow add
    -- up to the production of the step, and the bank's total grows by the amount stored.
    pub filling_timestep_balance :
        (rate dt : F) (ts : List (Tank F))
        → IsNum (rate ⊗ dt)
        → All IsMeasured ts
        → let (stored, overflow, ts') = simulate_filling_timestep rate dt ts in
          (stored ⊕ overflow ≡ rate ⊗ dt) × (total_mass ts' ≡ total_mass ts ⊕ stored)
    unfolding simulate_filling_timestep
    filling_timestep_balance rate dt ts n a =
        let p = rate ⊗ dt in
        let (ts', left) = distribute_mass_to_tanks p ts in
        let f = distribute-Fills p ts in
        let ln : IsNum left = Fills-IsNum f n a in
        (
          sub-add p left ln,
          sym (add-sub (total_mass ts') left ln)
              ∙ ap (λ b. b ⊖ left) (Fills-total f n a)
              ∙ ap (λ b. (total_mass ts ⊕ b) ⊖ left) (sym (sub-add p left ln))
              ∙ ap (λ b. b ⊖ left) (sym (add_assoc (total_mass ts) (p ⊖ left) left))
              ∙ add-sub (total_mass ts ⊕ (p ⊖ left)) left ln,
        )
