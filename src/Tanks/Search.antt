-- ===== src/Tanks/Search.antt =====
-- The two tank searches against what they promise.
use matrix_factory.Prelude.{
  ℕ, suc, ◌+◌, ◌≡◌, refl, ap, ◌∙◌, ◌⊎◌, inl, inr, Bool, true, false, ◌&&◌, Option, none, some, List,
  [], ◌∷◌, arith, get_elem?, All, Bool-cases,
}
use matrix_factory.Float.{Float, IsNum, Le, Lt, IsOrdered, IsNum-lit, lt_of_lt_lt}
use matrix_factory.Tanks.{
  Tank, suits, find_available_from, find_available_tank, is_source, find_fullest_from,
  find_fullest_tank,
}

module _ {F : Type 0} ⦃fl : Float F⦄ where
  open fl use {lit, lt}

  -- What a search from index `i` over `ts` returned: the first fit, or that there is none.
  abbrev pub IsFirst : (Tank F → Bool) → List (Tank F) → ℕ → Option ℕ → Type 0
  IsFirst p ts i none = All (λ t. p t ≡ false) ts
  IsFirst p [] i (some j) = ⊥
  IsFirst p (t ∷ ts) i (some j) =
      ((p t ≡ true) × (j ≡ i)) ⊎ ((p t ≡ false) × IsFirst p ts (suc i) (some j))

  find_available_from_lem :
      (ts : List (Tank F)) (c : F) (i : ℕ) → IsFirst (suits c) ts i (find_available_from ts c i)
  unfolding find_available_from
  find_available_from_lem [] c i = tt
  find_available_from_lem (t ∷ ts) c i = elim (Bool-cases (suits c t)) [
    | inl y ↦ rw y (inl (y, refl))
    | inr n ↦
        rw n (cons (find_available_from ts c (suc i)) (find_available_from_lem ts c (suc i)) n)
  ]
    where
      cons :
          (o : Option ℕ)
          → IsFirst (suits c) ts (suc i) o
          → suits c t ≡ false
          → IsFirst (suits c) (t ∷ ts) i o
      cons none h n = (n, h)
      cons (some j) h n = inr (n, h)

  -- `find_available_tank` returns the index of the first idle or empty tank with the ullage asked
  -- for, and -1 only if no tank has it.
  pub find_available_tank-IsFirst :
      (ts : List (Tank F)) (min_capacity : F)
      → IsFirst (suits min_capacity) ts 0 (find_available_tank ts min_capacity)
  unfolding find_available_tank
  find_available_tank-IsFirst ts c = find_available_from_lem ts c 0

  module _ (laws : IsOrdered F) where
    open laws use {le_trans, le_of_lt, le_of_not_lt, num_neg}

    -- No source among `ts` is fuller than `top`.
    abbrev pub NoneFuller : F → F → List (Tank F) → Type 0
    NoneFuller m top = All (λ t. is_source m t ≡ true → Le t.mass top)

    abbrev pub HasMass : Tank F → Type 0
    HasMass t = IsNum t.mass

    -- What the loop has done over `ts`, whose indices begin at `i`: kept its best, or found a source
    -- that is fuller than `top` and than which none is fuller.
    abbrev Outcome : F → F → Option ℕ → ℕ → List (Tank F) → Option ℕ → Type 0
    Outcome m top best i ts r =
        ((r ≡ best) × NoneFuller m top ts)
        ⊎ ((k : ℕ) × (t : Tank F) × (r ≡ some (i + k))
            × (get_elem? ts k ≡ some t)
            × (is_source m t ≡ true)
            × Lt top t.mass
            × NoneFuller m t.mass ts)

    NoneFuller-mono :
        (m a b : F) (ts : List (Tank F)) → Le a b → NoneFuller m a ts → NoneFuller m b ts
    NoneFuller-mono m a b [] h n = tt
    NoneFuller-mono m a b (t ∷ ts) h (k, n) =
        (λ s. le_trans _ a b (k s) h, NoneFuller-mono m a b ts h n)

    find_fullest_from_lem :
        (ts : List (Tank F)) (m : F) (i : ℕ) (top : F) (best : Option ℕ)
        → IsNum top
        → All HasMass ts
        → Outcome m top best i ts (find_fullest_from ts m i top best)
    unfolding find_fullest_from
    find_fullest_from_lem [] m i top best n a = inl (refl, tt)
    find_fullest_from_lem (t ∷ ts) m i top best n (tn, a) =
        elim (Bool-cases (is_source m t && lt top t.mass)) [
          | inl y ↦ rw y (
              better (find_fullest_from_lem ts m (suc i) t.mass (some i) tn a)
                (both (is_source m t) (lt top t.mass) y))
          | inr no_gain ↦
              rw no_gain (kept (find_fullest_from_lem ts m (suc i) top best n a) no_gain)
        ]
      where
        both : (a b : Bool) → (a && b) ≡ true → (a ≡ true) × (b ≡ true)
        both a b h = ground arith

        index : (k : ℕ) → some (suc i + k) ≡ some (i + suc k)
        index k = ap some (omega arith)

        better :
            {r : Option ℕ}
            → Outcome m t.mass (some i) (suc i) ts r
            → (is_source m t ≡ true) × (lt top t.mass ≡ true)
            → Outcome m top best i (t ∷ ts) r
        better (inl (e, fuller)) (s, l) =
            inr (0, t, e ∙ ap some (omega arith), refl, s, l, ((λ _. tn), fuller))
        better (inr (k, u, e, at, su, lu, fuller)) (s, l) = inr (
          suc k,
          u,
          e ∙ index k,
          at,
          su,
          lt_of_lt_lt laws top t.mass u.mass l lu,
          ((λ _. le_of_lt _ _ lu), fuller),
        )

        kept :
            {r : Option ℕ}
            → Outcome m top best (suc i) ts r
            → (is_source m t && lt top t.mass) ≡ false
            → Outcome m top best i (t ∷ ts) r
        kept (inl (e, fuller)) no_gain =
            inl (e, ((λ s. le_of_not_lt top t.mass n tn (ground arith)), fuller))
        kept (inr (k, u, e, at, su, lu, fuller)) no_gain = inr (
          suc k,
          u,
          e ∙ index k,
          at,
          su,
          lu,
          (
            (λ s. le_trans _ _ _ (le_of_not_lt top t.mass n tn (ground arith)) (le_of_lt _ _ lu)),
            fuller,
          ),
        )

    -- What `find_fullest_tank` may return: a source than which no source is fuller, or, if no source
    -- holds more than -1 kg, nothing.
    abbrev pub IsFullest : F → List (Tank F) → Option ℕ → Type 0
    IsFullest m ts none = NoneFuller m (fl.neg (lit 1 0)) ts
    IsFullest m ts (some k) =
        (t : Tank F) × (get_elem? ts k ≡ some t) × (is_source m t ≡ true) × NoneFuller m t.mass ts

    -- If every mass is a number, `find_fullest_tank` returns the index of an idle or full tank with
    -- at least `min_mass` than which no such tank holds more; and -1 only if no such tank holds more
    -- than -1 kg.
    pub find_fullest_tank-IsFullest :
        (ts : List (Tank F)) (min_mass : F)
        → All HasMass ts
        → IsFullest min_mass ts (find_fullest_tank ts min_mass)
    unfolding find_fullest_tank
    find_fullest_tank-IsFullest ts m a =
        finish
          (find_fullest_from_lem ts m 0 (fl.neg (lit 1 0)) none (num_neg _ (IsNum-lit laws 1 0)) a)
      where
        finish : {r : Option ℕ} → Outcome m (fl.neg (lit 1 0)) none 0 ts r → IsFullest m ts r
        finish {r} (inl (e, fuller)) = rw e fuller
        finish {r} (inr (k, t, e, at, s, _, fuller)) =
            let here : r ≡ some k = e ∙ ap some (omega arith) in rw here (t, at, s, fuller)
