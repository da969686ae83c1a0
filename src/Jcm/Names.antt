-- ===== src/Jcm/Names.antt =====
-- The names of the runs: a canonical token with a run's number. They are no canonical tokens, and two
-- of them are the same only for the same token and run.
use matrix_factory.Prelude.{
  ℕ, zero, suc, ◌+◌, ◌-◌, ◌*◌, ◌/◌, ◌%◌, ◌<◌, ◌≡◌, ◌≢◌, refl, ap, sym, ◌∙◌, inl, inr, Bool, true,
  false, not, ◌&&◌, ◌||◌, List, [], ◌∷◌, ◌++◌, ltb, ltb→lt, ltb-eq-false, ◌==◌, All, All-append,
  Bool-cases, arith,
}
use matrix_factory.Jcm.{Word, same_word, canonical_tokens, digits, decimal, renamed}

pub same_word-eq : (a b : Word) → same_word a b ≡ true → a ≡ b
same_word-eq [] [] h = refl
same_word-eq [] (y ∷ b) h = cc
same_word-eq (x ∷ a) [] h = cc
same_word-eq (x ∷ a) (y ∷ b) h = elim (Bool-cases (x == y)) [
  | inl e ↦ let heads : x ≡ y = ground arith in let tails = same_word-eq a b (rw e at h) in cc
  | inr n ↦ cc (rw n at h)
]

pub same_word_self : (a : Word) → same_word a a ≡ true
same_word_self [] = refl
same_word_self (x ∷ a) = let e : (x == x) ≡ true = ground arith in rw e (same_word_self a)

-- The value of a decimal, read from the left.
value : ℕ → Word → ℕ
value acc [] = acc
value acc (c ∷ cs) = value (acc * 10 + (c - 48)) cs

value-append :
    (acc : ℕ) (cs : Word) (c : ℕ) → value acc (cs ++ (c ∷ [])) ≡ value acc cs * 10 + (c - 48)
unfolding value
value-append acc [] c = refl
value-append acc (d ∷ cs) c = value-append (acc * 10 + (d - 48)) cs c

value-digits : (f n : ℕ) → n < f → value 0 (digits f n) ≡ n
unfolding value digits
value-digits zero n h = absurd (omega arith)
value-digits (suc f) n h = elim (Bool-cases (ltb n 10)) [
  | inl small ↦ rw small (omega arith)
  | inr large ↦
      let ten = ltb-eq-false n 10 large in
      rw large (
        omega (
          arith,
          value-append 0 (digits f (n / 10)) (48 + n % 10),
          value-digits f (n / 10) (omega arith),
        ))
]

pub decimal_injective : (n m : ℕ) → decimal n ≡ decimal m → n ≡ m
unfolding decimal
decimal_injective n m e =
    sym (value-digits (n + 1) n (omega arith))
    ∙ ap (λ w. value 0 w) e
    ∙ value-digits (m + 1) m (omega arith)

digits-ne-underscore : (f n : ℕ) → All (λ c. c ≢ b'_') (digits f n)
unfolding digits
digits-ne-underscore zero n = tt
digits-ne-underscore (suc f) n = elim (Bool-cases (ltb n 10)) [
  | inl small ↦ let lt = ltb→lt n 10 small in rw small ((λ e. omega arith), tt)
  | inr large ↦ rw large (
      All-append (λ c. c ≢ b'_') (digits f (n / 10)) ((48 + n % 10) ∷ [])
        (digits-ne-underscore f (n / 10)) ((λ e. omega arith), tt))
]

no_underscore : (b ds es : Word) → All (λ c. c ≢ b'_') ds → ds ≢ b ++ (b'_' ∷ es)
no_underscore [] [] es f e = cc
no_underscore [] (d ∷ ds) es (h, f) e = h (cc)
no_underscore (y ∷ b) [] es f e = cc
no_underscore (y ∷ b) (d ∷ ds) es (h, f) e = no_underscore b ds es f (cc)

-- What follows the last underscore determines what stands before it.
split_last :
    (a b ds es : Word)
    → All (λ c. c ≢ b'_') ds
    → All (λ c. c ≢ b'_') es
    → a ++ (b'_' ∷ ds) ≡ b ++ (b'_' ∷ es)
    → (a ≡ b) × (ds ≡ es)
split_last [] [] ds es f g e = (refl, cc)
split_last [] (y ∷ b) ds es f g e = absurd (no_underscore b ds es f (cc))
split_last (x ∷ a) [] ds es f g e = absurd (no_underscore a es ds g (cc))
split_last (x ∷ a) (y ∷ b) ds es f g e = let (p, q) = split_last a b ds es f g (cc) in (cc, q)

-- Two names of runs are the same only for the same token and run.
pub renamed_injective :
    (token token' : Word) (i j : ℕ)
    → renamed token i ≡ renamed token' j
    → (token ≡ token') × (i ≡ j)
unfolding renamed decimal
renamed_injective token token' i j e =
    let (p, q) =
      split_last token token' (decimal i) (decimal j) (digits-ne-underscore (i + 1) i)
        (digits-ne-underscore (j + 1) j) e in
    (p, decimal_injective i j q)

abbrev pub starts : Word → Word → Bool
starts [] u = true
starts (x ∷ t) [] = false
starts (x ∷ t) (y ∷ u) = x == y && starts t u

-- A word that a token and an underscore do not start is no name of that token.
same_word-starts :
    (t ds u : Word) → starts (t ++ (b'_' ∷ [])) u ≡ false → same_word (t ++ (b'_' ∷ ds)) u ≡ false
same_word-starts [] ds [] h = refl
same_word-starts [] ds (y ∷ u) h = elim (Bool-cases (b'_' == y)) [
  | inl e ↦ cc (rw e at h)
  | inr n ↦ rw n refl
]
same_word-starts (x ∷ t) ds [] h = refl
same_word-starts (x ∷ t) ds (y ∷ u) h = elim (Bool-cases (x == y)) [
  | inl e ↦ rw e (same_word-starts t ds u (rw e at h))
  | inr n ↦ rw n refl
]

abbrev pub is_token : List Word → Word → Bool
is_token [] w = false
is_token (t ∷ ts) w = same_word w t || is_token ts w

abbrev none_starts : Word → List Word → Bool
none_starts t [] = true
none_starts t (u ∷ us) = not (starts (t ++ (b'_' ∷ [])) u) && none_starts t us

abbrev all_apart : List Word → List Word → Bool
all_apart [] us = true
all_apart (t ∷ ts) us = none_starts t us && all_apart ts us

none_starts-apart :
    (t : Word) (us : List Word) (u : Word)
    → none_starts t us ≡ true
    → is_token us u ≡ true
    → starts (t ++ (b'_' ∷ [])) u ≡ false
none_starts-apart t [] u h k = cc
none_starts-apart t (v ∷ us) u h k = elim (Bool-cases (starts (t ++ (b'_' ∷ [])) v)) [
  | inl y ↦ cc (rw y at h)
  | inr n ↦ elim (Bool-cases (same_word u v)) [
    | inl e ↦ rw (same_word-eq u v e) n
    | inr d ↦ none_starts-apart t us u (rw n at h) (rw d at k)
  ]
]

all_apart-apart :
    (ts us : List Word) (t u : Word)
    → all_apart ts us ≡ true
    → is_token ts t ≡ true
    → is_token us u ≡ true
    → starts (t ++ (b'_' ∷ [])) u ≡ false
all_apart-apart [] us t u h k l = cc
all_apart-apart (v ∷ ts) us t u h k l = elim (Bool-cases (none_starts v us)) [
  | inr n ↦ cc (rw n at h)
  | inl y ↦ elim (Bool-cases (same_word t v)) [
    | inl e ↦ rw (same_word-eq t v e) (none_starts-apart v us u y l)
    | inr d ↦ all_apart-apart ts us t u (rw y at h) (rw d at k) l
  ]
]

canonical_tokens-apart : all_apart canonical_tokens canonical_tokens ≡ true
unfolding canonical_tokens
canonical_tokens-apart = refl

-- The name of a run is no canonical token.
pub renamed-fresh :
    (run_id : ℕ) (t u : Word)
    → is_token canonical_tokens t ≡ true
    → is_token canonical_tokens u ≡ true
    → same_word (renamed t run_id) u ≡ false
unfolding renamed
renamed-fresh run_id t u k l =
    same_word-starts t (decimal run_id) u
      (all_apart-apart canonical_tokens canonical_tokens t u canonical_tokens-apart k l)
