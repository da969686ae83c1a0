-- ===== src/Float/Fixed/Laws/Search.antt =====
-- The stand-ins for `clip` and `searchsorted`.
use mathlib.Core.Option.{some-injective}
use matrix_factory.Prelude.{
  ℕ, zero, suc, ◌≤◌, ◌<◌, ◌≡◌, refl, inl, inr, false, List, [], ◌∷◌, none, some, ap, arith, All,
  Pairwise, get_elem?, All-get, length, Bool-cases,
}
use matrix_factory.Float.Fixed.Laws.Order.{le_trans_fixed, lt_of_not_le}
use matrix_factory.Float.Ops.{IsNum, Le, Lt}
use matrix_factory.Float.Laws.{IsNumpy}
use matrix_factory.Float.Fixed.{Fixed, fixed_float, fixed_numpy, clip_fixed, search_fixed}

search_fixed-lt :
    (xs : List Fixed) (v : Fixed) (i : ℕ) (x : Fixed)
    → All (λ a. IsNum a) xs
    → IsNum v
    → i < search_fixed xs v
    → get_elem? xs i ≡ some x
    → Lt x v
unfolding search_fixed
search_fixed-lt [] v i x n vn h e = elim h [ ]
search_fixed-lt (y ∷ ys) v zero x (yn, n) vn h e = elim (Bool-cases (fixed_float.le v y)) [
  | inl t ↦ absurd (ground arith)
  | inr t ↦ rw (← some-injective _ _ e) (lt_of_not_le v y vn yn t)
]
search_fixed-lt (y ∷ ys) v (suc i) x (yn, n) vn h e = elim (Bool-cases (fixed_float.le v y)) [
  | inl t ↦ absurd (ground arith)
  | inr t ↦ search_fixed-lt ys v i x n vn (ground arith) e
]

search_fixed-le :
    (xs : List Fixed) (v : Fixed) (i : ℕ) (x : Fixed)
    → Pairwise (λ a b. Le a b) xs
    → All (λ a. IsNum a) xs
    → search_fixed xs v ≤ i
    → get_elem? xs i ≡ some x
    → Le v x
unfolding search_fixed
search_fixed-le [] v i x s n h e = cc
search_fixed-le (y ∷ ys) v zero x s n h e = elim (Bool-cases (fixed_float.le v y)) [
  | inl t ↦ rw (← some-injective _ _ e) t
  | inr t ↦ absurd (ground arith)
]
search_fixed-le (y ∷ ys) v (suc i) x (s, r) (yn, n) h e = elim (Bool-cases (fixed_float.le v y)) [
  | inl t ↦ le_trans_fixed v y x t (All-get (λ b. Le y b) ys i s e)
  | inr t ↦ search_fixed-le ys v i x r n (ground arith) e
]

search_fixed-le-length : (xs : List Fixed) (v : Fixed) → search_fixed xs v ≤ length xs
unfolding search_fixed
search_fixed-le-length [] v = omega arith
search_fixed-le-length (x ∷ xs) v = ground (arith, search_fixed-le-length xs v)

search_fixed-nan :
    (xs : List Fixed) (v : Fixed) → fixed_float.le v v ≡ false → search_fixed xs v ≡ length xs
unfolding search_fixed
search_fixed-nan [] v h = refl
search_fixed-nan (x ∷ xs) (some v) h = absurd (ground arith)
search_fixed-nan (x ∷ xs) none h = ap suc (search_fixed-nan xs none h)

clip_fixed_lem :
    (x lo hi : Fixed) → IsNum x → Le lo hi → Le lo (clip_fixed x lo hi) × Le (clip_fixed x lo hi) hi
unfolding clip_fixed
clip_fixed_lem (some x) (some lo) (some hi) n h = ground arith
clip_fixed_lem (some x) (some lo) none n h = cc
clip_fixed_lem (some x) none hi n h = cc
clip_fixed_lem none lo hi n h = cc

clip_fixed-eq : (x lo hi : Fixed) → Le lo x → Le x hi → clip_fixed x lo hi ≡ x
unfolding clip_fixed
clip_fixed-eq (some x) (some lo) (some hi) n h = ground arith
clip_fixed-eq (some x) (some lo) none n h = cc
clip_fixed-eq (some x) none hi n h = cc
clip_fixed-eq none (some lo) hi n h = cc
clip_fixed-eq none none hi n h = cc

pub Fixed-IsNumpy : IsNumpy Fixed fixed_numpy
Fixed-IsNumpy = record {
  clip_lem = clip_fixed_lem;
  clip-eq = clip_fixed-eq;
  searchsorted-lt = λ xs v i x _ n vn h e. search_fixed-lt xs v i x n vn h e;
  searchsorted-le = λ xs v i x s n _ h e. search_fixed-le xs v i x s n h e;
  searchsorted-le-length = search_fixed-le-length;
  searchsorted-nan = λ xs v h _. search_fixed-nan xs v h;
}
