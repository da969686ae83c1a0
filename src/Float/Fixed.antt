-- ===== src/Float/Fixed.antt =====
-- Decimal fixed point with twelve places, and NaN: a number type that meets the laws of `IsOrdered`
-- and `IsNumpy`. The witnesses run the models on it.
pub mod Laws
use matrix_factory.Prelude.{
  ℕ, zero, suc, ◌+◌, ◌*◌, ◌/◌, ◌^◌, Bool, true, false, ◌&&◌, List, [], ◌∷◌, Option, none, some,
  ◌==◌, if◌then◌else◌,
}
use matrix_factory.Prelude.Int.{ℤ, pos, negsuc, pos_part, neg_part, sub_ℕ, ◌+ℤ◌, ◌-ℤ◌, leb_ℤ, ltb_ℤ}
use matrix_factory.Float.Ops.{Float, Numpy}

abbrev pub unit : ℕ
unit = 1_000_000_000_000

abbrev pub magnitude : ℤ → ℕ
magnitude a = pos_part a + neg_part a

abbrev pub is_neg : ℤ → Bool
is_neg (pos n) = false
is_neg (negsuc n) = true

-- A magnitude with the sign of a product.
abbrev pub signed : ℤ → ℤ → ℕ → ℤ
signed (pos a) (pos b) n = pos n
signed (pos a) (negsuc b) n = sub_ℕ 0 n
signed (negsuc a) (pos b) n = sub_ℕ 0 n
signed (negsuc a) (negsuc b) n = pos n

abbrev pub mul_fixed : ℤ → ℤ → ℤ
mul_fixed a b = signed a b (magnitude a * magnitude b / unit)

abbrev pub div_fixed : ℤ → ℤ → Option ℤ
div_fixed a b =
    if magnitude b == 0 then none else some (signed a b (magnitude a * unit / magnitude b))

abbrev pub abs_fixed : ℤ → ℤ
abs_fixed a = pos (magnitude a)

-- Whole powers by repeated multiplication; the exponent is cut to a whole number.
unfoldable pub pow_loop : ℕ → ℤ → ℤ
pow_loop zero a = pos unit
pow_loop (suc n) a = mul_fixed a (pow_loop n a)

abbrev pub Fixed : Type 0
Fixed = Option ℤ

abbrev pub lift₁ : (ℤ → ℤ) → Fixed → Fixed
lift₁ f (some a) = some (f a)
lift₁ f none = none

abbrev pub lift₂ : (ℤ → ℤ → Option ℤ) → Fixed → Fixed → Fixed
lift₂ f (some a) (some b) = f a b
lift₂ f _ _ = none

abbrev pub test₂ : (ℤ → ℤ → Bool) → Fixed → Fixed → Bool
test₂ f (some a) (some b) = f a b
test₂ f _ _ = false

abbrev pub lit_fixed : ℕ → ℕ → Fixed
lit_fixed m k = some (pos (m * unit / 10 ^ k))

abbrev pub min_fixed : Fixed → Fixed → Fixed
min_fixed a b = if test₂ ltb_ℤ b a then b else a

abbrev pub max_fixed : Fixed → Fixed → Fixed
max_fixed a b = if test₂ ltb_ℤ a b then b else a

instance abbrev pub fixed_float : Float Fixed
fixed_float = record {
  lit = lit_fixed;
  add = lift₂ (λ a b. some (a +ℤ b));
  sub = lift₂ (λ a b. some (a -ℤ b));
  mul = lift₂ (λ a b. some (mul_fixed a b));
  div = lift₂ div_fixed;
  pow = lift₂ (λ a b. some (pow_loop (magnitude b / unit) a));
  neg = lift₁ (λ a. pos 0 -ℤ a);
  abs = lift₁ abs_fixed;
  min = min_fixed;
  max = max_fixed;
  lt = test₂ ltb_ℤ;
  le = test₂ leb_ℤ;
  eq = test₂ (λ a b. leb_ℤ a b && leb_ℤ b a);
}

unfoldable pub clip_fixed : Fixed → Fixed → Fixed → Fixed
clip_fixed x lo hi = if test₂ ltb_ℤ x lo then lo else if test₂ ltb_ℤ hi x then hi else x

-- The values before the first one that is not below `v`; NaN goes behind all.
unfoldable pub search_fixed : List Fixed → Fixed → ℕ
search_fixed [] v = 0
search_fixed (x ∷ xs) v = if test₂ leb_ℤ v x then 0 else suc (search_fixed xs v)

unfoldable pub linspace_from : ℕ → ℤ → ℤ → List Fixed
linspace_from zero a step = []
linspace_from (suc n) a step = some a ∷ linspace_from n (a +ℤ step) step

unfoldable pub linspace_fixed : Fixed → Fixed → ℕ → List Fixed
linspace_fixed (some a) (some b) (suc (suc n)) =
    linspace_from (suc (suc n)) a (signed (b -ℤ a) (pos 1) (magnitude (b -ℤ a) / suc n))
linspace_fixed (some a) (some b) (suc zero) = some a ∷ []
linspace_fixed _ _ _ = []

-- Rough stand-ins for the transcendental functions: first-order, and positive where `exp` is.
unfoldable pub exp_fixed : ℤ → Fixed
exp_fixed (pos n) = some (pos (unit + n))
exp_fixed (negsuc n) = div_fixed (pos unit) (pos (unit + n + 1))

unfoldable pub on_fixed : (ℤ → Fixed) → Fixed → Fixed
on_fixed f (some a) = f a
on_fixed f none = none

abbrev pub fixed_numpy : Numpy Fixed
fixed_numpy = record {
  exp = on_fixed exp_fixed;
  log = on_fixed (λ a. some (a -ℤ pos unit));
  sqrt = lift₁ (λ a. a);
  cos = lift₁ (λ _. pos 866_025_403_784);
  radians = lift₁ (λ a. pos (magnitude a / 57));
  pi = some (pos 3_141_592_653_590);
  clip = clip_fixed;
  linspace = linspace_fixed;
  searchsorted = search_fixed;
}
