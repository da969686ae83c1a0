-- ===== src/Float/Ops.antt =====
-- What the engine computes with: Python's `float`, as a type with the operations the code applies to
-- it, and the functions of NumPy that it calls. Both are parameters of every model below.
-- `lit m k` is the decimal literal m · 10^-k. `⊕ ⊖ ⊗ ⊘` are the rounded operations. `min` and `max`
-- are the builtins, which Numba compiles in its own way in the jitted functions.
use matrix_factory.Prelude.{ℕ, Bool, List, true, ◌≡◌}

pub record Float (F : Type 0) : Type 0 where
  pub lit : ℕ → ℕ → F
  pub add : F → F → F
  pub sub : F → F → F
  pub mul : F → F → F
  pub div : F → F → F
  pub pow : F → F → F
  pub neg : F → F
  pub abs : F → F
  pub min : F → F → F
  pub max : F → F → F
  pub lt : F → F → Bool
  pub le : F → F → Bool
  pub eq : F → F → Bool

pub record Numpy (F : Type 0) : Type 0 where
  pub exp : F → F
  pub log : F → F
  pub sqrt : F → F
  pub cos : F → F
  pub radians : F → F
  pub pi : F
  -- np.clip(x, lo, hi)
  pub clip : F → F → F → F
  -- np.linspace(a, b, n)
  pub linspace : F → F → ℕ → List F
  -- np.searchsorted(a, v), side = 'left'
  pub searchsorted : List F → F → ℕ

infixl 65 ◌⊕◌ ◌⊖◌
infixl 70 ◌⊗◌ ◌⊘◌
module _ {F : Type 0} ⦃fl : Float F⦄ where
  abbrev pub ◌⊕◌ : F → F → F
  ◌⊕◌ = fl.add

  abbrev pub ◌⊖◌ : F → F → F
  ◌⊖◌ = fl.sub

  abbrev pub ◌⊗◌ : F → F → F
  ◌⊗◌ = fl.mul

  abbrev pub ◌⊘◌ : F → F → F
  ◌⊘◌ = fl.div

  -- NaN is the value that is not `<=` itself.
  abbrev pub IsNum : F → Type 0
  IsNum x = fl.le x x ≡ true

  -- a ≤ b and a < b, as the code tests them.
  abbrev pub Le : F → F → Type 0
  Le x y = fl.le x y ≡ true

  abbrev pub Lt : F → F → Type 0
  Lt x y = fl.lt x y ≡ true
