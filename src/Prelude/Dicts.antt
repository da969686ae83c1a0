-- ===== src/Prelude/Dicts.antt =====
-- Python's dictionaries as association lists: a write replaces the key's value or adds the key at
-- the end. The keys come with their equality test.
use Prim.Native.Nat.{ℕ}
use mathlib.Core.Path.{◌≡◌, refl, sym, ap, ◌∙◌}
use mathlib.Core.Logic.{inl, inr}
use mathlib.Core.Bool.{Bool, true, false}
use mathlib.Core.List.{List, [], ◌∷◌}
use mathlib.Core.Option.{Option, none, some}
use native.Mathlib.Omega.{arith}
use matrix_factory.Prelude.Tests.{◌==◌, if◌then◌else◌, Bool-cases}

-- A type of keys, each with a number of its own.
pub record HasCode (K : Type 0) : Type 0 where
  pub code : K → ℕ
  pub decode : ℕ → K
  pub decode-code : (k : K) → decode (code k) ≡ k

module _ {K : Type 0} ⦃keys : HasCode K⦄ where
  abbrev pub same : K → K → Bool
  same a b = keys.code a == keys.code b

  pub same_self : (a : K) → same a a ≡ true
  same_self a = ground arith

  pub same-eq : (a b : K) → same a b ≡ true → a ≡ b
  same-eq a b h =
      let codes : keys.code a ≡ keys.code b = ground arith in
      sym (keys.decode-code a) ∙ ap keys.decode codes ∙ keys.decode-code b

  module _ {ℓ} {V : Type ℓ} where
    abbrev pub find : K → List (K × V) → Option V
    find k [] = none
    find k ((j, v) ∷ rest) = if same j k then some v else find k rest

    abbrev pub insert : K → V → List (K × V) → List (K × V)
    insert k v [] = (k, v) ∷ []
    insert k v ((j, w) ∷ rest) = if same j k then (j, v) ∷ rest else (j, w) ∷ insert k v rest

    pub find-insert_self : (k : K) (v : V) (m : List (K × V)) → find k (insert k v m) ≡ some v
    find-insert_self k v [] = rw (same_self k) refl
    find-insert_self k v ((j, w) ∷ rest) = elim (Bool-cases (same j k)) [
      | inl y ↦ rw (y, y) refl
      | inr n ↦ rw (n, n) (find-insert_self k v rest)
    ]

    pub find-insert_other :
        (k i : K) (v : V) (m : List (K × V)) → same k i ≡ false → find i (insert k v m) ≡ find i m
    find-insert_other k i v [] h = rw h refl
    find-insert_other k i v ((j, w) ∷ rest) h = elim (Bool-cases (same j k)) [
      | inl y ↦ rw (y, same-eq j k y, h) refl
      | inr n ↦ elim (Bool-cases (same j i)) [
        | inl y ↦ rw (n, y) refl
        | inr n' ↦ rw (n, n') (find-insert_other k i v rest h)
      ]
    ]
