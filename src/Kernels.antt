-- ===== src/Kernels.antt =====
-- Kernels of physical_engine/optimization/_numba_ops_core_python.py for mixtures, flashes, heat
-- exchangers and the electrolyser. A division by zero, which the compiled code raises as an
-- exception, is the value of `⊘` here; so the theorems speak of results that are numbers.
pub mod Flash
pub mod Ranges
pub mod Exchanger
pub mod Effectiveness
pub mod Electrolyser
pub mod Mixtures
pub mod Compression
pub mod Cooler
pub mod Cooling
pub mod Interchanger
pub mod Stages
pub mod Boiler
pub mod Saturated
pub mod Limits
use matrix_factory.Prelude.{
  ◌≡◌, sym, subst, ◌⊎◌, inl, inr, Bool, true, false, if◌then◌else◌, Bool-cases,
}
use matrix_factory.Float.{Float, IsNum, Le, IsOrdered}

module _ {F : Type 0} ⦃fl : Float F⦄ where
  -- `if x < lo: x = lo`, `if x > hi: x = hi`
  abbrev pub held : F → F → F → F
  held lo hi x = let low = if fl.lt x lo then lo else x in if fl.lt hi low then hi else low

  -- A value that was held between two bounds.
  abbrev pub Within : F → F → F → Type 0
  Within lo hi x = Le lo x × Le x hi

  module _ (laws : IsOrdered F) where
    open laws use {le_num, not_le_of_lt, le_of_not_lt}

    pub not_lt_of_le : (a b : F) → Le a b → fl.lt b a ≡ false
    not_lt_of_le a b h = elim (Bool-cases (fl.lt b a)) [
      | inl y ↦ cc (not_le_of_lt b a y, h)
      | inr n ↦ n
    ]

    pub held-Within : (lo hi x : F) → Le lo hi → IsNum (held lo hi x) → Within lo hi (held lo hi x)
    held-Within lo hi x h n = elim (Bool-cases (fl.lt x lo)) [
      | inl low ↦ rw (low, not_lt_of_le lo hi h) ((le_num lo hi h).0, h)
      | inr not_low ↦ elim (Bool-cases (fl.lt hi x)) [
        | inl high ↦ rw (not_low, high) (h, (le_num lo hi h).1)
        | inr not_high ↦
            let num : IsNum x = rw (not_low, not_high) at n in
            rw (not_low, not_high)
              (
                le_of_not_lt x lo num (le_num lo hi h).0 not_low,
                le_of_not_lt hi x (le_num lo hi h).1 num not_high,
              )
      ]
    ]

    -- The result of a loop that ends at a held value, or among held values later.
    pub result-Within :
        (lo hi x result : F)
        → Le lo hi
        → IsNum result
        → (result ≡ held lo hi x) ⊎ Within lo hi result
        → Within lo hi result
    result-Within lo hi x result h n (inl e) =
        subst (λ r. Within lo hi r) (sym e) (held-Within lo hi x h (subst (λ r. IsNum r) e n))
    result-Within lo hi x result h n (inr w) = w
