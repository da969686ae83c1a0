-- ===== src/Lut/Memo.antt =====
-- The memo of `get_saturation_properties`.
use matrix_factory.Prelude.{
  ◌≡◌, refl, sym, subst, inl, inr, ◌⊎◌, true, Option, none, some, Result, ok, err, Bool-cases,
}
use mathlib.Core.Option.{some-injective}
use matrix_factory.Float.{Float}
use matrix_factory.Lut.{LutManager, SaturationProperties, CoolProp, LutNumpy}
use matrix_factory.Lut.Water.{memoised, compute_saturation_properties, get_saturation_properties}

module _ {F : Type 0} ⦃fl : Float F⦄ (nl : LutNumpy F) (cp : Option (CoolProp F)) where
  -- The memo holds what the uncached computation returns at the memo's pressure.
  abbrev pub IsMemo : LutManager F → Type 0
  IsMemo m =
      (pressure : F) (result : SaturationProperties F)
      → m.sat_cache ≡ some (pressure, result)
      → compute_saturation_properties nl cp m pressure ≡ ok result

  -- What `get_saturation_properties` answers, and what it leaves.
  abbrev pub IsAnswered : LutManager F → F → LutManager F × Result (SaturationProperties F) → Type 0
  IsAnswered m pressure_pa (m', answer) =
      IsMemo m'
      × (m'.saturation ≡ m.saturation)
      × ((q : F) × ((q ≡ pressure_pa) ⊎ (fl.eq pressure_pa q ≡ true))
          × (answer ≡ compute_saturation_properties nl cp m q))

  -- The memo is kept right, the curve is left alone, and the answer, an exception too, is what the
  -- uncached computation gives at the pressure asked for, or at one that compares equal to it.
  pub get_saturation_properties-IsMemo :
      (m : LutManager F) (pressure_pa : F)
      → IsMemo m
      → IsAnswered m pressure_pa (get_saturation_properties nl cp m pressure_pa)
  unfolding get_saturation_properties compute_saturation_properties
  get_saturation_properties-IsMemo m pressure_pa memo = by_memo m.sat_cache refl
    where
      -- The memo does not have the pressure.
      computed :
          (r : Result (SaturationProperties F))
          → compute_saturation_properties nl cp m pressure_pa ≡ r
          → memoised m pressure_pa ≡ none
          → IsAnswered m pressure_pa (get_saturation_properties nl cp m pressure_pa)
      computed (err e) c new =
          rw (new, c, get_saturation_properties) (memo, refl, (pressure_pa, inl refl, sym c))
      computed (ok r) c new =
          rw (new, c, get_saturation_properties)
            (
              λ p r' e.
                  let e' = some-injective _ _ e in
                  subst (λ x. compute_saturation_properties nl cp m x.0 ≡ ok x.1) e' c,
              refl,
              (pressure_pa, inl refl, sym c),
            )

      by_memo :
          (held : Option (F × SaturationProperties F))
          → m.sat_cache ≡ held
          → IsAnswered m pressure_pa (get_saturation_properties nl cp m pressure_pa)
      by_memo none e = computed (compute_saturation_properties nl cp m pressure_pa) refl (rw e refl)
      by_memo (some (q, r)) e = elim (Bool-cases (fl.eq pressure_pa q)) [
        | inl y ↦ rw (e, y, get_saturation_properties) (memo, refl, (q, inr y, sym (memo q r e)))
        | inr n ↦ computed (compute_saturation_properties nl cp m pressure_pa) refl (rw (e, n) refl)
      ]
