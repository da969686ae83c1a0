-- ===== src/Lut/Species.antt =====
-- `LUTManager.get_species_map`, and `remap_canonical_to_lut` of _numba_ops_core_python.py: mass
-- fractions in the canonical order of the fluids, brought into the order of the configuration. An
-- index of -1 is `none`.
use matrix_factory.Prelude.{
  ℕ, suc, ◌≡◌, refl, ap, Bool, false, Option, none, some, List, [], ◌∷◌, map, get_elem?, All,
  if◌then◌else◌, ◌==◌, same, arith,
}
use matrix_factory.Float.{Float, ◌⊕◌}
use matrix_factory.Grid.{◌>>=◌}
use matrix_factory.Lut.{
  FluidName, FluidName-HasCode, h2, o2, n2, co2, ch4, h2o, co, other_fluid, LutManager,
}
use matrix_factory.Lut.Reload.{Distinct}

abbrev pub canonical_fluid_order : List FluidName
canonical_fluid_order = h2 ∷ o2 ∷ n2 ∷ co2 ∷ ch4 ∷ h2o ∷ []

-- `xs.index(fluid)` if `fluid in xs`, else -1.
abbrev pub index_of : FluidName → List FluidName → Option ℕ
index_of fluid [] = none
index_of fluid (x ∷ xs) =
    if same fluid x
    then some 0
    else elim (index_of fluid xs) [ none ↦ none | some i ↦ some (suc i) ]

pub get_species_map : {F : Type 0} → LutManager F → List (Option ℕ)
get_species_map m = map (λ fluid. index_of fluid canonical_fluid_order) m.config.fluids

abbrev pub is_water : Option ℕ → Bool
is_water none = false
is_water (some idx) = idx == 5

index_of_other : (n : ℕ) → index_of (other_fluid n) canonical_fluid_order ≡ none
index_of_other n = ground arith

module _ {F : Type 0} ⦃fl : Float F⦄ where
  -- `lut_fracs[i]` after the first loop.
  abbrev pub remapped : List F → Option ℕ → Option F
  remapped canonical_fracs none = some (fl.lit 0 0)
  remapped canonical_fracs (some idx) = get_elem? canonical_fracs idx

  abbrev pub remap_slots : List F → List (Option ℕ) → Option (List F)
  remap_slots canonical_fracs [] = some []
  remap_slots canonical_fracs (idx ∷ species_map) = do
    x ← remapped canonical_fracs idx
    xs ← remap_slots canonical_fracs species_map
    some (x ∷ xs)

  -- The second loop, which ends at the first slot of water.
  abbrev pub fold_liquid : F → List (Option ℕ) → List F → List F
  fold_liquid liquid [] xs = xs
  fold_liquid liquid (idx ∷ species_map) [] = []
  fold_liquid liquid (idx ∷ species_map) (x ∷ xs) =
      if is_water idx then (x ⊕ liquid) ∷ xs else x ∷ fold_liquid liquid species_map xs

  pub remap_canonical_to_lut : List F → F → List (Option ℕ) → Option (List F)
  remap_canonical_to_lut canonical_fracs h2o_liq_frac species_map = do
    lut_fracs ← remap_slots canonical_fracs species_map
    some (fold_liquid h2o_liq_frac species_map lut_fracs)

  -- The fraction of a fluid by its name, given those of the canonical fluids.
  abbrev pub fraction_of : F → F → F → F → F → F → FluidName → F
  fraction_of a b c d e w h2 = a
  fraction_of a b c d e w o2 = b
  fraction_of a b c d e w n2 = c
  fraction_of a b c d e w co2 = d
  fraction_of a b c d e w ch4 = e
  fraction_of a b c d e w h2o = w
  fraction_of a b c d e w co = fl.lit 0 0
  fraction_of a b c d e w (other_fluid n) = fl.lit 0 0

  module _ (a b c d e w : F) where
    remapped-index_of :
        (fluid : FluidName)
        → remapped (a ∷ b ∷ c ∷ d ∷ e ∷ w ∷ []) (index_of fluid canonical_fluid_order)
          ≡ some (fraction_of a b c d e w fluid)
    remapped-index_of h2 = refl
    remapped-index_of o2 = refl
    remapped-index_of n2 = refl
    remapped-index_of co2 = refl
    remapped-index_of ch4 = refl
    remapped-index_of h2o = refl
    remapped-index_of co = refl
    remapped-index_of (other_fluid n) = ground arith

    remap_slots-map :
        (fluids : List FluidName)
        → remap_slots
            (a ∷ b ∷ c ∷ d ∷ e ∷ w ∷ [])
            (map (λ fluid. index_of fluid canonical_fluid_order) fluids)
          ≡ some (map (fraction_of a b c d e w) fluids)
    remap_slots-map [] = refl
    remap_slots-map (fluid ∷ rest) = rw (remapped-index_of fluid, remap_slots-map rest) refl

    -- Water's fraction shows in no other fluid's.
    fraction_of-dry :
        (liquid : F) (fluids : List FluidName)
        → All (λ f. same h2o f ≡ false) fluids
        → map (fraction_of a b c d e w) fluids ≡ map (fraction_of a b c d e (w ⊕ liquid)) fluids
    fraction_of-dry liquid [] apart = refl
    fraction_of-dry liquid (fluid ∷ rest) (n, apart) =
        rw (fraction_of-dry liquid rest apart) (by_fluid fluid n)
      where
        by_fluid :
            (f : FluidName)
            → same h2o f ≡ false
            → (fraction_of a b c d e w f ∷ map (fraction_of a b c d e (w ⊕ liquid)) rest) ≡ (
                fraction_of a b c d e (w ⊕ liquid) f
                ∷ map (fraction_of a b c d e (w ⊕ liquid)) rest)
        by_fluid h2 n = refl
        by_fluid o2 n = refl
        by_fluid n2 n = refl
        by_fluid co2 n = refl
        by_fluid ch4 n = refl
        by_fluid h2o n = cc
        by_fluid co n = refl
        by_fluid (other_fluid k) n = refl

    fold_liquid-map :
        (liquid : F) (fluids : List FluidName)
        → Distinct fluids
        → fold_liquid liquid
            (map (λ fluid. index_of fluid canonical_fluid_order) fluids)
            (map (fraction_of a b c d e w) fluids)
          ≡ map (fraction_of a b c d e (w ⊕ liquid)) fluids
    fold_liquid-map liquid [] distinct = refl
    fold_liquid-map liquid (h2o ∷ rest) (apart, distinct) =
        ap (λ l. (w ⊕ liquid) ∷ l) (fraction_of-dry liquid rest apart)
    fold_liquid-map liquid (h2 ∷ rest) (apart, distinct) =
        ap (λ l. a ∷ l) (fold_liquid-map liquid rest distinct)
    fold_liquid-map liquid (o2 ∷ rest) (apart, distinct) =
        ap (λ l. b ∷ l) (fold_liquid-map liquid rest distinct)
    fold_liquid-map liquid (n2 ∷ rest) (apart, distinct) =
        ap (λ l. c ∷ l) (fold_liquid-map liquid rest distinct)
    fold_liquid-map liquid (co2 ∷ rest) (apart, distinct) =
        ap (λ l. d ∷ l) (fold_liquid-map liquid rest distinct)
    fold_liquid-map liquid (ch4 ∷ rest) (apart, distinct) =
        ap (λ l. e ∷ l) (fold_liquid-map liquid rest distinct)
    fold_liquid-map liquid (co ∷ rest) (apart, distinct) =
        ap (λ l. fl.lit 0 0 ∷ l) (fold_liquid-map liquid rest distinct)
    fold_liquid-map liquid (other_fluid n ∷ rest) (apart, distinct) =
        rw (index_of_other n) (ap (λ l. fl.lit 0 0 ∷ l) (fold_liquid-map liquid rest distinct))

    -- For six canonical fractions and a configuration that names no fluid twice, the fractions in the
    -- configuration's order are each fluid's own by name: the liquid is added to water's, wherever it
    -- stands, and a fluid that is not canonical has 0.
    pub remap_canonical_to_lut-get_species_map :
        (m : LutManager F) (liquid : F)
        → Distinct m.config.fluids
        → remap_canonical_to_lut (a ∷ b ∷ c ∷ d ∷ e ∷ w ∷ []) liquid (get_species_map m)
          ≡ some (map (fraction_of a b c d e (w ⊕ liquid)) m.config.fluids)
    unfolding remap_canonical_to_lut get_species_map
    remap_canonical_to_lut-get_species_map m liquid distinct =
        rw (remap_slots-map m.config.fluids)
          (ap (λ l. some l) (fold_liquid-map liquid m.config.fluids distinct))
