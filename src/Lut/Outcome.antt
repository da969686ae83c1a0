-- ===== src/Lut/Outcome.antt =====
-- How loading the stacked file ends: the same on every manager of a configuration.
use matrix_factory.Prelude.{
  ℕ, suc, ◌≡◌, ◌≢◌, ◌∙◌, refl, sym, ap, subst, inl, inr, Bool, true, false, ◌&&◌, ◌==◌, some, List,
  [], ◌∷◌, length, Result, ok, err, Bool-cases, insert,
}
use matrix_factory.Lut.{
  FluidName, FluidName-HasCode, Tables, LutManager, Stacked, CacheFile, absent, unreadable,
  contents, StackedFile,
}
use matrix_factory.Lut.Cache.{slices_at, rebuild_luts, finish_load, load_stacked_cache, try_stacked}
use matrix_factory.Lut.Reload.{rebuild_luts-ok_slice, rebuild_luts-err_slice}

module _ {F : Type 0} where
  -- Whether the tables can be rebuilt does not depend on those that were there.
  rebuild_luts-outcome :
      (arrays : Stacked F) (i : ℕ) (fluids : List FluidName)
      (luts luts' : List (FluidName × Tables F))
      → (rebuild_luts arrays i fluids luts).1 ≡ (rebuild_luts arrays i fluids luts').1
  unfolding rebuild_luts
  rebuild_luts-outcome arrays i [] luts luts' = refl
  rebuild_luts-outcome arrays i (fluid ∷ rest) luts luts' =
      by_slice (slices_at arrays i) refl (λ tables.
        rebuild_luts-outcome arrays (suc i) rest (insert fluid tables luts)
          (insert fluid tables luts'))
    where
      by_slice :
          (r : Result (Tables F))
          → slices_at arrays i ≡ r
          → ((tables : Tables F)
              → (rebuild_luts arrays (suc i) rest (insert fluid tables luts)).1
                ≡ (rebuild_luts arrays (suc i) rest (insert fluid tables luts')).1)
          → (rebuild_luts arrays i (fluid ∷ rest) luts).1
            ≡ (rebuild_luts arrays i (fluid ∷ rest) luts').1
      by_slice (err e) q later =
          ap (λ r. r.1) (rebuild_luts-err_slice arrays i fluid rest luts q)
          ∙ sym (ap (λ r. r.1) (rebuild_luts-err_slice arrays i fluid rest luts' q))
      by_slice (ok tables) q later =
          ap (λ r. r.1) (rebuild_luts-ok_slice arrays i fluid rest luts q)
          ∙ later tables
          ∙ sym (ap (λ r. r.1) (rebuild_luts-ok_slice arrays i fluid rest luts' q))

  finish_load-outcome :
      (m n : LutManager F) (a b : List (FluidName × Tables F) × Result (Unit {0}))
      → a.1 ≡ b.1
      → (finish_load m a).1 ≡ (finish_load n b).1
  finish_load-outcome m n (luts, ok _) (luts', ok _) e = refl
  finish_load-outcome m n (luts, ok _) (luts', err _) e = cc
  finish_load-outcome m n (luts, err _) (luts', ok _) e = cc
  finish_load-outcome m n (luts, err _) (luts', err _) e = cc

  finish_load-loads :
      (m : LutManager F) (a : List (FluidName × Tables F) × Result (Unit {0}))
      → (finish_load m a).1 ≢ ok false
  finish_load-loads m (luts, ok _) e = cc
  finish_load-loads m (luts, err _) e = cc

  abbrev fits : LutManager F → StackedFile F → Bool
  fits m file =
      length file.pressure_grid == m.config.pressure_points
      && length file.temperature_grid == m.config.temperature_points

  abbrev taken : LutManager F → StackedFile F → LutManager F
  taken m file = record m {
    stacked = some file.arrays;
    pressure_grid = file.pressure_grid;
    temperature_grid = file.temperature_grid;
    entropy_grid = file.entropy_grid;
  }

  -- Loading ends in the same way on every manager of the configuration.
  pub try_stacked-outcome :
      (m n : LutManager F) (file : CacheFile (StackedFile F))
      → m.config ≡ n.config
      → (try_stacked m file).1 ≡ (try_stacked n file).1
  unfolding try_stacked load_stacked_cache
  try_stacked-outcome m n absent same_config = refl
  try_stacked-outcome m n (unreadable e) same_config = refl
  try_stacked-outcome m n (contents file) same_config = elim (Bool-cases (fits m file)) [
    | inl y ↦
        rw (y, subst (λ c. fits (record m { config = c }) file ≡ true) same_config y)
          (finish_load-outcome (taken m file) (taken n file)
            (rebuild_luts file.arrays 0 m.config.fluids m.luts)
            (rebuild_luts file.arrays 0 n.config.fluids n.luts)
            (rw (sym same_config)
              (rebuild_luts-outcome file.arrays 0 m.config.fluids m.luts n.luts)))
    | inr x ↦ rw (x, subst (λ c. fits (record m { config = c }) file ≡ false) same_config x) refl
  ]

  pub try_stacked-config :
      (m : LutManager F) (file : CacheFile (StackedFile F))
      → (try_stacked m file).0.config ≡ m.config
  unfolding try_stacked load_stacked_cache
  try_stacked-config m absent = refl
  try_stacked-config m (unreadable e) = refl
  try_stacked-config m (contents file) = elim (Bool-cases (fits m file)) [
    | inl y ↦ rw y (loaded (rebuild_luts file.arrays 0 m.config.fluids m.luts))
    | inr x ↦ rw x refl
  ]
    where
      loaded :
          (a : List (FluidName × Tables F) × Result (Unit {0}))
          → (finish_load (taken m file) a).0.config ≡ m.config
      loaded (luts, ok _) = refl
      loaded (luts, err _) = refl

  -- A file that is not there, or not of the configuration, leaves the manager as it was.
  pub try_stacked-unused :
      (m : LutManager F) (file : CacheFile (StackedFile F))
      → (try_stacked m file).1 ≡ ok false
      → (try_stacked m file).0 ≡ m
  unfolding try_stacked load_stacked_cache
  try_stacked-unused m absent h = refl
  try_stacked-unused m (unreadable e) h = refl
  try_stacked-unused m (contents file) h = elim (Bool-cases (fits m file)) [
    | inl y ↦ absurd (
        finish_load-loads (taken m file) (rebuild_luts file.arrays 0 m.config.fluids m.luts)
          (rw y at h))
    | inr x ↦ rw x refl
  ]
