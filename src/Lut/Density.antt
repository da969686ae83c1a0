-- ===== src/Lut/Density.antt =====
-- `LUTManager.lookup_pressure_from_density`: the table of densities inverted by bisection.
use matrix_factory.Prelude.{
  ℕ, zero, suc, ◌≡◌, ◌⊎◌, Bool, true, Option, if◌then◌else◌, Result, ok, err, zero_division, ◌>>=◌,
}
use matrix_factory.Float.{Float, Numpy, ◌⊕◌, ◌⊖◌, ◌⊗◌, ◌⊘◌, IsNum, Le}
use matrix_factory.Lut.{FluidName, density, LutManager, CoolProp}
use matrix_factory.Lut.Lookup.{lookup}

module _ {F : Type 0} ⦃fl : Float F⦄ (cp : Option (CoolProp F)) (np : Numpy F) where
  open fl use {lit, lt, le, eq, abs}

  abbrev pub midpoint : F → F → F
  midpoint p_lo p_hi = lit 5 1 ⊗ (p_lo ⊕ p_hi)

  module _ (m : LutManager F) (fluid : FluidName) (rho_target temperature_k tol_rel : F) where
    abbrev pub density_at : F → Result F
    density_at p = lookup cp np m fluid density p temperature_k

    -- The relative error of a density; a zero target divides by zero.
    abbrev pub near : F → Result Bool
    near d_mid =
        if eq rho_target (lit 0 0)
        then err zero_division
        else ok (lt (abs (d_mid ⊖ rho_target) ⊘ rho_target) tol_rel)

    -- The loop, with `n` rounds left.
    unfoldable pub bisect_pressure : ℕ → F → F → Result F
    bisect_pressure zero p_lo p_hi = ok (midpoint p_lo p_hi)
    bisect_pressure (suc n) p_lo p_hi = do
      d_mid ← density_at (midpoint p_lo p_hi)
      close ← near d_mid
      let rest =
          bisect_pressure n (if lt d_mid rho_target then midpoint p_lo p_hi else p_lo)
            (if lt d_mid rho_target then p_hi else midpoint p_lo p_hi)
      if close then ok (midpoint p_lo p_hi) else rest

    -- `max_iter` rounds; above the table the pressure of an ideal gas.
    pub lookup_pressure_from_density : ℕ → Result F
    lookup_pressure_from_density max_iter = do
      d_lo ← density_at m.config.pressure_min
      d_hi ← density_at m.config.pressure_max
      if le rho_target d_lo
          then ok m.config.pressure_min
          else if le d_hi rho_target
          then ok (rho_target ⊗ lit 41242 1 ⊗ temperature_k)
          else bisect_pressure max_iter m.config.pressure_min m.config.pressure_max

    -- A pressure whose density misses the target by less than the tolerance.
    abbrev pub IsNear : F → Type 0
    IsNear p = (d : F) × (density_at p ≡ ok d) × (near d ≡ ok true)

    -- Two pressures of the range. Their densities, where they are numbers, enclose the target.
    pub record Brackets (p_lo p_hi : F) : Type 0 where
      pub d_lo : F
      pub d_hi : F
      pub at_lo : density_at p_lo ≡ ok d_lo
      pub at_hi : density_at p_hi ≡ ok d_hi
      pub above_lo : IsNum d_lo → Le d_lo rho_target
      pub below_hi : IsNum d_hi → Le rho_target d_hi
      pub from : Le m.config.pressure_min p_lo
      pub ordered : Le p_lo p_hi
      pub to : Le p_hi m.config.pressure_max

    -- What the loop finds.
    abbrev pub IsFound : F → Type 0
    IsFound p = IsNear p ⊎ ((p_lo : F) × (p_hi : F) × Brackets p_lo p_hi × (p ≡ midpoint p_lo p_hi))

    -- What the method may answer: the lowest pressure, where the target is no denser; the ideal
    -- gas's, where the target is no thinner than at the highest; else a pressure of the range that
    -- is near enough, or in the middle of two that enclose the target.
    abbrev pub IsAnswer : F → Type 0
    IsAnswer p =
        ((p ≡ m.config.pressure_min)
          × ((d : F) × (density_at m.config.pressure_min ≡ ok d) × Le rho_target d))
        ⊎ ((p ≡ rho_target ⊗ lit 41242 1 ⊗ temperature_k)
            × ((d : F) × (density_at m.config.pressure_max ≡ ok d) × Le d rho_target))
        ⊎ (Le m.config.pressure_min p × Le p m.config.pressure_max × IsFound p)
