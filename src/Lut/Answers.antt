-- ===== src/Lut/Answers.antt =====
-- What a lookup answers.
use matrix_factory.Prelude.{
  ◌≡◌, refl, subst, inl, inr, Bool, true, false, ◌&&◌, Option, some, List, Result, ok, ok-injective,
  Option-cases, Bool-cases, find,
}
use matrix_factory.Float.{Float, Numpy, IsNum, Le, IsOrdered, IsNumpy, IsRounded}
use matrix_factory.Grid.{blend_weights, get_interp_weights_jit, interp_from_weights_jit}
use matrix_factory.Grid.Cells.{IsGrid, IsTable, corners-some}
use matrix_factory.Grid.Weights.{interp_weight_bounds}
use matrix_factory.Lut.{
  FluidName, FluidName-HasCode, Property, Property-HasCode, Table, Tables, LutManager, CoolProp,
  in_bounds,
}
use matrix_factory.Lut.Lookup.{lookup, bind_lookup, interpolate_2d}

and-eq-true : {a b : Bool} → (a && b) ≡ true → (a ≡ true) × (b ≡ true)
and-eq-true {a = true} {b} h = (refl, h)
and-eq-true {a = false} {b} h = cc

module _ {F : Type 0} ⦃fl : Float F⦄ where
  -- A table of a fluid's property, over the manager's grids of pressures and temperatures.
  pub record HasTable (m : LutManager F) (fluid : FluidName) (property : Property) : Type 0 where
    pub tables : Tables F
    pub lut : Table F
    pub found_fluid : find fluid m.luts ≡ some tables
    pub found_property : find property tables ≡ some lut
    pub pressures : IsGrid m.pressure_grid
    pub temperatures : IsGrid m.temperature_grid
    pub shape : IsTable m.pressure_grid m.temperature_grid lut

  pub in_bounds_parts :
      (m : LutManager F) (p t : F)
      → in_bounds m p t ≡ true
      → Le m.config.pressure_min p
        × Le p m.config.pressure_max
        × Le m.config.temperature_min t
        × Le t m.config.temperature_max
  in_bounds_parts m p t h =
      let (pp, tt') = and-eq-true h in
      let (a, b) = and-eq-true pp in let (c, d) = and-eq-true tt' in (a, b, c, d)

  module _ (cp : Option (CoolProp F)) (np : Numpy F) where
    -- The function that `bind_lookup` returns answers every query as `lookup` does.
    pub bind_lookup-eq-lookup :
        (m : LutManager F) (fluid : FluidName) (property : Property) (fast : F → F → Result F)
        (pressure temperature : F)
        → bind_lookup cp np m fluid property ≡ ok fast
        → fast pressure temperature ≡ lookup cp np m fluid property pressure temperature
    unfolding bind_lookup lookup
    bind_lookup-eq-lookup m fluid property fast p t h = elim (Option-cases (find fluid m.luts)) [
      | inl no_fluid ↦ let h' = rw no_fluid at h in cc
      | inr (tables, e) ↦ elim (Option-cases (find property tables)) [
        | inl no_property ↦ let h' = rw (e, no_property) at h in cc
        | inr (lut, e') ↦
            subst (λ k. k p t ≡ lookup cp np m fluid property p t) (ok-injective (rw (e, e') at h))
              (rw (e, e')
                (elim (Bool-cases (in_bounds m p t)) [ inl y ↦ rw y refl | inr n ↦ rw n refl ]))
      ]
    ]

    module _ (laws : IsOrdered F) (numpy : IsNumpy F np) (rounded : IsRounded F) where
      interpolate_2d_in_table :
          (p_grid t_grid : List F) (lut : Table F) (p t : F)
          → IsGrid p_grid
          → IsGrid t_grid
          → IsTable p_grid t_grid lut
          → IsNum p
          → IsNum t
          → (v : F) × (interpolate_2d cp np p_grid t_grid lut p t ≡ ok v)
      unfolding interpolate_2d get_interp_weights_jit interp_from_weights_jit
      interpolate_2d_in_table p_grid t_grid lut p t g h s n k =
          let (ix, wx, ex, ux, _) = interp_weight_bounds np laws numpy rounded p_grid p g n in
          let (iy, wy, ey, uy, _) = interp_weight_bounds np laws numpy rounded t_grid t h k in
          let (c, e) = corners-some p_grid t_grid lut ix iy s ux uy in
          (blend_weights c wx wy, rw (ex, ey, e) refl)

      -- Within the bounds of the configuration a lookup of a property that the manager holds reads
      -- only entries of its grids and of its table: it returns a value, with CoolProp or without.
      pub lookup_in_table :
          (m : LutManager F) (fluid : FluidName) (property : Property) (p t : F)
          → HasTable m fluid property
          → in_bounds m p t ≡ true
          → (v : F) × (lookup cp np m fluid property p t ≡ ok v)
      unfolding lookup
      lookup_in_table m fluid property p t has h =
          let (a, b, c, d) = in_bounds_parts m p t h in
          let (v, e) =
            interpolate_2d_in_table m.pressure_grid m.temperature_grid has.lut p t has.pressures
              has.temperatures has.shape (laws.le_num _ _ a).1 (laws.le_num _ _ c).1 in
          (v, rw (has.found_fluid, has.found_property, h) e)
