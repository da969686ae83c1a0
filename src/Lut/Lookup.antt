-- ===== src/Lut/Lookup.antt =====
-- The lookups of `LUTManager`, on a manager that is initialized; `when_ready` runs them with the
-- initialization that each begins with.
use matrix_factory.Prelude.{
  ◌+◌, ◌||◌, not, Option, none, some, List, if◌then◌else◌, Result, ok, err, value_error,
  index_error, key_error, runtime_error, type_error, ◌>>=◌, or_raise, find,
}
use matrix_factory.Float.{Float, Numpy}
use matrix_factory.Grid.{
  get_interp_weights_jit, interp_from_weights_jit, bilinear_interp_jit, batch_bilinear_interp_jit,
}
use matrix_factory.Grid.Mixture.{get_mixture_enthalpy_fast}
use matrix_factory.Lut.{
  FluidName, FluidName-HasCode, Property, Property-HasCode, h_from_ps, Table, LutManager, CoolProp,
  in_bounds,
}

module _ {F : Type 0} ⦃fl : Float F⦄ (cp : Option (CoolProp F)) where
  -- `_fallback_coolprop`
  unfoldable pub fallback_coolprop : FluidName → Property → F → F → Result F
  fallback_coolprop fluid property pressure temperature = elim cp [
    | none ↦ err runtime_error
    | some c ↦ c.props_si property pressure temperature fluid
  ]

  module _ (np : Numpy F) where
    -- `_interpolate_2d`
    unfoldable pub interpolate_2d : List F → List F → Table F → F → F → Result F
    interpolate_2d p_grid t_grid lut pressure temperature = do
      (ix, wx, iy, wy) ←
          or_raise (get_interp_weights_jit np p_grid t_grid pressure temperature) index_error
      or_raise (interp_from_weights_jit lut ix iy wx wy) index_error

    unfoldable pub lookup : LutManager F → FluidName → Property → F → F → Result F
    unfolding fallback_coolprop interpolate_2d
    lookup m fluid property pressure temperature = do
      tables ← or_raise (find fluid m.luts) value_error
      lut ← or_raise (find property tables) value_error
      if in_bounds m pressure temperature
          then interpolate_2d m.pressure_grid m.temperature_grid lut pressure temperature
          else fallback_coolprop fluid property pressure temperature

    -- `bind_lookup`: the closure keeps what it read.
    unfoldable pub bind_lookup : LutManager F → FluidName → Property → Result (F → F → Result F)
    unfolding fallback_coolprop interpolate_2d
    bind_lookup m fluid property = do
      tables ← or_raise (find fluid m.luts) key_error
      lut ← or_raise (find property tables) key_error
      ok (λ pressure temperature.
          if not (in_bounds m pressure temperature)
          then fallback_coolprop fluid property pressure temperature
          else interpolate_2d m.pressure_grid m.temperature_grid lut pressure temperature)

    pub lookup_batch : LutManager F → FluidName → Property → List F → List F → Result (List F)
    lookup_batch m fluid property pressures temperatures = do
      tables ← or_raise (find fluid m.luts) key_error
      lut ← or_raise (find property tables) key_error
      or_raise
          (batch_bilinear_interp_jit np m.pressure_grid m.temperature_grid lut pressures
            temperatures)
          index_error

    -- `CP.PropsSI('H', 'P', pressure, 'S', entropy, fluid)`, where there is no other way.
    abbrev pub isentropic_without_table : FluidName → F → F → Result F
    isentropic_without_table fluid pressure entropy = elim cp [
      | none ↦ err runtime_error
      | some c ↦ c.props_si_ps pressure entropy fluid
    ]

    abbrev pub isentropic_in_table : LutManager F → Table F → F → F → Result F
    isentropic_in_table m lut pressure entropy =
        or_raise (bilinear_interp_jit np m.pressure_grid m.entropy_grid lut pressure entropy)
          index_error

    -- Outside the entropy range CoolProp answers if it is there, and the table's edge if it is not.
    abbrev pub isentropic_of_table : LutManager F → FluidName → Table F → F → F → Result F
    isentropic_of_table m fluid lut pressure entropy =
        if fl.lt entropy m.config.entropy_min || fl.lt m.config.entropy_max entropy
        then elim cp [
          | none ↦ isentropic_in_table m lut pressure entropy
          | some c ↦ c.props_si_ps pressure entropy fluid
        ]
        else isentropic_in_table m lut pressure entropy

    pub lookup_isentropic_enthalpy : LutManager F → FluidName → F → F → Result F
    lookup_isentropic_enthalpy m fluid pressure entropy = elim (find fluid m.luts) [
      | none ↦ isentropic_without_table fluid pressure entropy
      | some tables ↦ elim (find h_from_ps tables) [
        | none ↦ isentropic_without_table fluid pressure entropy
        | some lut ↦ isentropic_of_table m fluid lut pressure entropy
      ]
    ]

    -- `lookup_mixture_enthalpy`: the clamped point, and the count of clamped queries. Without stacked
    -- arrays the kernel is handed `None`.
    pub lookup_mixture_enthalpy : LutManager F → List F → F → F → LutManager F × Result F
    lookup_mixture_enthalpy m mass_fracs p_pa t_k =
        let p = fl.max m.config.pressure_min (fl.min m.config.pressure_max p_pa) in
        let t = fl.max m.config.temperature_min (fl.min m.config.temperature_max t_k) in
        let clamped = not (fl.eq p p_pa) || not (fl.eq t t_k) in
        (
          record m { clamp_counter = if clamped then m.clamp_counter + 1 else m.clamp_counter },
          elim m.stacked [
            | none ↦ err type_error
            | some arrays ↦
                or_raise
                  (get_mixture_enthalpy_fast np arrays.stacked_h m.pressure_grid m.temperature_grid
                    mass_fracs p t)
                  index_error
          ],
        )
