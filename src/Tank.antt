-- ===== src/Tank.antt =====
-- physical_engine/factory_simulation/h2_tank.py: the hydrogen tank of the test bench. The lookup in
-- the fluid tables is an argument, `lookup_pressure_from_density`; it may raise.
pub mod Balance
pub mod Discharge
use matrix_factory.Prelude.{Result, ok, err, if◌then◌else◌}
use matrix_factory.Float.{Float, Numpy, ◌⊕◌, ◌⊖◌, ◌⊗◌, ◌⊘◌}

pub record TankArray (F : Type 0) : Type 0 where
  pub capacity_kg : F
  pub volume_m3 : F
  pub temperature_k : F
  pub mass_kg : F
  pub pressure_bar : F

module _ {F : Type 0} ⦃fl : Float F⦄ (np : Numpy F)
    (lookup_pressure_from_density : F → F → Result F) where
  open fl use {lit, min, max}

  -- With the ideal gas law where the lookup raises. `R_H2` is 4124.2 J/(kg·K).
  pub pressure_from_mass : F → F → F → F
  pressure_from_mass volume_m3 temperature_k mass_kg =
      let rho = max mass_kg (lit 1 6) ⊘ volume_m3 in
      elim (lookup_pressure_from_density rho temperature_k) [
        | ok p_pa ↦ p_pa ⊘ lit 100000 0
        | err e ↦ rho ⊗ lit 41242 1 ⊗ temperature_k ⊘ lit 100000 0
      ]

  pub tank_array : F → F → F → F → TankArray F
  unfolding pressure_from_mass
  tank_array capacity_kg volume_m3 initial_fill_fraction temp_k =
      let mass_kg = capacity_kg ⊗ initial_fill_fraction in
      record {
        capacity_kg = capacity_kg;
        volume_m3 = volume_m3;
        temperature_k = temp_k;
        mass_kg = mass_kg;
        pressure_bar = pressure_from_mass volume_m3 temp_k mass_kg;
      }

  -- A new mass, with its pressure.
  abbrev pub with_mass : TankArray F → F → TankArray F
  with_mass s mass = record s {
    mass_kg = mass;
    pressure_bar = pressure_from_mass s.volume_m3 s.temperature_k mass;
  }

  pub discharge : F → TankArray F → TankArray F × F
  unfolding pressure_from_mass
  discharge requested_kg s =
      let delivered = min requested_kg (max s.mass_kg (lit 0 0)) in
      (with_mass s (np.clip (s.mass_kg ⊖ delivered) (lit 0 0) s.capacity_kg), delivered)

  pub fill : F → TankArray F → TankArray F × F
  unfolding pressure_from_mass
  fill offered_kg s =
      let accepted = min offered_kg (max (s.capacity_kg ⊖ s.mass_kg) (lit 0 0)) in
      (with_mass s (np.clip (s.mass_kg ⊕ accepted) (lit 0 0) s.capacity_kg), accepted)

  pub fill_fraction : TankArray F → F
  fill_fraction s = s.mass_kg ⊘ s.capacity_kg
