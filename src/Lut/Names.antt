-- ===== src/Lut/Names.antt =====
-- The names of the fluids and of their properties.
use matrix_factory.Prelude.{ℕ, ◌+◌, ◌-◌, ◌==◌, if◌then◌else◌, ◌≡◌, refl, HasCode, arith}

-- The texts that name a fluid.
pub data FluidName : Type 0 where
  h2 o2 n2 co2 ch4 h2o co : FluidName
  other_fluid : ℕ → FluidName

-- The keys of a fluid's tables: 'D', 'H', 'S', 'C' and 'Z' of `PropertyType`, and 'H_from_PS'.
pub data Property : Type 0 where
  density enthalpy entropy heat_capacity compressibility h_from_ps : Property

abbrev fluid_code : FluidName → ℕ
fluid_code h2 = 0
fluid_code o2 = 1
fluid_code n2 = 2
fluid_code co2 = 3
fluid_code ch4 = 4
fluid_code h2o = 5
fluid_code co = 6
fluid_code (other_fluid n) = 7 + n

abbrev fluid_of : ℕ → FluidName
fluid_of n =
    if n == 0
    then h2
    else if n == 1
    then o2
    else if n == 2
    then n2
    else if n == 3
    then co2
    else if n == 4
    then ch4
    else if n == 5
    then h2o
    else if n == 6
    then co
    else other_fluid (n - 7)

pub fluid_of-code : (f : FluidName) → fluid_of (fluid_code f) ≡ f
fluid_of-code h2 = refl
fluid_of-code o2 = refl
fluid_of-code n2 = refl
fluid_of-code co2 = refl
fluid_of-code ch4 = refl
fluid_of-code h2o = refl
fluid_of-code co = refl
fluid_of-code (other_fluid n) = ground arith

instance abbrev pub FluidName-HasCode : HasCode FluidName
FluidName-HasCode = record { code = fluid_code; decode = fluid_of; decode-code = fluid_of-code }

abbrev property_code : Property → ℕ
property_code density = 0
property_code enthalpy = 1
property_code entropy = 2
property_code heat_capacity = 3
property_code compressibility = 4
property_code h_from_ps = 5

abbrev property_of : ℕ → Property
property_of n =
    if n == 0
    then density
    else if n == 1
    then enthalpy
    else if n == 2
    then entropy
    else if n == 3
    then heat_capacity
    else if n == 4
    then compressibility
    else h_from_ps

pub property_of-code : (p : Property) → property_of (property_code p) ≡ p
property_of-code density = refl
property_of-code enthalpy = refl
property_of-code entropy = refl
property_of-code heat_capacity = refl
property_of-code compressibility = refl
property_of-code h_from_ps = refl

instance abbrev pub Property-HasCode : HasCode Property
Property-HasCode = record {
  code = property_code;
  decode = property_of;
  decode-code = property_of-code;
}
