-- ===== src/Tank/Discharge.antt =====
-- A discharge of the tank in rounded arithmetic.
use matrix_factory.Prelude.{◌≡◌, inl, inr, Result}
use matrix_factory.Float.{
  Float, Numpy, ◌⊖◌, Le, IsOrdered, IsNumpy, IsFinite, IsSubtraction, IsNum-lit,
}
use matrix_factory.Tank.{TankArray, discharge}
use matrix_factory.Tank.Balance.{IsTank}

module _ {F : Type 0} ⦃fl : Float F⦄ (np : Numpy F) (laws : IsOrdered F) (numpy : IsNumpy F np)
    (subtraction : IsSubtraction F) (lookup : F → F → Result F) where
  open laws use {le_num, le_trans, min_lem, max_lem}
  open subtraction use {sub_le}

  -- A discharge of what is not negative, from a tank with a finite mass between empty and full, leaves it
  -- between empty and full, delivers no negative mass and at most what was asked for and what there
  -- was, and leaves what there was less what it delivers, the rounded difference, which the clipping
  -- does not change.
  pub discharge_lem :
      (s : TankArray F) (requested_kg : F)
      → IsTank s
      → IsFinite s.mass_kg
      → Le (fl.lit 0 0) requested_kg
      → let (s', delivered) = discharge np lookup requested_kg s in
        IsTank s'
        × Le (fl.lit 0 0) delivered
        × Le delivered requested_kg
        × Le delivered s.mass_kg
        × (s'.mass_kg ≡ s.mass_kg ⊖ delivered)
  unfolding discharge
  discharge_lem s r t finite h =
      let m = s.mass_kg in
      let there = fl.max m (fl.lit 0 0) in
      let d = fl.min r there in
      let (_, zero_there, which) =
        max_lem m (fl.lit 0 0) (le_num _ _ t.nonneg).1 (IsNum-lit laws 0 0) in
      let no_more : Le there m = elim which [
        | inl e ↦ rw e (le_num _ _ t.nonneg).1
        | inr e ↦ rw e t.nonneg
      ] in
      let (asked, held, choice) = min_lem r there (le_num _ _ h).1 (le_num _ _ zero_there).1 in
      let some_mass : Le (fl.lit 0 0) d = elim choice [
        | inl e ↦ rw e h
        | inr e ↦ rw e zero_there
      ] in
      let within = le_trans _ _ _ held no_more in
      let (rest, less, _) = sub_le m d some_mass within finite in
      let fits = le_trans _ _ _ less t.within in
      let same = numpy.clip-eq (m ⊖ d) (fl.lit 0 0) s.capacity_kg rest fits in
      (record { nonneg = rw same rest; within = rw same fits }, some_mass, asked, within, same)
