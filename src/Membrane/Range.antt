-- ===== src/Membrane/Range.antt =====
-- The water content stays within the range of the correlations.
use matrix_factory.Prelude.{arith}
use matrix_factory.Float.{Float, Numpy, IsNum, Le, IsOrdered, clamp_num, clamp_num'}
use matrix_factory.Membrane.{equilibrium_water_content, step_membrane_hydration}

module _ {F : Type 0} ⦃fl : Float F⦄ where
  -- 1 ≤ λ ≤ 14.
  abbrev pub IsWaterContent : F → Type 0
  IsWaterContent x = Le (fl.lit 1 0) x × Le x (fl.lit 14 0)

module _ {F : Type 0} ⦃fl : Float F⦄ (np : Numpy F) (laws : IsOrdered F) where
  open laws use {lit_le}

  pub equilibrium_water_content-IsWaterContent :
      (a_water : F)
      → IsNum (equilibrium_water_content np a_water)
      → IsWaterContent (equilibrium_water_content np a_water)
  unfolding equilibrium_water_content
  equilibrium_water_content-IsWaterContent a_water n =
      clamp_num laws (fl.lit 1 0) (fl.lit 14 0) _ (lit_le 1 0 14 0 (omega arith)) n

  -- The water content after a step, if it is a number, is within [1, 14], whatever it was before and
  -- however long the step.
  pub step_membrane_hydration-IsWaterContent :
      (lambda_current activity_water dt : F)
      → IsNum (step_membrane_hydration np lambda_current activity_water dt)
      → IsWaterContent (step_membrane_hydration np lambda_current activity_water dt)
  unfolding step_membrane_hydration
  step_membrane_hydration-IsWaterContent lambda_current activity_water dt n =
      clamp_num' laws (fl.lit 1 0) (fl.lit 14 0) _ (lit_le 1 0 14 0 (omega arith)) n
