-- ===== src/Bathroom/Rand.antt =====
-- `generateStandardRand` of project3/bathroom.c, over the operations of `double`, those of math.h and
-- the two numbers from `drand48` as parameters.
pub mod Range
mod Tests
use cs3013_operating_systems.Prelude.{Bool, if◌then◌else◌}

-- What the function uses of `double` and of math.h.
pub record RealDouble {ℓ} (F : Type ℓ) : Type ℓ where
  pub zero : F
  pub half : F
  pub one : F
  pub two : F
  pub minus_two : F
  pub pi : F
  pub add : F → F → F
  pub mul : F → F → F
  pub divide : F → F → F
  pub sqrt : F → F
  pub log : F → F
  pub cos : F → F
  pub le : F → F → Bool
  pub lt : F → F → Bool

module _ {ℓ} {F : Type ℓ} (d : RealDouble F) where
  -- The Box-Muller transformation.
  unfoldable pub box_muller : (a b : F) → F
  box_muller a b = d.mul (d.sqrt (d.mul d.minus_two (d.log a))) (d.cos (d.mul (d.mul d.two d.pi) b))

  -- The tests at the end.
  unfoldable pub at_least : F → F
  at_least standrand =
      if d.le standrand d.zero
      then d.one
      else if d.lt standrand d.one
      then d.add standrand d.half
      else standrand

  unfoldable pub generate_standard_rand : (mean a b : F) → F
  unfolding at_least box_muller
  generate_standard_rand mean a b =
      let random = box_muller a b in
      let stddev = d.divide mean d.two in at_least (d.add (d.mul stddev random) mean)
