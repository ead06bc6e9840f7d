-- ===== src/Bathroom/Rand/Range.antt =====
-- The range of the random times of project3/bathroom.c.
use cs3013_operating_systems.Prelude.{◌≡◌, Bool, true, false, Bool-cases, inl, inr}
use cs3013_operating_systems.Bathroom.Rand.{
  RealDouble, at_least, generate_standard_rand, box_muller,
}

-- What IEEE 754 says of the comparisons and of a sum with a half: numbers that are not NaN are
-- comparable, and a sum with a half is at least a half where the other number is positive.
pub record IsOrdered {ℓ} {F : Type ℓ} (d : RealDouble F) (is_nan : F → Bool) : Type ℓ where
  pub total : (x y : F) → is_nan x ≡ false → is_nan y ≡ false → d.le x y ≡ false → d.lt y x ≡ true
  pub lt_or_le :
      (x y : F) → is_nan x ≡ false → is_nan y ≡ false → d.lt x y ≡ false → d.le y x ≡ true
  pub add_half :
      (x : F) → is_nan x ≡ false → d.lt d.zero x ≡ true → d.le d.half (d.add x d.half) ≡ true
  pub half_one : d.le d.half d.one ≡ true
  pub le_trans : (x y z : F) → d.le x y ≡ true → d.le y z ≡ true → d.le x z ≡ true
  pub zero_number : is_nan d.zero ≡ false
  pub one_number : is_nan d.one ≡ false

module _ {ℓ} {F : Type ℓ} (d : RealDouble F) (is_nan : F → Bool) (o : IsOrdered d is_nan) where
  at_least-half : (x : F) → is_nan x ≡ false → d.le d.half (at_least d x) ≡ true
  unfolding at_least
  at_least-half x number = elim (Bool-cases (d.le x d.zero)) [
    | inl low ↦ rw low o.half_one
    | inr above ↦ elim (Bool-cases (d.lt x d.one)) [
      | inl small ↦
          rw above (rw small (o.add_half x number (o.total x d.zero number o.zero_number above)))
      | inr large ↦ rw above (
          rw large
            (o.le_trans d.half d.one x o.half_one (o.lt_or_le x d.one number o.one_number large)))
    ]
  ]

  -- Where the number before the tests is not NaN, the random number is at least a half, whatever the mean.
  pub generate_standard_rand-half :
      (mean a b : F)
      → is_nan (d.add (d.mul (d.divide mean d.two) (box_muller d a b)) mean) ≡ false
      → d.le d.half (generate_standard_rand d mean a b) ≡ true
  unfolding generate_standard_rand
  generate_standard_rand-half mean a b number = at_least-half _ number
