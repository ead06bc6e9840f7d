-- ===== src/Bathroom/Rand/Tests.antt =====
-- The random times of project3/bathroom.c with numbers counted in halves.
use cs3013_operating_systems.Prelude.{
  ◌≡◌, refl, Bool, true, false, not, arith, ℤ, pos, negsuc, add_ℤ, lt_ℤ, ap,
}
use cs3013_operating_systems.Bathroom.Rand.{RealDouble}
use cs3013_operating_systems.Bathroom.Rand.Range.{IsOrdered}

abbrev le_ℤ : ℤ → ℤ → Bool
le_ℤ x y = not (lt_ℤ y x)

-- `n` stands for n / 2. The functions of math.h are replaced by simple ones.
abbrev halves : RealDouble ℤ
halves = record {
  zero = pos 0;
  half = pos 1;
  one = pos 2;
  two = pos 4;
  minus_two = negsuc 3;
  pi = pos 6;
  add = add_ℤ;
  mul = λ x y. add_ℤ x y;
  divide = λ x y. x;
  sqrt = λ x. x;
  log = λ x. x;
  cos = λ x. x;
  le = le_ℤ;
  lt = lt_ℤ;
}

total_halves : (x y : ℤ) → le_ℤ x y ≡ false → lt_ℤ y x ≡ true
total_halves (pos x) (pos y) h = ground arith
total_halves (pos x) (negsuc y) h = refl
total_halves (negsuc x) (pos y) h = ground arith
total_halves (negsuc x) (negsuc y) h = ground arith

lt_or_le_halves : (x y : ℤ) → lt_ℤ x y ≡ false → le_ℤ y x ≡ true
lt_or_le_halves x y h = ap not h

add_half_halves : (x : ℤ) → lt_ℤ (pos 0) x ≡ true → le_ℤ (pos 1) (add_ℤ x (pos 1)) ≡ true
add_half_halves (pos x) h = ground arith
add_half_halves (negsuc x) h = ground arith

le_trans_halves : (x y z : ℤ) → le_ℤ x y ≡ true → le_ℤ y z ≡ true → le_ℤ x z ≡ true
le_trans_halves (pos x) (pos y) (pos z) h k = ground arith
le_trans_halves (pos x) (pos y) (negsuc z) h k = ground arith
le_trans_halves (pos x) (negsuc y) z h k = ground arith
le_trans_halves (negsuc x) (pos y) (pos z) h k = ground arith
le_trans_halves (negsuc x) (pos y) (negsuc z) h k = ground arith
le_trans_halves (negsuc x) (negsuc y) (pos z) h k = ground arith
le_trans_halves (negsuc x) (negsuc y) (negsuc z) h k = ground arith

halves-IsOrdered : IsOrdered halves (λ x. false)
halves-IsOrdered = record {
  total = λ x y hx hy h. total_halves x y h;
  lt_or_le = λ x y hx hy h. lt_or_le_halves x y h;
  add_half = λ x hx h. add_half_halves x h;
  half_one = refl;
  le_trans = le_trans_halves;
  zero_number = refl;
  one_number = refl;
}
