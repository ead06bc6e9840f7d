-- ===== src/Prelude/Differences.antt =====
-- An integer as the difference of two numbers.
use Prim.Native.Nat.{ℕ, suc, ◌+◌}
use mathlib.Core.Path.{◌≡◌}
use mathlib.Core.Logic.{inl, inr}
use native.Mathlib.Omega.{arith}
use cs3013_operating_systems.Prelude.Signed.{ℤ, pos, negsuc, sub_ℕ, add_ℤ}
use cs3013_operating_systems.Prelude.Tests.{leb, Bool-cases}

-- `z` is `a` less `b`.
abbrev pub Difference : ℤ → ℕ → ℕ → Type 0
Difference (pos k) a b = k + b ≡ a
Difference (negsuc k) a b = a + k + 1 ≡ b

pub sub_ℕ-Difference : (a b : ℕ) → Difference (sub_ℕ a b) a b
sub_ℕ-Difference a b = elim (Bool-cases (leb b a)) [
  | inl e ↦ rw e (ground (arith, e))
  | inr e ↦ rw e (ground (arith, e))
]

pub sub_ℕ_of_le : (k b a : ℕ) → k + b ≡ a → sub_ℕ a b ≡ pos k
sub_ℕ_of_le k b a h = ground arith

sub_ℕ_of_lt : (k b a : ℕ) → a + k + 1 ≡ b → sub_ℕ a b ≡ negsuc k
sub_ℕ_of_lt k b a h = ground arith

pub Difference-unique : (z : ℤ) (a b : ℕ) → Difference z a b → sub_ℕ a b ≡ z
Difference-unique (pos k) a b h = sub_ℕ_of_le k b a h
Difference-unique (negsuc k) a b h = sub_ℕ_of_lt k b a h

-- A difference may be shifted.
pub shift_Difference : (z : ℤ) (a b c d : ℕ) → a + d ≡ c + b → Difference z a b → Difference z c d
shift_Difference (pos k) a b c d e h = omega arith
shift_Difference (negsuc k) a b c d e h = omega arith

pub add_ℤ-Difference :
    (z w : ℤ) (a b c d : ℕ)
    → Difference z a b
    → Difference w c d
    → Difference (add_ℤ z w) (a + c) (b + d)
add_ℤ-Difference (pos k) (pos l) a b c d h h' = omega arith
add_ℤ-Difference (negsuc k) (pos l) a b c d h h' =
    shift_Difference (sub_ℕ l (suc k)) l (suc k) (a + c) (b + d) (omega arith)
      (sub_ℕ-Difference l (suc k))
add_ℤ-Difference (pos k) (negsuc l) a b c d h h' =
    shift_Difference (sub_ℕ k (suc l)) k (suc l) (a + c) (b + d) (omega arith)
      (sub_ℕ-Difference k (suc l))
add_ℤ-Difference (negsuc k) (negsuc l) a b c d h h' = omega arith
