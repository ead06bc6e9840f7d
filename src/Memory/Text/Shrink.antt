-- ===== src/Memory/Text/Shrink.antt =====
-- The lengths of what `strtok` and `fgets` leave.
use cs3013_operating_systems.Prelude.{
  ℕ, zero, suc, ◌≤◌, ◌<◌, ◌≡◌, some, none, List, [], ◌∷◌, arith, length, ◌==◌, Bool-cases, inl, inr,
  subst, Option,
}
use cs3013_operating_systems.Memory.Text.{until, strtok, fgets_loop, fgets}

rest_of :
    {p : List ℕ × List ℕ} {t rest : List ℕ} {n : ℕ}
    → some p ≡ some (t, rest)
    → length p.1 < n
    → length rest < n
rest_of {p} {t} {rest} {n} e h = subst (λ q. length (rest_or [] q) < n) e h
  where
    rest_or : List ℕ → Option (List ℕ × List ℕ) → List ℕ
    rest_or d none = d
    rest_or d (some q) = q.1

length-until-le : (d : ℕ) (s : List ℕ) → length (until d s).1 ≤ length s
unfolding until
length-until-le d [] = omega arith
length-until-le d (c ∷ cs) = ground (arith, length-until-le d cs)

pub length-strtok-lt :
    (d : ℕ) (s t rest : List ℕ) → strtok d s ≡ some (t, rest) → length rest < length s
unfolding strtok
length-strtok-lt d [] t rest e = cc
length-strtok-lt d (c ∷ cs) t rest e = elim (Bool-cases (c == d)) [
  | inl skip ↦ omega (arith, length-strtok-lt d cs t rest (rw skip at e))
  | inr start ↦ rest_of (rw start at e) (omega (arith, length-until-le d cs))
]

length-fgets_loop-le : (n : ℕ) (s : List ℕ) → length (fgets_loop n s).1 ≤ length s
unfolding fgets_loop
length-fgets_loop-le zero s = omega arith
length-fgets_loop-le (suc n) [] = omega arith
length-fgets_loop-le (suc n) (c ∷ cs) = ground (arith, length-fgets_loop-le n cs)

fgets_loop-lt : (n c : ℕ) (cs : List ℕ) → length (fgets_loop (suc n) (c ∷ cs)).1 < length (c ∷ cs)
unfolding fgets_loop
fgets_loop-lt n c cs = ground (arith, length-fgets_loop-le n cs)

pub length-fgets-lt :
    (n : ℕ) (s line rest : List ℕ) → fgets (suc n) s ≡ some (line, rest) → length rest < length s
unfolding fgets
length-fgets-lt n [] line rest e = cc
length-fgets-lt n (c ∷ cs) line rest e = rest_of e (fgets_loop-lt n c cs)
