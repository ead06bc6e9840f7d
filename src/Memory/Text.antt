-- ===== src/Memory/Text.antt =====
-- What project4/memory.c uses of stdio, strtok and atoi, over lists of byte codes.
pub mod Laws
pub mod Shrink
use Prim.Native.Nat.{min}
use mathlib.Core.WellFounded.{Acc}
use cs3013_operating_systems.Prelude.{
  ℕ, zero, suc, ◌+◌, ◌-◌, ◌*◌, ◌/◌, ◌%◌, ◌<◌, ◌≤◌, Bool, true, false, ◌&&◌, ◌||◌, Option, none,
  some, List, [], ◌∷◌, ◌++◌, if◌then◌else◌, leb, ◌==◌, dite, dec_lt, arith, ℤ, pos, negsuc, sub_ℕ,
}
use cs3013_operating_systems.Prelude.Order.{lt_wf}

abbrev pub space : ℕ
space = 32

abbrev pub newline : ℕ
newline = 10

div_ten-lt : (n : ℕ) → ¬ (n < 10) → n / 10 < n
div_ten-lt n big = omega arith

-- `%d` and `%u` of a number that is not negative
decimal_acc : (n : ℕ) → Acc ◌<◌ n → List ℕ
decimal_acc n (Acc.intro _ smaller) =
    dite (dec_lt n 10) (λ _. (48 + n) ∷ [])
      (λ big. decimal_acc (n / 10) (smaller (n / 10) (div_ten-lt n big)) ++ ((48 + n % 10) ∷ []))

unfoldable pub decimal : ℕ → List ℕ
unfolding div_ten-lt decimal_acc lt_wf dec_lt
decimal n = decimal_acc n (lt_wf.apply n)

abbrev pub is_digit : ℕ → Bool
is_digit c = leb 48 c && leb c 57

-- `isspace` in the C locale
abbrev pub is_space : ℕ → Bool
is_space c = c == space || (leb 9 c && leb c 13)

unfoldable pub digits_value : ℕ → List ℕ → ℕ
digits_value acc [] = acc
digits_value acc (c ∷ cs) =
    let rest = digits_value (acc * 10 + (c - 48)) cs in if is_digit c then rest else acc

unfoldable pub signed_value : List ℕ → ℤ
unfolding digits_value
signed_value [] = pos 0
signed_value (c ∷ cs) =
    if c == b'-'
    then sub_ℕ 0 (digits_value 0 cs)
    else if c == b'+'
    then pos (digits_value 0 cs)
    else pos (digits_value 0 (c ∷ cs))

-- `atoi`: white space, a sign, and the digits up to the first other character
unfoldable pub atoi : List ℕ → ℤ
unfolding signed_value
atoi [] = pos 0
atoi (c ∷ cs) = let rest = atoi cs in if is_space c then rest else signed_value (c ∷ cs)

-- The characters up to a delimiter, and what follows it.
unfoldable pub until : ℕ → List ℕ → List ℕ × List ℕ
until d [] = ([], [])
until d (c ∷ cs) = let (t, rest) = until d cs in if c == d then ([], cs) else (c ∷ t, rest)

-- `strtok` with one delimiter: it skips delimiters, and returns NULL where no character is left.
unfoldable pub strtok : ℕ → List ℕ → Option (List ℕ × List ℕ)
unfolding until
strtok d [] = none
strtok d (c ∷ cs) = let rest = strtok d cs in if c == d then rest else some (until d (c ∷ cs))

-- `fgets(line, n + 1, f)`: at most `n` characters, up to the newline and with it
fgets_loop : ℕ → List ℕ → List ℕ × List ℕ
fgets_loop zero cs = ([], cs)
fgets_loop (suc n) [] = ([], [])
fgets_loop (suc n) (c ∷ cs) =
    let (l, rest) = fgets_loop n cs in if c == newline then (c ∷ [], cs) else (c ∷ l, rest)

-- `none` at the end of the file
unfoldable pub fgets : ℕ → List ℕ → Option (List ℕ × List ℕ)
unfolding fgets_loop
fgets n [] = none
fgets n (c ∷ cs) = some (fgets_loop n (c ∷ cs))

-- The C string in an array: what stands before the first zero.
abbrev pub c_string : List ℕ → List ℕ
c_string buf = (until 0 buf).0
