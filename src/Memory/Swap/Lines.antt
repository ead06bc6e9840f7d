-- ===== src/Memory/Swap/Lines.antt =====
-- One line of the swap file: what `strtok` and `atoi` read of what `pageToFile` printed.
use mathlib.Core.List.{append_assoc}
use cs3013_operating_systems.Prelude.{
  ℕ, zero, suc, ◌+◌, ◌*◌, ◌%◌, ◌^◌, ◌<◌, ◌≤◌, ◌≡◌, refl, ◌≢◌, some, List, [], ◌∷◌, ◌++◌, arith,
  length, length-append, All, All-append, All-mono,
}
use cs3013_operating_systems.Memory.State.{Machine, ok, pure, and_then, page_mem}
use cs3013_operating_systems.Memory.Text.{decimal, strtok, atoi, fgets, space, newline}
use cs3013_operating_systems.Memory.Text.Laws.{
  IsDigit, decimal-IsDigit, decimal-pos, length-decimal-le, atoi-decimal, strtok-append,
  fgets-append,
}
use cs3013_operating_systems.Memory.Swap.{bytes_text, token_values}

abbrev pub IsByte : ℕ → Type 0
IsByte b = b < 256

-- The characters of a number are not a space, and not a newline.
decimal-ne : (d n : ℕ) → d < 48 → All (λ c. c ≢ d) (decimal n)
decimal-ne d n h = All-mono IsDigit (decimal n) (λ c digit e. omega arith) (decimal-IsDigit n)

pub strtok-decimal :
    (n : ℕ) (rest : List ℕ) → strtok space (decimal n ++ (space ∷ rest)) ≡ some (decimal n, rest)
strtok-decimal n rest =
    strtok-append space (decimal n) rest (decimal-pos n) (decimal-ne space n (omega arith))

bytes_text-ne : (bs : List ℕ) → All (λ c. c ≢ newline) (bytes_text bs)
unfolding bytes_text
bytes_text-ne [] = tt
bytes_text-ne (b ∷ bs) =
    All-append (λ c. c ≢ newline) (decimal b) _ (decimal-ne newline b (omega arith))
      (omega arith, bytes_text-ne bs)

length-bytes_text : (bs : List ℕ) → All IsByte bs → length (bytes_text bs) ≤ 4 * length bs
unfolding bytes_text
length-bytes_text [] h = omega arith
length-bytes_text (b ∷ bs) h =
    rw length-append (omega (arith, length-decimal-le b 2 (omega arith), length-bytes_text bs h.1))

-- At least a digit and a space for each byte.
pub length-bytes_text-ge : (bs : List ℕ) → 2 * length bs ≤ length (bytes_text bs)
unfolding bytes_text
length-bytes_text-ge [] = omega arith
length-bytes_text-ge (b ∷ bs) =
    rw length-append (omega (arith, decimal-pos b, length-bytes_text-ge bs))

token_values-cons :
    (k b : ℕ) (rest : List ℕ) (m : Machine)
    → token_values (suc k) (decimal b ++ (space ∷ rest)) m
      ≡ and_then (token_values k rest m) (λ bs. pure ((b % 256) ∷ bs))
unfolding token_values
token_values-cons k b rest m = rw (strtok-decimal b rest, token_values) (rw (atoi-decimal b))

token_values-newline :
    (k : ℕ) (m : Machine) → token_values (suc (suc k)) (newline ∷ []) m ≡ ok (0 ∷ []) m
unfolding token_values strtok atoi
token_values-newline k m = refl

-- The values of a line's tokens: its bytes, and a zero for the newline that ends it.
pub token_values-bytes_text :
    (k : ℕ) (bs : List ℕ) (m : Machine)
    → length bs + 1 < k
    → All IsByte bs
    → token_values k (bytes_text bs ++ (newline ∷ [])) m ≡ ok (bs ++ (0 ∷ [])) m
unfolding bytes_text
token_values-bytes_text zero bs m l h = absurd (omega arith)
token_values-bytes_text (suc zero) bs m l h = absurd (omega arith)
token_values-bytes_text (suc (suc k)) [] m l h = token_values-newline k m
token_values-bytes_text (suc (suc k)) (b ∷ bs) m l h =
    let small : b % 256 ≡ b = omega arith in
    rw (
      append_assoc,
      token_values-cons,
      token_values-bytes_text (suc k) bs m (omega arith) h.1,
      small,
    )

-- What stands between the line number and the newline.
pub record IsPage (bs : List ℕ) : Type 0 where
  pub size : length bs ≡ page_mem
  pub bytes : All IsByte bs

-- A line that `pageToFile` printed, from its number on, is read by one `fgets`.
pub fgets-line :
    (lead : List ℕ) (n : ℕ) (bs rest : List ℕ)
    → length lead ≤ 1
    → All (λ c. c ≢ newline) lead
    → n < 10 ^ 10
    → IsPage bs
    → fgets 127 (lead ++ (decimal n ++ (space ∷ (bytes_text bs ++ (newline ∷ rest)))))
      ≡ some (lead ++ (decimal n ++ (space ∷ (bytes_text bs ++ (newline ∷ [])))), rest)
fgets-line lead n bs rest l hl hn page =
    rw (← regroup rest, ← regroup [])
      (fgets-append 127 (lead ++ (decimal n ++ (space ∷ bytes_text bs))) rest short (
        All-append (λ c. c ≢ newline) lead _ hl
          (All-append (λ c. c ≢ newline) (decimal n) _ (decimal-ne newline n (omega arith))
            (omega arith, bytes_text-ne bs))))
  where
    regroup :
        (r : List ℕ)
        → (lead ++ (decimal n ++ (space ∷ bytes_text bs))) ++ (newline ∷ r)
          ≡ lead ++ (decimal n ++ (space ∷ (bytes_text bs ++ (newline ∷ r))))
    regroup r = simp append_assoc

    short : length (lead ++ (decimal n ++ (space ∷ bytes_text bs))) < 127
    short =
        rw (length-append, length-append)
          (omega (arith, length-decimal-le n 9 hn, length-bytes_text bs page.bytes, page.size))
