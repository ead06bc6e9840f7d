-- ===== src/Memory/Text/Laws.antt =====
-- Printing and reading numbers, and cutting a text into tokens and lines.
use mathlib.Core.WellFounded.{Acc}
use native.Mathlib.Bridge.{le_prop}
use native.Mathlib.Nat.{pow-suc}
use cs3013_operating_systems.Prelude.{
  ℕ, zero, suc, ◌+◌, ◌-◌, ◌*◌, ◌/◌, ◌%◌, ◌<◌, ◌≤◌, ◌≡◌, refl, ◌≢◌, ◌∙◌, ap, some, List, [], ◌∷◌,
  ◌++◌, arith, dec_lt, pos, length, length-append, All, All-append, dif_pos, dif_neg, ◌^◌,
}
use cs3013_operating_systems.Prelude.Order.{lt_wf}
use cs3013_operating_systems.Memory.Text.{
  div_ten-lt, decimal_acc, decimal, digits_value, atoi, until, strtok, fgets_loop, fgets, newline,
}

abbrev pub IsDigit : ℕ → Type 0
IsDigit c = (48 ≤ c) × (c ≤ 57)

-- Induction over the digits of a number.
decimal_acc_ind :
    (P : ℕ → List ℕ → Type 0)
    → ((n : ℕ) → n < 10 → P n ((48 + n) ∷ []))
    → ((n : ℕ) (ds : List ℕ) → ¬ (n < 10) → P (n / 10) ds → P n (ds ++ ((48 + n % 10) ∷ [])))
    → (n : ℕ) (w : Acc ◌<◌ n) → P n (decimal_acc n w)
unfolding decimal_acc
decimal_acc_ind P small big n (Acc.intro _ smaller) = elim (dec_lt n 10) [
  | yes p ↦ rw (dif_pos (dec_lt n 10) le_prop p) (small n p)
  | no p ↦
      rw (dif_neg (dec_lt n 10) p)
        (big n _ p (decimal_acc_ind P small big (n / 10) (smaller (n / 10) (div_ten-lt n p))))
]

decimal_ind :
    (P : ℕ → List ℕ → Type 0)
    → ((n : ℕ) → n < 10 → P n ((48 + n) ∷ []))
    → ((n : ℕ) (ds : List ℕ) → ¬ (n < 10) → P (n / 10) ds → P n (ds ++ ((48 + n % 10) ∷ [])))
    → (n : ℕ) → P n (decimal n)
unfolding decimal
decimal_ind P small big n = decimal_acc_ind P small big n (lt_wf.apply n)

pub decimal-IsDigit : (n : ℕ) → All IsDigit (decimal n)
decimal-IsDigit =
    decimal_ind (λ n ds. All IsDigit ds) (λ n h. ((omega arith, omega arith), tt))
      (λ n ds h ih. All-append IsDigit _ _ ih ((omega arith, omega arith), tt))

pub decimal-pos : (n : ℕ) → 0 < length (decimal n)
decimal-pos =
    decimal_ind (λ n ds. 0 < length ds) (λ n h. omega arith)
      (λ n ds h ih. rw length-append (omega arith))

-- A number below `10 ^ k` has at most `k` digits.
pub length-decimal-le : (n k : ℕ) → n < 10 ^ suc k → length (decimal n) ≤ suc k
length-decimal-le =
    decimal_ind (λ n ds. (k : ℕ) → n < 10 ^ suc k → length ds ≤ suc k) (λ n h k b. omega arith) step
  where
    step :
        (n : ℕ) (ds : List ℕ)
        → ¬ (n < 10)
        → ((k : ℕ) → n / 10 < 10 ^ suc k → length ds ≤ suc k)
        → (k : ℕ) → n < 10 ^ suc k
        → length (ds ++ ((48 + n % 10) ∷ [])) ≤ suc k
    step n ds h ih zero b = absurd (omega arith)
    step n ds h ih (suc k) b =
        rw length-append (omega (arith, ih k (omega (arith, pow-suc 10 (suc k)))))

-- The value of digits in front of other characters.
digits_value-append :
    (acc : ℕ) (ds cs : List ℕ)
    → All IsDigit ds
    → digits_value acc (ds ++ cs) ≡ digits_value (digits_value acc ds) cs
unfolding digits_value
digits_value-append acc [] cs h = refl
digits_value-append acc (d ∷ ds) cs h =
    ground (arith, digits_value-append (acc * 10 + (d - 48)) ds cs h.1)

digits_value-decimal : (n : ℕ) → digits_value 0 (decimal n) ≡ n
digits_value-decimal n = (both n).1
  where
    step :
        (n : ℕ) (ds : List ℕ)
        → All IsDigit ds × (digits_value 0 ds ≡ n / 10)
        → digits_value 0 (ds ++ ((48 + n % 10) ∷ [])) ≡ n
    step n ds ih = rw (digits_value-append 0 ds _ ih.0, ih.1) (unfold digits_value in ground arith)

    both : (n : ℕ) → All IsDigit (decimal n) × (digits_value 0 (decimal n) ≡ n)
    both =
        decimal_ind (λ n ds. All IsDigit ds × (digits_value 0 ds ≡ n))
          (λ n h. (((omega arith, omega arith), tt), unfold digits_value in ground arith))
          (λ n ds h ih.
            (All-append IsDigit _ _ ih.0 ((omega arith, omega arith), tt), step n ds ih))

atoi-digits : (ds : List ℕ) → All IsDigit ds → atoi ds ≡ pos (digits_value 0 ds)
unfolding atoi
atoi-digits [] h = refl
atoi-digits (d ∷ ds) h = ground arith

-- `atoi` reads back what `%d` printed.
pub atoi-decimal : (n : ℕ) → atoi (decimal n) ≡ pos n
atoi-decimal n = atoi-digits (decimal n) (decimal-IsDigit n) ∙ ap pos (digits_value-decimal n)

until-append :
    (d : ℕ) (t rest : List ℕ) → All (λ c. c ≢ d) t → until d (t ++ (d ∷ rest)) ≡ (t, rest)
unfolding until
until-append d [] rest h = ground arith
until-append d (c ∷ t) rest h = ground (arith, until-append d t rest h.1)

-- A token that ends at a delimiter.
pub strtok-append :
    (d : ℕ) (t rest : List ℕ)
    → 0 < length t
    → All (λ c. c ≢ d) t
    → strtok d (t ++ (d ∷ rest)) ≡ some (t, rest)
unfolding strtok
strtok-append d [] rest p h = absurd (omega arith)
strtok-append d (c ∷ t) rest p h = ground (arith, h.0, until-append d t rest h.1)

pub strtok-cons : (d : ℕ) (s : List ℕ) → strtok d (d ∷ s) ≡ strtok d s
unfolding strtok
strtok-cons d s = ground arith

-- A line that fits in the buffer.
fgets_loop-append :
    (n : ℕ) (t rest : List ℕ)
    → length t < n
    → All (λ c. c ≢ newline) t
    → fgets_loop n (t ++ (newline ∷ rest)) ≡ (t ++ (newline ∷ []), rest)
unfolding fgets_loop
fgets_loop-append zero t rest l h = absurd (omega arith)
fgets_loop-append (suc n) [] rest l h = refl
fgets_loop-append (suc n) (c ∷ t) rest l h =
    ground (arith, h.0, fgets_loop-append n t rest (omega arith) h.1)

pub fgets-append :
    (n : ℕ) (t rest : List ℕ)
    → length t < n
    → All (λ c. c ≢ newline) t
    → fgets n (t ++ (newline ∷ rest)) ≡ some (t ++ (newline ∷ []), rest)
unfolding fgets
fgets-append n [] rest l h = ap some (fgets_loop-append n [] rest l h)
fgets-append n (c ∷ t) rest l h = ap some (fgets_loop-append n (c ∷ t) rest l h)

pub until_undelimited : (d : ℕ) (t : List ℕ) → All (λ c. c ≢ d) t → until d t ≡ (t, [])
unfolding until
until_undelimited d [] h = refl
until_undelimited d (c ∷ t) h = ground (arith, h.0, until_undelimited d t h.1)

-- The last token, which no delimiter ends.
pub strtok_last :
    (d : ℕ) (t : List ℕ) → 0 < length t → All (λ c. c ≢ d) t → strtok d t ≡ some (t, [])
unfolding strtok
strtok_last d [] p h = absurd (omega arith)
strtok_last d (c ∷ t) p h = ground (arith, h.0, until_undelimited d (c ∷ t) h)

atoi_digits_line :
    (ds : List ℕ)
    → 0 < length ds
    → All IsDigit ds
    → atoi (ds ++ (newline ∷ [])) ≡ pos (digits_value 0 ds)
unfolding atoi digits_value
atoi_digits_line [] p h = absurd (omega arith)
atoi_digits_line (d ∷ ds) p h =
    let value : digits_value 0 (d ∷ (ds ++ (newline ∷ []))) ≡ digits_value 0 (d ∷ ds) =
      digits_value-append 0 (d ∷ ds) (newline ∷ []) h in
    ground (arith, value)

-- `atoi` stops at the newline behind a number.
pub atoi_line : (n : ℕ) → atoi (decimal n ++ (newline ∷ [])) ≡ pos n
atoi_line n =
    atoi_digits_line (decimal n) (decimal-pos n) (decimal-IsDigit n)
    ∙ ap pos (digits_value-decimal n)
