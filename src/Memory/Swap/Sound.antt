-- ===== src/Memory/Swap/Sound.antt =====
-- The machine's soundness through the swap file operations of project4/memory.c.
use cs3013_operating_systems.Prelude.{
  ℕ, zero, suc, ◌+◌, ◌<◌, List, [], ◌∷◌, arith, ℤ, pos, negsuc, length, All, Bool-cases,
  Option-cases, inl, inr, Option, some, none, eq_ℤ, offset, to_uchar,
}
use cs3013_operating_systems.Memory.State.{Machine, Run, fault, page_mem, pure, ◌>>=◌, ◌>>◌}
use cs3013_operating_systems.Memory.Text.{strtok, fgets, atoi, space}
use cs3013_operating_systems.Memory.Text.Shrink.{length-strtok-lt, length-fgets-lt}
use cs3013_operating_systems.Memory.Sound.{
  At, Ends, returns, faults, hangs, Any, bind, Ends-if, read_mem-At, write_mem-At,
}
use cs3013_operating_systems.Memory.Swap.{
  read_bytes, page_to_file, find_line, token_values, read_line, page_from_file, count_overruns,
  swap_loop, swap_to_mem, is_above,
}
use cs3013_operating_systems.Memory.Swap.Lines.{IsByte}

pub to_uchar-IsByte : (a : ℤ) → IsByte (to_uchar a)
to_uchar-IsByte (pos a) = omega arith
to_uchar-IsByte (negsuc a) = omega arith

read_bytes-At :
    {r : ℕ} (n : ℕ) (base : ℤ) (i : ℕ) {m : Machine}
    → At r m
    → Ends (At r) Any (read_bytes n base i m)
unfolding read_bytes
read_bytes-At zero base i h = returns h tt
read_bytes-At (suc n) base i h =
    bind (read_mem-At h (offset base i))
      λ b m₁ h₁ _. bind (read_bytes-At n base (i + 1) h₁) λ rest m₂ h₂ _. returns h₂ tt

pub page_to_file-At :
    {r : ℕ} {m : Machine} (n : ℕ) (base : ℤ) → At r m → Ends (At r) Any (page_to_file n base m)
unfolding page_to_file
page_to_file-At n base h =
    bind (read_bytes-At page_mem base 0 h) λ bytes m₁ h₁ _. returns (search h₁) tt

find_line-At :
    {r : ℕ} {m : Machine} (k : ℕ) (n : ℤ) (file : List ℕ)
    → length file < k
    → At r m
    → Ends (At r) Any (find_line k n file m)
unfolding find_line
find_line-At zero n file enough h = absurd (omega arith)
find_line-At {m} (suc k) n file enough h = elim (Option-cases (fgets 127 file)) [
  | inl e ↦ rw (e, find_line) hangs
  | inr ((line, rest), e) ↦
      rw (e, find_line)
        (elim (Option-cases (strtok space line)) [
          | inl e' ↦ rw (e', find_line) faults
          | inr ((token, after), e') ↦
              rw (e', find_line)
                (elim (Bool-cases (eq_ℤ (atoi token) n)) [
                  | inl same ↦ rw (same, find_line) (returns h tt)
                  | inr other ↦
                      rw (other, find_line)
                        (find_line-At k n rest (omega (arith, length-fgets-lt 126 file line rest e))
                          h)
                ])
        ])
]

token_values-At :
    {r : ℕ} {m : Machine} (k : ℕ) (line : List ℕ)
    → length line < k
    → At r m
    → Ends (At r) (All IsByte) (token_values k line m)
unfolding token_values
token_values-At zero line enough h = absurd (omega arith)
token_values-At (suc k) line enough h = elim (Option-cases (strtok space line)) [
  | inl e ↦ rw (e, token_values) (returns h tt)
  | inr ((token, after), e) ↦
      rw (e, token_values)
        (bind (token_values-At k after (omega (arith, length-strtok-lt space line token after e)) h)
          λ rest m₁ h₁ bytes. returns h₁ (to_uchar-IsByte (atoi token), bytes))
]

read_line-At : {r : ℕ} {m : Machine} (n : ℤ) → At r m → Ends (At r) (All IsByte) (read_line n m)
unfolding read_line
read_line-At {m} n h =
    bind (find_line-At (length m.swapspace + 1) n m.swapspace (omega arith) h)
      λ after m₁ h₁ _. token_values-At (length after + 1) after (omega arith) h₁

-- the buffer, where it is written
abbrev pub Buffer : Option (List ℕ) → Type 0
Buffer none = Unit
Buffer (some bytes) = All IsByte bytes

pub page_from_file-At :
    {r : ℕ} {m : Machine} (n : ℤ) → At r m → Ends (At r) Buffer (page_from_file n m)
unfolding page_from_file count_overruns
page_from_file-At {r} {m} n h =
    Ends-if (is_above n m.linecount) _ _ (returns (search h) tt) (from_file m.swapspace)
  where
    from_file :
        (file : List ℕ)
        → Ends (At r) Buffer (
            let run : Run (Option (List ℕ)) = elim file [
              | [] ↦ fault
              | _ ↦ (do bytes ← read_line n; count_overruns bytes; pure (some bytes)) m
            ] in
            run)
    from_file [] = faults
    from_file (c ∷ cs) =
        bind (read_line-At n h) λ bytes m₁ h₁ all_bytes. returns (search h₁) all_bytes

swap_loop-At :
    {r : ℕ} {m : Machine} (n : ℕ) (temp : List ℕ) (base : ℤ) (i : ℕ)
    → All IsByte temp
    → At r m
    → Ends (At r) Any (swap_loop n temp base i m)
unfolding swap_loop
swap_loop-At zero temp base i bytes h = returns h tt
swap_loop-At (suc n) [] base i bytes h = faults
swap_loop-At (suc n) (b ∷ temp) base i bytes h =
    bind (write_mem-At h (offset base i) b bytes.0)
      λ u m₁ h₁ _. swap_loop-At n temp base (i + 1) bytes.1 h₁

pub swap_to_mem-At :
    {r : ℕ} {m : Machine} (temp : List ℕ) (base : ℤ)
    → All IsByte temp
    → At r m
    → Ends (At r) Any (swap_to_mem temp base m)
unfolding swap_to_mem
swap_to_mem-At temp base bytes h = swap_loop-At page_mem temp base 0 bytes h
