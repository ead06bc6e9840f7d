-- ===== src/Memory/Swap.antt =====
-- The swap file of project4/memory.c: `pageToFile`, `pageFromFile` and `swaptomem`. `pageFromFile` writes
-- to a local array of its caller, and a write behind that array is no fault, but is counted.
pub mod Lines
pub mod Copy
pub mod RoundTrip
pub mod Sound
use cs3013_operating_systems.Prelude.{
  ℕ, zero, suc, ◌+◌, ◌-◌, Bool, true, false, Option, none, some, List, [], ◌∷◌, ◌++◌, if◌then◌else◌,
  ltb, length, ℤ, pos, negsuc, offset, eq_ℤ, to_uchar, arith,
}
use cs3013_operating_systems.Memory.State.{
  Machine, Run, ok, fault, hang, out_of_fuel, Cmd, pure, ◌>>=◌, ◌>>◌, page_mem, read_mem, write_mem,
  print, line_not_found,
}
use cs3013_operating_systems.Memory.Text.{decimal, space, newline, fgets, strtok, atoi}

-- The bytes `mem[base + i]`, …, `n` of them.
unfoldable pub read_bytes : ℕ → ℤ → ℕ → Cmd (List ℕ)
read_bytes zero base i = pure []
read_bytes (suc n) base i = do
  b ← read_mem (offset base i)
  rest ← read_bytes n base (i + 1)
  pure (b ∷ rest)

-- `"%u "` for each byte
unfoldable pub bytes_text : List ℕ → List ℕ
bytes_text [] = []
bytes_text (b ∷ bs) = decimal b ++ (space ∷ bytes_text bs)

-- What one call of `pageToFile` appends: `"%d "`, the bytes, `"%c "` with a newline.
unfoldable pub page_line : ℕ → List ℕ → List ℕ
unfolding bytes_text
page_line linenum bytes = decimal linenum ++ (space ∷ (bytes_text bytes ++ (newline ∷ space ∷ [])))

unfoldable pub append_swapspace : List ℕ → Cmd (Unit {0})
append_swapspace text m = ok tt (record m { swapspace = m.swapspace ++ text })

unfoldable pub page_to_file : ℕ → ℤ → Cmd ℕ
unfolding read_bytes page_line append_swapspace
page_to_file linenum base = do
  bytes ← read_bytes page_mem base 0
  append_swapspace (page_line linenum bytes)
  pure linenum

-- The search for the line that begins with `linenum`: what follows its number. At the end of the
-- file `fgets` leaves the last line where it is, and the search never ends.
unfoldable pub find_line : ℕ → ℤ → List ℕ → Cmd (List ℕ)
find_line zero linenum file = λ _. out_of_fuel
find_line (suc k) linenum file = elim (fgets 127 file) [
  | none ↦ λ _. hang
  | some (line, rest) ↦ elim (strtok space line) [
    | none ↦ λ _. fault
    | some (token, after) ↦ elim (eq_ℤ (atoi token) linenum) [
      | true ↦ pure after
      | false ↦ find_line k linenum rest
    ]
  ]
]

-- `while (token != NULL)`: the values of the tokens that are left
unfoldable pub token_values : ℕ → List ℕ → Cmd (List ℕ)
token_values zero line = λ _. out_of_fuel
token_values (suc k) line = elim (strtok space line) [
  | none ↦ pure []
  | some (token, after) ↦ do rest ← token_values k after; pure (to_uchar (atoi token) ∷ rest)
]

unfoldable pub read_line : ℤ → Cmd (List ℕ)
unfolding find_line token_values
read_line linenum m =
    (do
      after ← find_line (length m.swapspace + 1) linenum m.swapspace
      token_values (length after + 1) after)
      m

-- `linenum > linecount`
abbrev is_above : ℤ → ℕ → Bool
is_above (pos a) n = ltb n a
is_above (negsuc _) n = false

-- The buffer has `page_mem` bytes: the values from there on are written behind it.
count_overruns : List ℕ → Cmd (Unit {0})
count_overruns bytes m = ok tt (record m { overruns = m.overruns + (length bytes - page_mem) })

-- What is written to the buffer and behind it, or `none` where the line is refused and the buffer left
-- as it is.
-- With an empty file the first line is read from an array that nothing was written to.
unfoldable pub page_from_file : ℤ → Cmd (Option (List ℕ))
unfolding read_line count_overruns
page_from_file linenum m =
    if is_above linenum m.linecount
    then (print (line_not_found linenum) >> pure none) m
    else elim m.swapspace [
      | [] ↦ fault
      | _ ↦ (do bytes ← read_line linenum; count_overruns bytes; pure (some bytes)) m
    ]

-- `swaptomem`: `n` bytes of the buffer go to `mem[base + i]`, …. A byte that was never written to
-- the buffer is a fault.
swap_loop : ℕ → List ℕ → ℤ → ℕ → Cmd (Unit {0})
swap_loop zero temp base i = pure tt
swap_loop (suc n) [] base i = λ _. fault
swap_loop (suc n) (b ∷ temp) base i = do write_mem (offset base i) b; swap_loop n temp base (i + 1)

unfoldable pub swap_to_mem : List ℕ → ℤ → Cmd (Unit {0})
unfolding swap_loop
swap_to_mem temp base = swap_loop page_mem temp base 0
