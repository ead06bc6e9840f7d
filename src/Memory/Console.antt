-- ===== src/Memory/Console.antt =====
-- `main` of project4/memory.c: the instructions read from standard input.
pub mod Line
pub mod Rounds
pub mod Sound
use cs3013_operating_systems.Prelude.{
  ℕ, zero, suc, ◌+◌, ◌-◌, ◌%◌, Bool, true, false, ◌||◌, Option, none, some, List, [], ◌∷◌,
  if◌then◌else◌, ltb, ◌==◌, length, to_uchar, minus_one, map as each,
}
use cs3013_operating_systems.Memory.State.{
  Machine, Hp, Place, ok, fault, out_of_fuel, Cmd, pure, ◌>>=◌, ◌>>◌, print, bad_pid, bad_vaddr,
  bad_input,
}
use cs3013_operating_systems.Memory.Text.{newline, fgets, strtok, atoi, c_string}
use cs3013_operating_systems.Memory.Commands.{map, store, load}

-- What a line of input holds: the process, the letter of the command, the address and the value,
-- each as an `unsigned char`.
pub record Instruction : Type 0 where
  pub pid : ℕ
  pub letter : ℕ
  pub vaddr : ℕ
  pub val : ℕ

abbrev pub comma : ℕ
comma = b','

abbrev pub token : List ℕ → Option (List ℕ × List ℕ)
token = strtok comma

abbrev pub first : List ℕ → ℕ
first [] = 0
first (c ∷ cs) = c

-- The tokens of a line. `none` is a null token, which the program reads through.
unfoldable pub parse : List ℕ → Option Instruction
parse str = elim (token str) [
  | none ↦ none
  | some (p, s₁) ↦ elim (token s₁) [
    | none ↦ none
    | some (c, s₂) ↦ elim (token s₂) [
      | none ↦ none
      | some (v, s₃) ↦ elim (token s₃) [
        | none ↦ none
        | some (w, s₄) ↦ some (record {
          pid = (first p + 256 - 48) % 256;
          letter = first c;
          vaddr = to_uchar (atoi v);
          val = to_uchar (atoi w);
        })
      ]
    ]
  ]
]

-- `choice`, which keeps its value from line to line; it starts as `(unsigned char) -1`.
unfoldable pub choose : ℕ → ℕ → ℕ
choose letter choice =
    if letter == b'm' then 0 else if letter == b's' then 1 else if letter == b'l' then 2 else choice

-- The tests that follow, with their messages. `vaddr < 0`, `val < 0` and `val > 255` are never true
-- of an `unsigned char`.
pub validate : Instruction → ℕ → Cmd ℕ
validate i choice = do
  choice' ← if ltb 3 i.pid then (do print bad_pid; pure 3) else pure choice
  if ltb 63 i.vaddr then (do print bad_vaddr; pure 3) else pure choice'

pub dispatch : Instruction → ℕ → Cmd (Unit {0})
dispatch i choice =
    if choice == 0
    then (do r ← map i.pid i.vaddr i.val; pure tt)
    else if choice == 1
    then (do r ← store i.pid i.vaddr i.val; pure tt)
    else if choice == 2
    then (do r ← load i.pid i.vaddr i.val; pure tt)
    else if choice == 3
    then pure tt
    else print bad_input

-- A round of the loop of `main` on a line, with the `choice` that it leaves.
unfoldable pub execute : ℕ → List ℕ → Cmd ℕ
unfolding parse choose validate dispatch
execute choice str = elim (parse str) [
  | none ↦ λ _. fault
  | some i ↦ do choice' ← validate i (choose i.letter choice); dispatch i choice'; pure choice'
]

-- The strings that the inner loop passes over: those with fewer than two characters before the newline
-- or the zero that ends them.
abbrev pub is_short : List ℕ → Bool
is_short [] = true
is_short (c ∷ []) = true
is_short (c ∷ d ∷ _) = c == newline || d == newline

-- The loop: `fgets` reads at most 19 characters into `str`, and a zero among them ends the string.
unfoldable pub console_loop : ℕ → ℕ → List ℕ → Cmd (Unit {0})
unfolding execute
console_loop zero choice stdin m = out_of_fuel
console_loop (suc k) choice stdin m = elim (fgets 19 stdin) [
  | none ↦ ok tt m
  | some (line, rest) ↦ elim (is_short (c_string line)) [
    | true ↦ console_loop k choice rest m
    | false ↦ (do choice' ← execute choice (c_string line); console_loop k choice' rest) m
  ]
]

-- What `main` does before its loop: it empties the swap file, and sets the hardware registers, the free
-- list, the owners of the frames and the counter. The memory, the flags of the page tables and the
-- count of lines stay as they are.
abbrev pub set_up : Machine → Machine
set_up m = record m {
  swapspace = [];
  hardware = each (λ (h : Hp). record h { inmem = Place.unset }) m.hardware;
  freelist = each (λ f. 1) m.freelist;
  pages = each (λ pid. minus_one) m.pages;
  roundrobin = 0;
}

-- The loop of `main` on the bytes of standard input.
unfoldable pub instructions : List ℕ → Cmd (Unit {0})
unfolding console_loop
instructions stdin = console_loop (length stdin + 1) 255 stdin

-- `main` on the bytes of standard input.
unfoldable pub main : List ℕ → Cmd (Unit {0})
unfolding instructions
main stdin m = instructions stdin (set_up m)
