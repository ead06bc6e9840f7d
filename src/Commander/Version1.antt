-- ===== src/Commander/Version1.antt =====
-- project1/mc1.c: the commander that can add commands, with no background tasks.
pub mod Numbers
pub mod Agreement
pub mod Agrees
pub mod Choice
pub mod Programs
pub mod Added
mod Tests
use cs3013_operating_systems.Prelude.{
  ℕ, zero, suc, ◌+◌, ◌-◌, Bool, true, false, Option, none, some, List, [], ◌∷◌, ◌++◌, if◌then◌else◌,
  ltb, ◌==◌, length, set, replicate, ℤ, pos, eq_ℤ, sub_ℕ,
}
use cs3013_operating_systems.Memory.Text.{strtok, space}
use cs3013_operating_systems.Commander.Numbers.{max_commands}
use cs3013_operating_systems.Commander.Shell.{
  Text, Input, Action, run, added_with_id, changed_to, invalid_input, logging_out, chomp, optional,
  ls, whoami, last, pwd,
}

-- `struct Command`: the two words of `stored`, the line they come from, and the number
pub record Command : Type 0 where
  pub word₀ : Text
  pub word₁ : Text
  pub commandname : Text
  pub opnum : ℤ

-- The globals.
pub record Storage : Type 0 where
  pub addedcommands : ℕ
  pub commands : List Command
  pub firstrun : Bool

-- One call of `main`, up to the point where it calls itself or returns: whether it calls itself.
-- `crash`: an access out of bounds, or a null string.
pub data Round : Type 0 where
  round : (again : Bool) → Storage → List Action → Round
  crash : Round

-- `usercommand`: the lines of the menu for the commands that were added
menu_loop : ℕ → List Command → List (ℤ × Text)
menu_loop zero commands = []
menu_loop (suc n) [] = []
menu_loop (suc n) (c ∷ cs) = (c.opnum, c.commandname) ∷ menu_loop n cs

unfoldable pub user_command : Storage → List (ℤ × Text)
unfolding menu_loop
user_command s = if s.firstrun then [] else menu_loop s.addedcommands s.commands

-- `addcommand`, which sets `firstrun` to 0 once the strings are allocated
unfoldable pub add_command : Text → Text → Text → Storage → Option Storage
add_command first second name s =
    if ltb s.addedcommands (length s.commands)
    then some (record {
      addedcommands = s.addedcommands + 1;
      commands = set s.commands s.addedcommands (record {
        word₀ = first;
        word₁ = second;
        commandname = name;
        opnum = pos (3 + s.addedcommands);
      });
      firstrun = false;
    })
    else none

-- Case 97.
unfoldable pub add_case : Text → Storage → Round
unfolding add_command
add_case line s = elim (strtok space (chomp line)) [
  | none ↦ crash
  | some (first, rest) ↦ elim (strtok space rest) [
    | none ↦ crash
    | some (second, rest') ↦ elim (add_command first second (chomp line) s) [
      | none ↦ crash
      | some s' ↦ round true s' (added_with_id (3 + s.addedcommands) ∷ [])
    ]
  ]
]

-- The loop of the default case, which runs every command with the number.
unfoldable pub run_all : ℤ → List Command → List Action
run_all choice [] = []
run_all choice (c ∷ cs) =
    let rest = run_all choice cs in
    if eq_ℤ c.opnum choice then run (c.word₀ ∷ c.word₁ ∷ []) ∷ rest else rest

unfoldable pub user_case : ℕ → Storage → Round
unfolding run_all
user_case choice s =
    if s.firstrun
    then round true s (invalid_input ∷ [])
    else round true s (run_all (sub_ℕ choice 48) s.commands)

-- The `switch` of `main`.
unfoldable pub select : Input → ℕ → Storage → Round
unfolding add_case user_case
select i choice s =
    if choice == 48
    then round true s (run (whoami ∷ []) ∷ [])
    else if choice == 49
    then round true s (run (last ∷ []) ∷ [])
    else if choice == 50
    then round true s (run (ls ∷ (optional i.line₁ ++ optional i.line₂)) ∷ [])
    else if choice == 97
    then add_case i.line₁ s
    else if choice == 101
    then round false s (logging_out ∷ [])
    else if choice == 99
    then round true s (changed_to (chomp i.line₁) ∷ [])
    else if choice == 112
    then round true s (run (pwd ∷ []) ∷ [])
    else user_case choice s

-- `if (choice == EOF) { choice = 101; }`
unfoldable pub main_round : Input → Storage → Round
unfolding select
main_round i s = select i (elim i.choice [ none ↦ 101 | some choice ↦ choice ]) s

-- What `main` does on the inputs of its rounds: it calls itself until the choice is to leave. `none`
-- is a crash.
unfoldable pub main : List Input → Storage → Option (List Action)
unfolding main_round
main [] s = some []
main (i ∷ is) s = elim (main_round i s) [
  | crash ↦ none
  | round false s' actions ↦ some actions
  | round true s' actions ↦ elim (main is s') [ none ↦ none | some rest ↦ some (actions ++ rest) ]
]

-- The globals at the start, which are zero where the source does not set them.
abbrev pub init : Storage
init = record {
  addedcommands = 0;
  commands =
      replicate max_commands (record { word₀ = []; word₁ = []; commandname = []; opnum = pos 0 });
  firstrun = true;
}
