-- ===== src/Commander/Shell.antt =====
-- The prompt of project1/mc2.c: `addcommand`, `mainprocess` and the loop of `main`. The lines that a case
-- reads are there, where the end of the input would leave its buffers unset, and `fork` succeeds. The zero
-- that case 'a' writes one byte behind its buffer (mc2.c:256), and that the words of a command stand
-- before no null pointer where `execvp` takes them, are left out.
pub mod Keeps
pub mod Laws
pub mod Session
use cs3013_operating_systems.Prelude.{
  ℕ, zero, suc, ◌+◌, ◌-◌, Bool, true, false, Option, none, some, List, [], ◌∷◌, ◌++◌, if◌then◌else◌,
  ltb, ◌==◌, get_elem?, set, length, replicate, ℤ, pos, minus_one, eq_ℤ, sub_ℕ,
}
use cs3013_operating_systems.Memory.Text.{until, strtok, space, newline}
use cs3013_operating_systems.Commander.Numbers.{max_commands}
use cs3013_operating_systems.Commander.Queue.{
  max_back, add_running, remove_background, is_background, print_running,
}

-- A string, without the zero that ends it.
abbrev pub Text : Type 0
Text = List ℕ

-- `struct Command`: two words, the line they come from, the number, and the background flag
pub record Command : Type 0 where
  pub word₀ : Text
  pub word₁ : Text
  pub commandname : Text
  pub opnum : ℤ
  pub background : Bool

pub record Shell : Type 0 where
  pub commands : List Command
  pub addedcommands : ℕ
  pub running : List ℕ
  pub leave : Bool

-- What the shell does that is seen from outside: a command run to its end, a background task
-- started with its index and pid, and the messages.
pub data Action : Type 0 where
  run : List Text → Action
  started : (index pid : ℕ) → Action
  queue_full : Action
  added_with_id : ℕ → Action
  listing : List (ℕ × ℕ) → Action
  changed_to : Text → Action
  invalid_input : Action
  logging_out : Action

-- The outside world in one round: the child that `waitpid` reports (0 for none), the character of
-- the choice (`none` at the end of the input), the lines read after it, the bytes that the buffer
-- of a command's name holds behind its string, and the pid that `fork` returns in the parent.
pub record Input : Type 0 where
  pub reaped : ℕ
  pub choice : Option ℕ
  pub line₁ : Text
  pub line₂ : Text
  pub stale : Text
  pub forked : ℕ

-- A round: whether the shell goes on, its state, and what it did. `crash`: an access out of bounds,
-- a null string, or a variable read before it is set.
pub data Round : Type 0 where
  round : (continue : Bool) → Shell → List Action → Round
  crash : Round

-- The line up to its newline.
abbrev pub chomp : Text → Text
chomp line = (until newline line).0

-- `addcommand`, on the words and the bytes of the buffer with the line
unfoldable pub add_command : Text → Text → Text → Text → Shell → Option Shell
add_command first second name stale s =
    if ltb s.addedcommands (length s.commands)
    then some (record s {
      commands = set s.commands s.addedcommands (record {
        word₀ = first;
        word₁ = second;
        commandname = name;
        opnum = pos (3 + s.addedcommands);
        background = is_background (name ++ (0 ∷ stale));
      });
      addedcommands = s.addedcommands + 1;
    })
    else none

-- Case 'a': the line, which is read, is cut at spaces, and two words are taken.
unfoldable pub add_case : Input → Shell → Round
unfolding add_command
add_case i s = elim (strtok space (chomp i.line₁)) [
  | none ↦ crash
  | some (first, rest) ↦ elim (strtok space rest) [
    | none ↦ crash
    | some (second, rest') ↦ elim (add_command first second (chomp i.line₁) i.stale s) [
      | none ↦ crash
      | some s' ↦ round true s' (added_with_id (3 + s.addedcommands) ∷ [])
    ]
  ]
]

-- Case '2': options and a path where the lines are not empty. A line is read.
abbrev pub optional : Text → List Text
optional line = elim (chomp line) [ [] ↦ [] | c ∷ cs ↦ (c ∷ cs) ∷ [] ]

abbrev pub ls : Text
ls = b'l' ∷ b's' ∷ []

abbrev pub whoami : Text
whoami = b'w' ∷ b'h' ∷ b'o' ∷ b'a' ∷ b'm' ∷ b'i' ∷ []

abbrev pub last : Text
last = b'l' ∷ b'a' ∷ b's' ∷ b't' ∷ []

abbrev pub pwd : Text
pwd = b'p' ∷ b'w' ∷ b'd' ∷ []

-- The default case: the first command with the number of the choice.
unfoldable pub find_command : ℤ → List Command → Option Command
find_command choice [] = none
find_command choice (c ∷ cs) =
    let rest = find_command choice cs in if eq_ℤ c.opnum choice then some c else rest

-- The parent's side of a background command, where `fork` succeeds.
unfoldable pub background_case : ℕ → Shell → Round
background_case pid s =
    let (found, running) = add_running pid s.running in
    let s' = record s { running = running } in
    elim found [
      | none ↦ round true s' (queue_full ∷ [])
      | some index ↦ round true s' (started (index + 1) pid ∷ [])
    ]

unfoldable pub user_case : Input → ℕ → Shell → Round
unfolding background_case find_command
user_case i choice s = elim (find_command (sub_ℕ choice 48) s.commands) [
  | none ↦ round true s (invalid_input ∷ [])
  | some c ↦
      if c.background
      then background_case i.forked s
      else round true s (run (c.word₀ ∷ c.word₁ ∷ []) ∷ [])
]

-- The `switch` of `mainprocess`.
unfoldable pub select : Input → ℕ → Shell → Round
unfolding add_case user_case
select i choice s =
    if choice == b'0'
    then round true s (run (whoami ∷ []) ∷ [])
    else if choice == b'1'
    then round true s (run (last ∷ []) ∷ [])
    else if choice == b'2'
    then round true s (run (ls ∷ (optional i.line₁ ++ optional i.line₂)) ∷ [])
    else if choice == b'a'
    then add_case i s
    else if choice == b'e'
    then round false s (logging_out ∷ [])
    else if choice == b'c'
    then round true s (changed_to (chomp i.line₁) ∷ [])
    else if choice == b'p'
    then round true s (run (pwd ∷ []) ∷ [])
    else if choice == b'r'
    then round true s (listing (print_running s.running 0) ∷ [])
    else user_case i choice s

-- `removebackground` on the queue of the shell
unfoldable pub forget : ℕ → Shell → Option Shell
forget pid s = elim (remove_background pid s.running) [
  | none ↦ none
  | some running ↦ some (record s { running = running })
]

unfoldable pub prompt : Input → Shell → Round
unfolding select
prompt i s =
    if s.leave
    then round false s []
    else elim i.choice [ none ↦ round false s (logging_out ∷ []) | some choice ↦ select i choice s ]

unfoldable pub main_process : Input → Shell → Round
unfolding prompt forget
main_process i s =
    if ltb 0 i.reaped
    then elim (forget i.reaped s) [ none ↦ crash | some s' ↦ prompt i s' ]
    else prompt i s

-- `removepid`, which nothing sets
abbrev pub remove_pid : ℕ
remove_pid = 0

-- A round of the loop of `main`: `mainprocess`, and `removebackground(removepid)` where it goes on.
unfoldable pub main_round : Input → Shell → Round
unfolding main_process forget
main_round i s = elim (main_process i s) [
  | crash ↦ crash
  | round false s' actions ↦ round false s' actions
  | round true s' actions ↦ elim (forget remove_pid s') [
    | none ↦ crash
    | some s'' ↦ round true s'' actions
  ]
]

-- The shell as `main` sets it up. The numbers of the commands are -1.
abbrev pub init : Shell
init = record {
  commands =
      replicate max_commands (record {
        word₀ = [];
        word₁ = [];
        commandname = [];
        opnum = minus_one;
        background = false;
      });
  addedcommands = 0;
  running = replicate max_back 0;
  leave = false;
}
