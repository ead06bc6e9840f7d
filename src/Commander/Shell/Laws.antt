-- ===== src/Commander/Shell/Laws.antt =====
-- Adding a command and running it, in project1/mc2.c.
use cs3013_operating_systems.Prelude.{
  ℕ, zero, suc, ◌+◌, ◌<◌, ◌≡◌, ◌≢◌, refl, ◌∙◌, some, List, [], ◌∷◌, ◌++◌, arith, get_elem?, set,
  true, false, ◌==◌, ℤ, pos, minus_one, eq_ℤ, sub_ℕ,
}
use cs3013_operating_systems.Commander.Numbers.{HasNumbers}
use cs3013_operating_systems.Commander.Queue.{is_background}
use cs3013_operating_systems.Commander.Shell.{
  Command, Shell, Input, round, run, Text, find_command, user_case, select,
}

-- The commands that were added have the numbers from 3 on, and the rest the number -1.
abbrev pub IsNumbered : Shell → Type 0
IsNumbered s = HasNumbers (λ c. c.opnum) minus_one s.commands s.addedcommands

find_command-first :
    (cs : List Command) (k : ℤ) (i : ℕ) (c : Command)
    → get_elem? cs i ≡ some c
    → eq_ℤ c.opnum k ≡ true
    → ((j : ℕ) (c' : Command) → j < i → get_elem? cs j ≡ some c' → eq_ℤ c'.opnum k ≡ false)
    → find_command k cs ≡ some c
unfolding find_command
find_command-first [] k i c e h before = cc
find_command-first (d ∷ cs) k zero c e h before = let same : d ≡ c = cc in rw same (rw h)
find_command-first (d ∷ cs) k (suc i) c e h before =
    rw (before 0 d (omega arith) refl)
      (find_command-first cs k i c e h (λ j c' l. before (suc j) c' (omega arith)))

eq_ℤ-pos : (a b : ℕ) → eq_ℤ (pos a) (pos b) ≡ (a == b)
eq_ℤ-pos a b = refl

-- The command with number `3 + i` is the one in entry `i`.
pub find_command-number :
    (s : Shell) (i : ℕ) (c : Command)
    → IsNumbered s
    → i < s.addedcommands
    → get_elem? s.commands i ≡ some c
    → find_command (pos (3 + i)) s.commands ≡ some c
find_command-number s i c n h e =
    find_command-first s.commands (pos (3 + i)) i c e (rw (n.used i c h e) (ground arith))
      (λ j c' l e'. rw (n.used j c' (omega arith) e') (ground arith))

-- The command that `addcommand` stores.
abbrev pub new_command : (first second name stale : Text) → ℕ → Command
new_command first second name stale added = record {
  word₀ = first;
  word₁ = second;
  commandname = name;
  opnum = pos (3 + added);
  background = is_background (name ++ (0 ∷ stale));
}

abbrev pub with_command : Command → Shell → Shell
with_command c s = record s {
  commands = set s.commands s.addedcommands c;
  addedcommands = s.addedcommands + 1;
}

-- A command that is not a background task is run.
pub user_case-run :
    (i : Input) (choice : ℕ) (s : Shell) (c : Command)
    → find_command (sub_ℕ choice b'0') s.commands ≡ some c
    → c.background ≡ false
    → user_case i choice s ≡ round true s (run (c.word₀ ∷ c.word₁ ∷ []) ∷ [])
unfolding user_case
user_case-run i choice s c e plain = rw (e, user_case) (rw plain)

-- The numbers whose character is none of the menu's own: a, c, e, p and r.
abbrev pub IsFree : ℕ → Type 0
IsFree n = (n ≢ 49) × (n ≢ 51) × (n ≢ 53) × (n ≢ 64) × (n ≢ 66)

-- The choice '/' is the number -1, which every unused entry has: where there is one and its background
-- flag is not set, the first of them is run, though nothing was ever stored in it.
pub slash_runs_unused :
    (i : Input) (s : Shell) (c : Command)
    → IsNumbered s
    → get_elem? s.commands s.addedcommands ≡ some c
    → c.background ≡ false
    → select i b'/' s ≡ round true s (run (c.word₀ ∷ c.word₁ ∷ []) ∷ [])
unfolding select
slash_runs_unused i s c n e plain =
    let is_user : select i b'/' s ≡ user_case i b'/' s = refl in
    is_user ∙ user_case-run i b'/' s c found plain
  where
    found : find_command minus_one s.commands ≡ some c
    found =
        find_command-first s.commands minus_one s.addedcommands c e
          (rw (n.unused s.addedcommands c (omega arith) e)) (λ j c' l e'. rw (n.used j c' l e'))
