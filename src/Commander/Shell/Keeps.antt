-- ===== src/Commander/Shell/Keeps.antt =====
-- The numbers of the commands and the length of the queue through the rounds of project1/mc2.c.
use cs3013_operating_systems.Prelude.{
  ℕ, ◌<◌, ◌≤◌, ◌≡◌, refl, ◌∙◌, inl, inr, none, some, Option, Option-cases, List, length, ◌==◌, ltb,
  if◌then◌else◌, Bool, true, false, Bool-cases, arith, sub_ℕ,
}
use cs3013_operating_systems.Memory.Text.{strtok, space}
use cs3013_operating_systems.Commander.Numbers.{max_commands, set-HasNumbers}
use cs3013_operating_systems.Commander.Queue.{max_back, add_running, remove_background}
use cs3013_operating_systems.Commander.Queue.Size.{length-add_running, length-remove_background}
use cs3013_operating_systems.Commander.Shell.{
  Shell, Input, Action, Round, round, crash, chomp, add_command, add_case, find_command,
  background_case, user_case, select, forget, prompt, main_process, remove_pid, main_round,
}
use cs3013_operating_systems.Commander.Shell.Laws.{IsNumbered, new_command}

-- The commands are numbered in order, no more of them than the storage has room for, and the queue of the
-- background tasks has its length.
pub record IsTidy (s : Shell) : Type 0 where
  pub numbered : IsNumbered s
  pub fits : s.addedcommands ≤ max_commands
  pub queue : length s.running ≡ max_back

pub data Keeps : Round → Type 0 where
  keeps :
      {continue : Bool} {s : Shell} {actions : List Action}
      → IsTidy s
      → Keeps (round continue s actions)
  crashes : Keeps crash

Keeps-if : (b : Bool) {r r' : Round} → Keeps r → Keeps r' → Keeps (if b then r else r')
Keeps-if true h h' = h
Keeps-if false h h' = h'

with_queue :
    {s : Shell} (running : List ℕ)
    → length running ≡ length s.running
    → IsTidy s
    → IsTidy (record s { running = running })
with_queue running same t = record { numbered = t.numbered; fits = t.fits; queue = same ∙ t.queue }

add_case-Keeps : {s : Shell} (i : Input) → IsTidy s → Keeps (add_case i s)
unfolding add_case add_command
add_case-Keeps {s} i t = elim (Option-cases (strtok space (chomp i.line₁))) [
  | inl e ↦ rw (e, add_case) crashes
  | inr ((first, rest), e) ↦
      rw (e, add_case)
        (elim (Option-cases (strtok space rest)) [
          | inl e' ↦ rw (e', add_case) crashes
          | inr ((second, rest'), e') ↦
              rw (e', add_case)
                (elim (Bool-cases (ltb s.addedcommands (length s.commands))) [
                  | inl room ↦
                      rw (room, add_case)
                        (let below : s.addedcommands < max_commands =
                            ground (arith, room, t.numbered.size) in
                          keeps (record {
                            numbered =
                                set-HasNumbers s.commands s.addedcommands
                                  (new_command first second (chomp i.line₁) i.stale s.addedcommands)
                                  t.numbered below refl;
                            fits = omega (arith, below);
                            queue = t.queue;
                          }))
                  | inr full ↦ rw (full, add_case) crashes
                ])
        ])
]

background_case-Keeps : {s : Shell} (pid : ℕ) → IsTidy s → Keeps (background_case pid s)
unfolding background_case
background_case-Keeps {s} pid t = elim (Option-cases (add_running pid s.running).0) [
  | inl e ↦ rw (e, background_case) (keeps (with_queue _ (length-add_running pid s.running) t))
  | inr (index, e) ↦
      rw (e, background_case) (keeps (with_queue _ (length-add_running pid s.running) t))
]

user_case-Keeps : {s : Shell} (i : Input) (choice : ℕ) → IsTidy s → Keeps (user_case i choice s)
unfolding user_case
user_case-Keeps {s} i choice t = elim (Option-cases (find_command (sub_ℕ choice b'0') s.commands)) [
  | inl e ↦ rw (e, user_case) (keeps t)
  | inr (c, e) ↦
      rw (e, user_case) (Keeps-if c.background (background_case-Keeps i.forked t) (keeps t))
]

select-Keeps : {s : Shell} (i : Input) (choice : ℕ) → IsTidy s → Keeps (select i choice s)
unfolding select
select-Keeps i choice t = Keeps-if (choice == b'0') (keeps t) (
    Keeps-if (choice == b'1') (keeps t) (
      Keeps-if (choice == b'2') (keeps t) (
        Keeps-if (choice == b'a') (add_case-Keeps i t) (
          Keeps-if (choice == b'e') (keeps t) (
            Keeps-if (choice == b'c') (keeps t) (
              Keeps-if (choice == b'p') (keeps t)
                (Keeps-if (choice == b'r') (keeps t) (user_case-Keeps i choice t))))))))

prompt-Keeps : {s : Shell} (i : Input) → IsTidy s → Keeps (prompt i s)
unfolding prompt
prompt-Keeps {s} i t = Keeps-if s.leave (keeps t) (elim (Option-cases i.choice) [
  | inl e ↦ rw (e, prompt) (keeps t)
  | inr (choice, e) ↦ rw (e, prompt) (select-Keeps i choice t)
])

-- No shell, or one that is tidy.
data Forgot : Option Shell → Type 0 where
  unset_index : Forgot none
  forgot : {s : Shell} → IsTidy s → Forgot (some s)

forget-Forgot : {s : Shell} (pid : ℕ) → IsTidy s → Forgot (forget pid s)
unfolding forget
forget-Forgot {s} pid t = elim (Option-cases (remove_background pid s.running)) [
  | inl e ↦ rw (e, forget) unset_index
  | inr (running, e) ↦
      rw (e, forget)
        (forgot (with_queue running (length-remove_background pid s.running running e) t))
]

main_process-Keeps : {s : Shell} (i : Input) → IsTidy s → Keeps (main_process i s)
unfolding main_process
main_process-Keeps {s} i t =
    Keeps-if (ltb 0 i.reaped) (reaped (forget i.reaped s) (forget-Forgot i.reaped t))
      (prompt-Keeps i t)
  where
    reaped : (o : Option Shell) → Forgot o → Keeps (elim o [ none ↦ crash | some s' ↦ prompt i s' ])
    reaped none h = crashes
    reaped (some s') (forgot t') = prompt-Keeps i t'

-- Whatever comes from outside in a round of the loop of `main`, a shell whose commands are numbered in
-- order, no more than there is room for, and whose queue has its length, stays so, unless the round
-- crashes.
pub main_round-Keeps : {s : Shell} (i : Input) → IsTidy s → Keeps (main_round i s)
unfolding main_round
main_round-Keeps i t = rounds (main_process i _) (main_process-Keeps i t)
  where
    again :
        (o : Option Shell) (actions : List Action)
        → Forgot o
        → Keeps (elim o [ none ↦ crash | some s'' ↦ round true s'' actions ])
    again none actions h = crashes
    again (some s'') actions (forgot t') = keeps t'

    rounds :
        (r : Round)
        → Keeps r
        → Keeps (elim r [
          | crash ↦ crash
          | round false s' actions ↦ round false s' actions
          | round true s' actions ↦ elim (forget remove_pid s') [
            | none ↦ crash
            | some s'' ↦ round true s'' actions
          ]
        ])
    rounds crash h = crashes
    rounds (round false s' actions) (keeps t') = keeps t'
    rounds (round true s' actions) (keeps t') =
        again (forget remove_pid s') actions (forget-Forgot remove_pid t')
