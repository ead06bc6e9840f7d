-- ===== src/Commander/Children/Effects.antt =====
-- What a round of project1/mc2.c does with the background queue, and the action that shows it.
use cs3013_operating_systems.Prelude.{
  ℕ, ◌+◌, ◌≡◌, ◌≢◌, refl, ◌∙◌, sym, ap, subst, ◌⊎◌, inl, inr, none, some, Option, Option-cases,
  List, [], ◌∷◌, length, ◌==◌, ltb, if◌then◌else◌, Bool, true, false, Bool-cases, arith, sub_ℕ,
}
use cs3013_operating_systems.Memory.Text.{strtok, space}
use cs3013_operating_systems.Commander.Queue.{add_running, remove_background}
use cs3013_operating_systems.Commander.Queue.Tasks.{Added, added, full, add_running-Added}
use cs3013_operating_systems.Commander.Shell.{
  Shell, Input, Action, Round, round, crash, chomp, add_command, add_case, find_command,
  background_case, user_case, select, forget, prompt, main_process, remove_pid, main_round,
}
use cs3013_operating_systems.Commander.Children.{Inert}

-- The action shows whether the pid was put into the queue.
pub data Queued (pid : ℕ) (running : List ℕ) : List Action → List ℕ → Type 0 where
  same : {acts : List Action} → Inert acts → Queued pid running acts running
  runs : (args : List (List ℕ)) → Queued pid running (Action.run args ∷ []) running
  starts :
      {number child : ℕ} {running' : List ℕ} (index : ℕ)
      → number ≡ index + 1
      → child ≡ pid
      → add_running pid running ≡ (some index, running')
      → Queued pid running (Action.started number child ∷ []) running'
  refuses :
      {running' : List ℕ}
      → running' ≡ running
      → Queued pid running (Action.queue_full ∷ []) running'

pub data Shows (pid : ℕ) (running : List ℕ) : Round → Type 0 where
  shows :
      {continue : Bool} {s : Shell} {acts : List Action}
      → Queued pid running acts s.running
      → Shows pid running (round continue s acts)
  crashes : Shows pid running crash

Shows-if :
    {pid : ℕ} {running : List ℕ} (b : Bool) {r r' : Round}
    → Shows pid running r
    → Shows pid running r'
    → Shows pid running (if b then r else r')
Shows-if true h h' = h
Shows-if false h h' = h'

add_case-Shows : (i : Input) (s : Shell) → Shows i.forked s.running (add_case i s)
unfolding add_case add_command
add_case-Shows i s = elim (Option-cases (strtok space (chomp i.line₁))) [
  | inl e ↦ rw (e, add_case) crashes
  | inr ((first, rest), e) ↦
      rw (e, add_case)
        (elim (Option-cases (strtok space rest)) [
          | inl e' ↦ rw (e', add_case) crashes
          | inr ((second, rest'), e') ↦
              rw (e', add_case)
                (elim (Bool-cases (ltb s.addedcommands (length s.commands))) [
                  | inl room ↦ rw (room, add_case) (shows (same tt))
                  | inr no_room ↦ rw (no_room, add_case) crashes
                ])
        ])
]

full_queue :
    (pid : ℕ) (running : List ℕ)
    → Added pid 0 running (add_running pid running)
    → (add_running pid running).0 ≡ none
    → (add_running pid running).1 ≡ running
full_queue pid running (added k zero_at before out) e = cc
full_queue pid running (full absent out) e = ap (λ r. r.1) out

background_case-Shows : (pid : ℕ) (s : Shell) → Shows pid s.running (background_case pid s)
unfolding background_case
background_case-Shows pid s = elim (Option-cases (add_running pid s.running).0) [
  | inl e ↦
      rw (e, background_case)
        (shows (refuses (full_queue pid s.running (add_running-Added pid s.running) e)))
  | inr (index, e) ↦
      rw (e, background_case)
        (shows (starts index refl refl (λ i. (e i, (add_running pid s.running).1))))
]

user_case-Shows :
    (i : Input) (choice : ℕ) (s : Shell) → Shows i.forked s.running (user_case i choice s)
unfolding user_case
user_case-Shows i choice s = elim (Option-cases (find_command (sub_ℕ choice b'0') s.commands)) [
  | inl e ↦ rw (e, user_case) (shows (same tt))
  | inr (c, e) ↦
      rw (e, user_case) (Shows-if c.background (background_case-Shows i.forked s) (shows (runs _)))
]

select-Shows : (i : Input) (choice : ℕ) (s : Shell) → Shows i.forked s.running (select i choice s)
unfolding select
select-Shows i choice s = Shows-if (choice == b'0') (shows (runs _)) (
    Shows-if (choice == b'1') (shows (runs _)) (
      Shows-if (choice == b'2') (shows (runs _)) (
        Shows-if (choice == b'a') (add_case-Shows i s) (
          Shows-if (choice == b'e') (shows (same tt)) (
            Shows-if (choice == b'c') (shows (same tt)) (
              Shows-if (choice == b'p') (shows (runs _))
                (Shows-if (choice == b'r') (shows (same tt)) (user_case-Shows i choice s))))))))

pub prompt-Shows : (i : Input) (s : Shell) → Shows i.forked s.running (prompt i s)
unfolding prompt
prompt-Shows i s = Shows-if s.leave (shows (same tt)) (elim (Option-cases i.choice) [
  | inl e ↦ rw (e, prompt) (shows (same tt))
  | inr (choice, e) ↦ rw (e, prompt) (select-Shows i choice s)
])

-- `removebackground` of the child that `waitpid` reports, if it reports one.
pub data Reaped (p : ℕ) (running running' : List ℕ) : Type 0 where
  nobody : p ≡ 0 → running' ≡ running → Reaped p running running'
  removed : p ≢ 0 → remove_background p running ≡ some running' → Reaped p running running'

-- The queue in a round of the loop of `main`: before the switch, after it, and in the end.
pub record RoundQueue (i : Input) (running : List ℕ) (acts : List Action) (out : List ℕ)
    : Type 0 where
  pub before : List ℕ
  pub after : List ℕ
  pub reaped : Reaped i.reaped running before
  pub queued : Queued i.forked before acts after
  pub closed : remove_background 0 after ≡ some out

abbrev queue_or : List ℕ → Option Shell → List ℕ
queue_or running none = running
queue_or running (some s) = s.running

forget-some :
    (p : ℕ) (s s' : Shell) → forget p s ≡ some s' → remove_background p s.running ≡ some s'.running
unfolding forget
forget-some p s s' e = elim (Option-cases (remove_background p s.running)) [
  | inl unset ↦ (let r : forget p s ≡ none = rw (unset, forget) refl in absurd cc)
  | inr (running, found) ↦
      (let r : forget p s ≡ some (record s { running = running }) = rw (found, forget) refl in
        found ∙ ap some (ap (λ (o : Option Shell). queue_or running o) (sym r ∙ e)))
]

forget_cases : (p : ℕ) (s : Shell) → (forget p s ≡ none) ⊎ ((s' : Shell) × (forget p s ≡ some s'))
forget_cases p s = Option-cases (forget p s)

-- The queue before the switch, and the outcome, unless the process crashes there.
main_process-queue :
    (i : Input) (s : Shell)
    → (main_process i s ≡ crash)
      ⊎ ((before : List ℕ) × Reaped i.reaped s.running before
          × Shows i.forked before (main_process i s))
unfolding main_process
main_process-queue i s = elim (Bool-cases (ltb 0 i.reaped)) [
  | inr none_ended ↦
      inr (s.running, nobody (ground (arith, none_ended)) refl, rw none_ended (prompt-Shows i s))
  | inl some_ended ↦ elim (forget_cases i.reaped s) [
    | inl unset ↦ inl (rw some_ended (rw (unset, main_process) refl))
    | inr (s', found) ↦ inr (
      s'.running,
      removed (ground (arith, some_ended)) (forget-some i.reaped s s' found),
      rw some_ended (rw (found, main_process) (prompt-Shows i s')),
    )
  ]
]

closed_queue :
    (s s' : Shell) (acts acts' : List Action) (o : Option Shell)
    → forget remove_pid s ≡ o
    → elim o [ none ↦ crash | some s'' ↦ round true s'' acts ] ≡ round true s' acts'
    → (acts ≡ acts') × (remove_background 0 s.running ≡ some s'.running)
closed_queue s s' acts acts' none found e = absurd cc
closed_queue s s' acts acts' (some u) found e =
    let same_shell : u ≡ s' = cc in
    (cc, forget-some remove_pid s u found ∙ ap (λ (v : Shell). some v.running) same_shell)

-- A round that goes on, by the outcome of `mainprocess`.
abbrev go_on : Round → Round
go_on r = elim r [
  | crash ↦ crash
  | round false s' actions ↦ round false s' actions
  | round true s' actions ↦ elim (forget remove_pid s') [
    | none ↦ crash
    | some s'' ↦ round true s'' actions
  ]
]

go_on-queue :
    (pid : ℕ) (before : List ℕ) (r : Round) (s' : Shell) (acts : List Action)
    → Shows pid before r
    → go_on r ≡ round true s' acts
    → (after : List ℕ) × Queued pid before acts after
      × (remove_background 0 after ≡ some s'.running)
go_on-queue pid before crash s' acts h e = cc
go_on-queue pid before (round false s actions) s' acts h e = cc
go_on-queue pid before (round true s actions) s' acts (shows q) e =
    let (same_acts, closed) = closed_queue s s' actions acts (forget remove_pid s) refl e in
    (s.running, subst (λ a. Queued pid before a s.running) same_acts q, closed)

-- What a round that goes on does with the queue.
pub main_round-RoundQueue :
    (i : Input) (s s' : Shell) (acts : List Action)
    → main_round i s ≡ round true s' acts
    → RoundQueue i s.running acts s'.running
unfolding main_round
main_round-RoundQueue i s s' acts e = elim (main_process-queue i s) [
  | inl crashed ↦ (let r : main_round i s ≡ crash = ap go_on crashed in absurd cc)
  | inr (before, reaped, outcome) ↦
      (let (after, queued, closed) =
          go_on-queue i.forked before (main_process i s) s' acts outcome e in
        record {
          before = before;
          after = after;
          reaped = reaped;
          queued = queued;
          closed = closed;
        })
]
