-- ===== src/Commander/Children.antt =====
-- The child processes of project1/mc2.c: `fork`, `wait(NULL)` and `waitpid(-1, NULL, WNOHANG)` as POSIX
-- documents them, around the rounds of the shell.
pub mod Counts
pub mod Effects
pub mod Lost
pub mod Tracked
mod Tests
use cs3013_operating_systems.Prelude.{
  ℕ, zero, suc, ◌+◌, ◌≡◌, ◌≢◌, ◌==◌, Bool, true, false, List, [], ◌∷◌, if◌then◌else◌,
}
use cs3013_operating_systems.Commander.Shell.{Shell, Input, Action, Round, Text, main_round, init}

-- The children that run, and those that have ended and were not waited for.
pub record Family : Type 0 where
  pub alive : List ℕ
  pub ended : List ℕ

pub record World : Type 0 where
  pub shell : Shell
  pub family : Family

-- `xs` is `ys` with `p` somewhere in it.
pub data Gone (p : ℕ) : List ℕ → List ℕ → Type 0 where
  here : (xs : List ℕ) → Gone p (p ∷ xs) xs
  there : (x : ℕ) {xs ys : List ℕ} → Gone p xs ys → Gone p (x ∷ xs) (x ∷ ys)

-- How often a pid stands in a list.
abbrev pub times : ℕ → List ℕ → ℕ
times p [] = 0
times p (x ∷ xs) = (if p == x then 1 else 0) + times p xs

abbrev pub children : ℕ → Family → ℕ
children p f = times p f.alive + times p f.ended

-- What `waitpid` reports: a child that has ended, or 0.
pub data Polled : ℕ → Family → Family → Type 0 where
  nobody : {f : Family} → f.ended ≡ [] → Polled 0 f f
  reaps :
      {f : Family} (p : ℕ) (rest : List ℕ)
      → Gone p f.ended rest
      → Polled p f (record f { ended = rest })

-- The actions of a round in which no child is started.
abbrev pub Inert : List Action → Type 0
Inert [] = Unit {0}
Inert (Action.run args ∷ acts) = ⊥
Inert (Action.started index pid ∷ acts) = ⊥
Inert (Action.queue_full ∷ acts) = ⊥
Inert (_ ∷ acts) = Inert acts

-- A child that ends, if it has not yet ended, and is waited for.
pub data Awaited (q : ℕ) (f : Family) : Family → Type 0 where
  had_ended : (rest : List ℕ) → Gone q f.ended rest → Awaited q f (record f { ended = rest })
  ended_now : (rest : List ℕ) → Gone q f.alive rest → Awaited q f (record f { alive = rest })

-- The children after a round, by what the shell did and the pid from `fork`. A command that is run is
-- awaited by `wait(NULL)`, which returns for any child that ends.
pub data After (pid : ℕ) : List Action → Family → Family → Type 0 where
  nothing : {acts : List Action} {f : Family} → Inert acts → After pid acts f f
  awaited : (args : List Text) {f : Family} → After pid (Action.run args ∷ []) f f
  other_awaited :
      (args : List Text) (q : ℕ) {f f' : Family}
      → Awaited q f f'
      → After pid (Action.run args ∷ []) f (record f' { alive = pid ∷ f'.alive })
  kept :
      (index : ℕ) {f : Family}
      → After pid (Action.started index pid ∷ []) f (record f { alive = pid ∷ f.alive })
  refused : {f : Family} → After pid (Action.queue_full ∷ []) f (record f { alive = pid ∷ f.alive })

pub data Happens (w : World) : World → Type 0 where
  ends :
      (p : ℕ) (rest : List ℕ)
      → Gone p w.family.alive rest
      → Happens w (record w { family = record { alive = rest; ended = p ∷ w.family.ended } })
  rounds :
      (i : Input) (s' : Shell) (acts : List Action) (f f' : Family)
      → Polled i.reaped w.family f
      → i.forked ≢ 0
      → children i.forked f ≡ 0
      → main_round i w.shell ≡ Round.round true s' acts
      → After i.forked acts f f'
      → Happens w (record { shell = s'; family = f' })

-- The shell of `main`, without children.
abbrev pub world : World
world = record { shell = init; family = record { alive = []; ended = [] } }
