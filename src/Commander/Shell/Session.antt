-- ===== src/Commander/Shell/Session.antt =====
-- `main` of project1/mc2.c as a whole: its loop, and what it does behind it.
use cs3013_operating_systems.Prelude.{
  Bool, true, false, not, Option, none, some, List, [], ◌∷◌, ◌++◌,
}
use cs3013_operating_systems.Commander.Queue.{empty_background}
use cs3013_operating_systems.Commander.Shell.{Shell, Input, Action, round, crash, main_round}

-- What `main` did on the inputs that it was given, whether it came to its end, and whether it waits for a
-- background task there.
pub record Session : Type 0 where
  pub actions : List Action
  pub ended : Bool
  pub waits : Bool

unfoldable pub and_then : List Action → Option Session → Option Session
and_then acts none = none
and_then acts (some s) = some (record s { actions = acts ++ s.actions })

-- Behind the loop.
unfoldable pub close : List Action → Shell → Session
close acts s = record { actions = acts; ended = true; waits = not (empty_background s.running) }

-- `main`, on the inputs of its rounds. `none` is a crash.
unfoldable pub session : List Input → Shell → Option Session
unfolding main_round and_then close
session [] s = some (record { actions = []; ended = false; waits = false })
session (i ∷ is) s = elim (main_round i s) [
  | crash ↦ none
  | round false s' acts ↦ some (close acts s')
  | round true s' acts ↦ and_then acts (session is s')
]
