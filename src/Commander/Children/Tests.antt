-- ===== src/Commander/Children/Tests.antt =====
-- A background task of project1/mc2.c, and a command that is run beside it.
use cs3013_operating_systems.Prelude.{ℕ, ◌≡◌, refl, true, some, [], ◌∷◌, arith, set, replicate, pos}
use cs3013_operating_systems.Memory.Text.{strtok}
use cs3013_operating_systems.Commander.Queue.{add_running, remove_background, is_background}
use cs3013_operating_systems.Commander.Shell.{
  Shell, Input, Action, Round, Text, whoami, main_round, init,
}
use cs3013_operating_systems.Commander.Children.{World, Gone, nobody, nothing, kept, Happens, world}
use cs3013_operating_systems.Commander.Children.Lost.{
  IsLost, nothing_yet, after_wait, wait_loses_task,
}
use cs3013_operating_systems.Commander.Children.Tracked.{
  IsTracked, Calm, still, one_round, reachable-IsTracked,
}

-- "a b&" and the end of the line
abbrev line : Text
line = b'a' ∷ 32 ∷ b'b' ∷ b'&' ∷ 10 ∷ []

-- A round with a choice, in which no child is reported.
abbrev choose : ℕ → Input
choose c = record {
  reaped = 0;
  choice = some c;
  line₁ = line;
  line₂ = [];
  stale = [];
  forked = 102;
}

abbrev added : Shell
added = record init {
  commands = set init.commands 0 (record {
    word₀ = b'a' ∷ [];
    word₁ = b'b' ∷ b'&' ∷ [];
    commandname = b'a' ∷ 32 ∷ b'b' ∷ b'&' ∷ [];
    opnum = pos 3;
    background = true;
  });
  addedcommands = 1;
}

abbrev task_runs : World
task_runs = record {
  shell = record added { running = 102 ∷ replicate 19 0 };
  family = record { alive = 102 ∷ []; ended = [] };
}

added-round : main_round (choose b'a') init ≡ Round.round true added (Action.added_with_id 3 ∷ [])
unfolding main_round remove_background is_background strtok
added-round = refl

started-round :
    main_round (choose b'3') added ≡ Round.round true task_runs.shell (Action.started 1 102 ∷ [])
unfolding main_round remove_background add_running
started-round = refl

task_runs-Calm : Calm world task_runs
task_runs-Calm =
    one_round (choose b'3') _ _ _ _ (nobody refl) (omega arith) (omega arith) started-round (kept 1)
      refl
      (one_round (choose b'a') _ _ _ _ (nobody refl) (omega arith) (omega arith) added-round
        (nothing tt) refl still)

reachable-IsTracked_example : IsTracked task_runs
reachable-IsTracked_example = reachable-IsTracked task_runs-Calm

-- The round that runs `whoami` as the child 103.
abbrev ask : Input
ask = record (choose b'0') { forked = 103 }

asked-round :
    main_round ask task_runs.shell
    ≡ Round.round true task_runs.shell (Action.run (whoami ∷ []) ∷ [])
unfolding main_round remove_background
asked-round = refl

wait_loses_task_example :
    Happens task_runs (after_wait task_runs.shell 103 [])
    × IsLost 102 (after_wait task_runs.shell 103 [])
wait_loses_task_example =
    wait_loses_task task_runs (after_wait task_runs.shell 103 []) ask task_runs.shell (whoami ∷ [])
      102 [] (reachable-IsTracked task_runs-Calm) (omega arith) (Gone.here []) refl refl
      (omega arith) (omega arith) asked-round nothing_yet
