-- ===== src/Bathroom/Tests.antt =====
-- The theorems about project3/bathroom.c at a run of three threads.
use cs3013_operating_systems.Prelude.{
  ◌≡◌, refl, ℕ, Bool, true, false, some, List, map, [], ◌∷◌, length, pos, none, minus_one, All, ◌≤◌,
  ◌*◌, ◌⊎◌, get_elem?,
}
use cs3013_operating_systems.Bathroom.Simulation.{individual, collect, no_times}
use cs3013_operating_systems.Bathroom.Simulation.Bounds.{use_of, Bounded, individual-bounds}
use cs3013_operating_systems.Bathroom.Monitor.{
  Gender, male, female, admit, queue_up, enter, initialize, leave, resume,
}
use cs3013_operating_systems.Bathroom.Threads.{
  Position, Thread, Simulation, Ended, Turn, main_start, simulate,
}
use cs3013_operating_systems.Bathroom.Threads.Ends.{
  rounds, Finished, simulate-Finished, simulate-ends,
}
use cs3013_operating_systems.Bathroom.Threads.Progress.{Proceeds}
use cs3013_operating_systems.Bathroom.Threads.Reports.{Prints, simulate-Prints}
use cs3013_operating_systems.Bathroom.Threads.Refines.{Reached, simulate-Reached}
use cs3013_operating_systems.Bathroom.System.Recorded.{Recorded, reachable-Recorded}
use cs3013_operating_systems.Bathroom.System.{System, start, Step, Steps, stay, step}
use cs3013_operating_systems.Bathroom.System.Counts.{Counts, reachable-Counts}
use cs3013_operating_systems.Bathroom.System.Drain.{Drains, reachable-Drains}
use cs3013_operating_systems.Bathroom.Threads.Mixes.{broadcast_mixes}
use cs3013_operating_systems.Bathroom.System.Exclusive.{AllSame, no_queue-AllSame}

-- A male thread goes in.
abbrev one_inside : System
one_inside = record {
  room = admit male (initialize 3);
  inside = male ∷ [];
  waiting = [];
  woken = [];
}

one_inside-Steps : Steps 3 (start 3) one_inside
unfolding enter
one_inside-Steps = step stay (Step.enters male _ refl)

one_inside-ques : one_inside.room.ques ≡ 0
unfolding admit
one_inside-ques = refl

-- Then a female thread waits.
abbrev one_waiting : System
one_waiting = record one_inside { room = queue_up one_inside.room; waiting = female ∷ [] }

one_waiting-Steps : Steps 3 (start 3) one_waiting
unfolding enter
one_waiting-Steps = step one_inside-Steps (Step.waits female _ refl)

reachable-Counts_example : Counts one_waiting
reachable-Counts_example = reachable-Counts one_waiting-Steps

reachable-Drains_example : Drains 3 one_waiting
reachable-Drains_example = reachable-Drains one_waiting-Steps

no_queue-AllSame_example : AllSame one_inside
no_queue-AllSame_example = no_queue-AllSame one_inside-Steps (one_inside-ques)

-- Two waits, and a use without one.
abbrev uses : List (ℕ × Bool)
uses = (30, true) ∷ (70, false) ∷ (50, true) ∷ []

individual_example : Bounded (30 ∷ 50 ∷ []) (individual (map use_of uses))
individual_example = individual-bounds uses

-- The random numbers of a male and a female thread with a round each, and a schedule in which the second
-- one waits for the first.
abbrev rands : List (ℕ × ℕ)
rands = (0, 1) ∷ (1, 0) ∷ []

abbrev turns : List Turn
turns =
    Turn.runs 0 (pos 10)
    ∷ Turn.runs 1 (pos 10)
    ∷ Turn.runs 0 (pos 10)
    ∷ Turn.runs 1 (pos 10)
    ∷ Turn.runs 1 (pos 40)
    ∷ []

-- What they lead to.
abbrev finished : Simulation
finished = record {
  room = record {
    flag = none;
    users = 0;
    quers = 0;
    ques = 1;
    uses = 2;
    barray = minus_one ∷ pos 0 ∷ [];
    qarray = minus_one ∷ pos 0 ∷ [];
    overruns = 1;
  };
  threads =
      record {
        gender = male;
        left = 0;
        place = Position.outside;
        times = record {
          queuemin = pos 9999999;
          queuemax = pos 10;
          queuetime = pos 0;
          numwaits = 0;
        };
      }
      ∷ record {
        gender = female;
        left = 0;
        place = Position.outside;
        times = record { queuemin = pos 40; queuemax = pos 40; queuetime = pos 40; numwaits = 1 };
      }
      ∷ [];
}

finished-simulate : simulate turns (main_start rands) ≡ some finished
unfolding simulate enter resume leave collect
finished-simulate = refl

All-Ended : All Ended finished.threads
All-Ended = ((refl, refl), ((refl, refl), tt))

simulate-Finished_example : Finished rands finished
simulate-Finished_example = simulate-Finished rands turns finished finished-simulate All-Ended

simulate-ends_example :
    (length turns ≤ 4 * rounds rands) × (All Ended finished.threads ⊎ Proceeds finished)
simulate-ends_example = simulate-ends rands turns finished finished-simulate

simulate-Reached_example : Reached (length rands) finished
simulate-Reached_example = simulate-Reached rands turns finished finished-simulate

reachable-Recorded_example : Recorded 3 one_waiting
reachable-Recorded_example = reachable-Recorded one_waiting-Steps

simulate-Prints_example :
    (t : Thread) × (get_elem? finished.threads 1 ≡ some t) × Prints rands turns 1 0 t
simulate-Prints_example =
    simulate-Prints rands turns finished 1 1 0 finished-simulate All-Ended refl

-- A male thread is inside, a female one waits, and another male one is still outside.
abbrev three : List (ℕ × ℕ)
three = (0, 1) ∷ (1, 1) ∷ (2, 1) ∷ []

abbrev two_turns : List Turn
two_turns = Turn.runs 0 (pos 0) ∷ Turn.runs 1 (pos 0) ∷ []

abbrev thread_at : Gender → Position → Thread
thread_at g p = record { gender = g; left = 1; place = p; times = no_times }

abbrev one_in_two_out : Simulation
one_in_two_out = record {
  room = record {
    flag = some male;
    users = 1;
    quers = 1;
    ques = 1;
    uses = 1;
    barray = minus_one ∷ pos 0 ∷ minus_one ∷ [];
    qarray = minus_one ∷ pos 0 ∷ minus_one ∷ [];
    overruns = 0;
  };
  threads =
      thread_at male (Position.inside false)
      ∷ thread_at female Position.waiting
      ∷ thread_at male Position.outside
      ∷ [];
}

one_in_two_out-simulate : simulate two_turns (main_start three) ≡ some one_in_two_out
unfolding simulate enter
one_in_two_out-simulate = refl

broadcast_mixes_example :
    (s' : Simulation) × (simulate
        (Turn.runs 0 (pos 0) ∷ Turn.runs 2 (pos 0) ∷ Turn.runs 1 (pos 0) ∷ [])
        one_in_two_out
      ≡ some s')
    × (get_elem? s'.threads 2 ≡ some (thread_at male (Position.inside false)))
    × (get_elem? s'.threads 1 ≡ some (thread_at female (Position.inside true)))
broadcast_mixes_example =
    broadcast_mixes three two_turns one_in_two_out 0 1 2 0 (thread_at male (Position.inside false))
      (thread_at female Position.waiting) (thread_at male Position.outside) false
      one_in_two_out-simulate refl (refl, refl) (refl, refl) (refl, refl, refl)
