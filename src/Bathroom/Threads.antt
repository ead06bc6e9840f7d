-- ===== src/Bathroom/Threads.antt =====
-- The threads of project3/bathroomsim.c: `main` starts them, and each runs `Individual`. The scheduler
-- and the clock come from outside, as a list of turns.
pub mod Progress
pub mod Sums
pub mod Totals
pub mod Work
pub mod Acts
pub mod Ends
pub mod Going
pub mod Moves
pub mod Places
pub mod Refines
pub mod Reports
pub mod Rounds
pub mod Mixes
use cs3013_operating_systems.Prelude.{
  ℕ, zero, suc, ◌+◌, ◌%◌, ◌==◌, Bool, true, false, Option, none, some, List, [], ◌∷◌, map, length,
  set, get_elem?, if◌then◌else◌, ℤ, ◌≡◌,
}
use cs3013_operating_systems.Bathroom.Monitor.{
  Gender, male, female, Bathroom, initialize, enter, resume, leave,
}
use cs3013_operating_systems.Bathroom.Simulation.{Use, Times, Printed, no_times, collect, summary}

-- Where a thread stands: outside the monitor, in `pthread_cond_wait`, out of it and in want of the lock,
-- or between `Enter` and `Leave`, with whether it waited.
pub data Position : Type 0 where
  outside waiting woken : Position
  inside : Bool → Position

-- A thread: `g`, the rounds of its loop that are left, and the times that it collects.
pub record Thread : Type 0 where
  pub gender : Gender
  pub left : ℕ
  pub place : Position
  pub times : Times

-- `g = rand() % 2`
abbrev pub gender_of : ℕ → Gender
gender_of rand = if rand % 2 == 0 then male else female

-- The minimum of `loopcount` is 1.
abbrev pub loop_count : ℕ → ℕ
loop_count zero = 1
loop_count (suc n) = suc n

-- The start of `Individual`, from the two random numbers.
abbrev pub begin : ℕ × ℕ → Thread
begin (rand, loop) = record {
  gender = gender_of rand;
  left = loop_count loop;
  place = Position.outside;
  times = no_times;
}

pub record Simulation : Type 0 where
  pub room : Bathroom
  pub threads : List Thread

-- `main` up to the joins, from the random numbers of each thread.
abbrev pub main_start : List (ℕ × ℕ) → Simulation
main_start rands = record { room = initialize (length rands); threads = map begin rands }

abbrev pub wake_place : Position → Position
wake_place Position.outside = Position.outside
wake_place Position.waiting = Position.woken
wake_place Position.woken = Position.woken
wake_place (Position.inside waited) = Position.inside waited

abbrev pub wake : Thread → Thread
wake t = record t { place = wake_place t.place }

-- `pthread_cond_broadcast`
abbrev pub broadcast : Bool → List Thread → List Thread
broadcast true ts = map wake ts
broadcast false ts = ts

-- Where `Enter` has come to.
abbrev pub entered : Bool → Position
entered true = Position.waiting
entered false = Position.inside false

-- The end of a round of the loop.
abbrev pub end_round : (lapsed : ℤ) (waited : Bool) (left : ℕ) → Thread → Thread
end_round lapsed waited left t = record t {
  left = left;
  place = Position.outside;
  times = collect (record { lapsed = lapsed; wait = waited }) t.times;
}

-- `Enter` up to its end or its wait.
unfoldable pub arrive : (i : ℕ) → Thread → Simulation → Bool × Bathroom → Simulation
arrive i t s (waits, b) = record {
  room = b;
  threads = set s.threads i (record t { place = entered waits });
}

-- `Leave`, and the end of the round. `none` is a count of users below zero.
unfoldable pub depart :
    (i : ℕ) (lapsed : ℤ) (waited : Bool) (left : ℕ)
    → Thread
    → Simulation
    → Option (Bool × Bathroom)
    → Option Simulation
depart i lapsed waited left t s none = none
depart i lapsed waited left t s (some (signal, b)) = some (record {
  room = b;
  threads = broadcast signal (set s.threads i (end_round lapsed waited left t));
})

-- What thread `i` does the next time that it gets the lock, by its place and the rounds that are left.
-- `none`: it waits, or has ended.
unfoldable pub advance :
    (i : ℕ) (lapsed : ℤ) → Thread → Position → ℕ → Simulation → Option Simulation
unfolding arrive depart
advance i lapsed t Position.outside zero s = none
advance i lapsed t Position.outside (suc left) s = some (arrive i t s (enter t.gender s.room))
advance i lapsed t Position.waiting left s = none
advance i lapsed t Position.woken left s = some (record {
  room = resume (length s.threads) t.gender s.room;
  threads = set s.threads i (record t { place = Position.inside true });
})
advance i lapsed t (Position.inside waited) zero s = none
advance i lapsed t (Position.inside waited) (suc left) s =
    depart i lapsed waited left t s (leave s.room)

-- A wait that ends without a signal.
unfoldable pub wake_up : ℕ → Thread → Position → Simulation → Option Simulation
wake_up i t Position.waiting s =
    some (record s { threads = set s.threads i (record t { place = Position.woken }) })
wake_up i t _ s = none

-- What happens next: a thread runs, with the time that it measures where it ends a round, or its wait
-- ends without a signal.
pub data Turn : Type 0 where
  runs : (i : ℕ) (lapsed : ℤ) → Turn
  wakes : (i : ℕ) → Turn

abbrev pub thread_of : Turn → ℕ
thread_of (Turn.runs i lapsed) = i
thread_of (Turn.wakes i) = i

-- A turn, by the thread whose it is.
unfoldable pub turn_of : Turn → Simulation → Option Thread → Option Simulation
unfolding advance wake_up
turn_of x s none = none
turn_of (Turn.runs i lapsed) s (some t) = advance i lapsed t t.place t.left s
turn_of (Turn.wakes i) s (some t) = wake_up i t t.place s

unfoldable pub turn : Turn → Simulation → Option Simulation
unfolding turn_of
turn x s = turn_of x s (get_elem? s.threads (thread_of x))

abbrev pub and_then : (Simulation → Option Simulation) → Option Simulation → Option Simulation
and_then f none = none
and_then f (some s) = f s

-- The turns of a schedule.
unfoldable pub simulate : List Turn → Simulation → Option Simulation
unfolding turn
simulate [] s = some s
simulate (x ∷ xs) s = and_then (simulate xs) (turn x s)

-- A thread has ended where its loop has no round left.
abbrev pub Ended : Thread → Type 0
Ended t = (t.left ≡ 0) × (t.place ≡ Position.outside)

-- What a thread prints in its end.
abbrev pub thread_report : Thread → Printed
thread_report t = summary t.times.numwaits t.times
