-- ===== src/Bathroom/Threads/Reports.antt =====
-- What the threads of project3/bathroomsim.c print in their end, by the rounds that a schedule gives them.
use cs3013_operating_systems.Prelude.{
  ℕ, zero, suc, ◌≡◌, refl, ap, some, List, [], ◌∷◌, map, get_elem?, length, arith, All,
  All-get_elem?,
}
use cs3013_operating_systems.Bathroom.Simulation.{Times, individual}
use cs3013_operating_systems.Bathroom.Threads.{
  Thread, Simulation, Ended, Turn, begin, loop_count, main_start, simulate, thread_report,
}
use cs3013_operating_systems.Bathroom.Threads.Rounds.{rounds_of}
use cs3013_operating_systems.Bathroom.Threads.Rounds.Turns.{simulate-Moved}

get_elem?-begin :
    (rands : List (ℕ × ℕ)) (i : ℕ) (r : ℕ × ℕ)
    → get_elem? rands i ≡ some r
    → get_elem? (map begin rands) i ≡ some (begin r)
get_elem?-begin [] i r h = cc
get_elem?-begin (x ∷ rands) zero r h = let same : x ≡ r = cc in rw same refl
get_elem?-begin (x ∷ rands) (suc i) r h = get_elem?-begin rands i r h

-- What thread `i`, with its number for the loop, prints after a schedule.
abbrev pub Prints : List (ℕ × ℕ) → List Turn → (i loop : ℕ) → Thread → Type 0
Prints rands turns i loop t =
    (thread_report t ≡ individual (rounds_of i turns (main_start rands)))
    × (length (rounds_of i turns (main_start rands)) ≡ loop_count loop)

-- Where a schedule has brought all threads to their end, the thread that drew the `i`th numbers prints
-- what `Individual` prints for the rounds that the schedule gives it: a round for each of its turns
-- between `Enter` and `Leave`, with the time measured at that turn and whether it waited. They are as
-- many as its loop count.
pub simulate-Prints :
    (rands : List (ℕ × ℕ)) (turns : List Turn) (s : Simulation) (i rand loop : ℕ)
    → simulate turns (main_start rands) ≡ some s
    → All Ended s.threads
    → get_elem? rands i ≡ some (rand, loop)
    → (t : Thread) × (get_elem? s.threads i ≡ some t) × Prints rands turns i loop t
unfolding individual
simulate-Prints rands turns s i rand loop e ended drawn =
    let (t, own, m) =
      simulate-Moved i turns (begin (rand, loop)) (main_start rands) s
        (get_elem?-begin rands i (rand, loop) drawn) e in
    let (none_left, out) = All-get_elem? Ended s.threads i t ended own in
    (
      t,
      own,
      (
        ap (λ (times : Times). thread_report (record t { times = times })) m.times,
        omega (arith, m.left, none_left),
      ),
    )
