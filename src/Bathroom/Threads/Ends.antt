-- ===== src/Bathroom/Threads/Ends.antt =====
-- The end of the simulation of project3/bathroomsim.c.
use cs3013_operating_systems.Prelude.{
  ℕ, ◌+◌, ◌*◌, ◌≤◌, ◌≡◌, refl, sym, subst, ap, ◌∙◌, none, some, List, [], ◌∷◌, map, arith, length,
  All, ◌⊎◌,
}
use cs3013_operating_systems.Bathroom.Monitor.{Gender, male, female}
use cs3013_operating_systems.Bathroom.System.Counts.{reachable-Counts}
use cs3013_operating_systems.Bathroom.System.Recorded.{reachable-Recorded}
use cs3013_operating_systems.Bathroom.Threads.{
  Position, Thread, Simulation, Ended, Turn, main_start, begin, loop_count, simulate,
}
use cs3013_operating_systems.Bathroom.Threads.Acts.{Turns-Keeps, simulate-Turns}
use cs3013_operating_systems.Bathroom.Threads.Places.{
  number, is_inside, is_waiting, is_woken, sum_at, length-number,
}
use cs3013_operating_systems.Bathroom.Threads.Progress.{Proceeds, simulate-Proceeds}
use cs3013_operating_systems.Bathroom.Threads.Refines.{simulate-Reached}
use cs3013_operating_systems.Bathroom.Threads.Totals.{
  Tallied, Acts-Tallied, to_enter, pending, entries, waited_by,
}
use cs3013_operating_systems.Bathroom.Threads.Work.{work, Turns-work}

-- The rounds of all threads.
abbrev pub rounds : List (ℕ × ℕ) → ℕ
rounds [] = 0
rounds ((rand, loop) ∷ rands) = loop_count loop + rounds rands

-- The waits that the threads have collected.
abbrev pub all_waits : List Thread → ℕ
all_waits [] = 0
all_waits (t ∷ ts) = t.times.numwaits + all_waits ts

start_entries : (rands : List (ℕ × ℕ)) → entries (map begin rands) ≡ rounds rands
start_entries [] = refl
start_entries (r ∷ rands) = omega (arith, start_entries rands)

start_waits : (rands : List (ℕ × ℕ)) → waited_by (map begin rands) ≡ 0
start_waits [] = refl
start_waits (r ∷ rands) = omega (arith, start_waits rands)

start_work : (rands : List (ℕ × ℕ)) → work (map begin rands) ≡ 4 * rounds rands
start_work [] = refl
start_work (r ∷ rands) = omega (arith, start_work rands)

Ended-entries : (ts : List Thread) → All Ended ts → entries ts ≡ 0
Ended-entries [] h = refl
Ended-entries (t ∷ ts) h =
    let (none_left, out) = h.0 in
    let own : to_enter t.place t.left ≡ 0 = (λ i. to_enter (out i) (none_left i)) in
    omega (arith, own, Ended-entries ts h.1)

Ended-waits : (ts : List Thread) → All Ended ts → waited_by ts ≡ all_waits ts
Ended-waits [] h = refl
Ended-waits (t ∷ ts) h =
    let (none_left, out) = h.0 in omega (arith, ap pending out, Ended-waits ts h.1)

Ended-places :
    (part : Gender → Position → ℕ) (ts : List Thread)
    → ((h : Gender) → part h Position.outside ≡ 0)
    → All Ended ts
    → sum_at part ts ≡ 0
Ended-places part [] e h = refl
Ended-places part (t ∷ ts) e h =
    omega (arith, ap (part t.gender) h.0.1, e t.gender, Ended-places part ts e h.1)

-- A list in which each gender stands as often as its threads at a place from which all are gone.
no_one_left :
    (part : Gender → Gender → Position → ℕ) (xs : List Gender) (ts : List Thread)
    → ((g h : Gender) → part g h Position.outside ≡ 0)
    → All Ended ts
    → ((g : Gender) → number g xs ≡ sum_at (part g) ts)
    → length xs ≡ 0
no_one_left part xs ts e h r = omega (
  arith,
  length-number xs,
  r male,
  r female,
  Ended-places (part male) ts (e male) h,
  Ended-places (part female) ts (e female) h,
)

-- What the counters of the monitor say where every thread has ended.
pub record Finished (rands : List (ℕ × ℕ)) (s : Simulation) : Type 0 where
  pub uses : s.room.uses ≡ rounds rands
  pub ques : s.room.ques ≡ all_waits s.threads
  pub users : s.room.users ≡ 0
  pub quers : s.room.quers ≡ 0
  pub flag : s.room.flag ≡ none
  pub behind : s.room.ques ≤ s.room.overruns

module _ (rands : List (ℕ × ℕ)) (turns : List Turn) (s : Simulation)
    (e : simulate turns (main_start rands) ≡ some s) where
  -- Where the schedule has brought all threads to their end, the monitor has counted a use for each round
  -- of each thread and the waits that the threads collected, is empty and VACANT, nobody waits, and at
  -- least one write behind an array was made for each wait.
  pub simulate-Finished : All Ended s.threads → Finished rands s
  simulate-Finished ended =
      let tallied =
        Turns-Keeps (Tallied (rounds rands)) (Acts-Tallied (rounds rands))
          (simulate-Turns turns (main_start rands) s e)
          (record { uses = omega (arith, start_entries rands); ques = sym (start_waits rands) }) in
      let (size, (sys, reach, r)) = simulate-Reached rands turns s e in
      let c = reachable-Counts reach in
      let w = reachable-Recorded reach in
      let inside = no_one_left is_inside sys.inside s.threads (λ g h. refl) ended r.inside in
      let waiting = no_one_left is_waiting sys.waiting s.threads (λ g h. refl) ended r.waiting in
      let woken = no_one_left is_woken sys.woken s.threads (λ g h. refl) ended r.woken in
      let users : sys.room.users ≡ 0 = omega (arith, c.users, inside) in
      let quers : sys.room.quers ≡ 0 = omega (arith, c.quers, waiting, woken) in
      record {
        uses = omega (arith, tallied.uses, Ended-entries s.threads ended);
        ques = tallied.ques ∙ Ended-waits s.threads ended;
        users = ap (λ b. b.users) (sym r.room) ∙ users;
        quers = ap (λ b. b.quers) (sym r.room) ∙ quers;
        flag = ap (λ b. b.flag) (sym r.room) ∙ c.vacant.1 users;
        behind = subst (λ b. b.ques ≤ b.overruns) r.room (omega (arith, w.behind, quers));
      }

  -- A schedule has no more than four turns for each round of each thread, and where it stops, every
  -- thread has ended, or there is one that does not wait and can run: no state is reached in which a
  -- thread waits and only a wait that ends without a signal could go on.
  pub simulate-ends : (length turns ≤ 4 * rounds rands) × (All Ended s.threads ⊎ Proceeds s)
  simulate-ends = (
    omega (arith, Turns-work (simulate-Turns turns (main_start rands) s e), start_work rands),
    simulate-Proceeds rands turns s e,
  )
