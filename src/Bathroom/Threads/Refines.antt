-- ===== src/Bathroom/Threads/Refines.antt =====
-- The threads of project3/bathroomsim.c take steps of the monitor's system.
use cs3013_operating_systems.Prelude.{
  ℕ, ◌≡◌, refl, some, List, [], ◌∷◌, map, set, arith, length, length-set, length-map, sym, ◌∙◌,
  subst,
}
use cs3013_operating_systems.Bathroom.Monitor.{Gender}
use cs3013_operating_systems.Bathroom.System.{System, start, Step, Steps}
use cs3013_operating_systems.Bathroom.Threads.{
  Position, Simulation, Turn, main_start, begin, gender_of, wake, simulate,
}
use cs3013_operating_systems.Bathroom.Threads.Places.{is_inside, is_waiting, is_woken, sum_at}
use cs3013_operating_systems.Bathroom.Threads.Acts.{Acts, Turns-Keeps, simulate-Turns}
use cs3013_operating_systems.Bathroom.Threads.Moves.{
  Represents, Next, enters-Next, waits-Next, wakes-Next, resumes-Next, leaves-Next,
  leaves_last-Next,
}

Acts-Next :
    {sys : System} {s s' : Simulation}
    → Acts s s'
    → Represents sys s
    → Next (length s.threads) sys s'
Acts-Next (Acts.enters i t left b own at_p more e) r = enters-Next i t r own at_p b e
Acts-Next (Acts.waits i t left b own at_p more e) r = waits-Next i t r own at_p b e
Acts-Next (Acts.wakes i t own at_p) r = wakes-Next i t r own at_p
Acts-Next (Acts.resumes i t own at_p) r = resumes-Next i t r own at_p
Acts-Next (Acts.leaves i lapsed t waited left b own at_p more e) r =
    leaves-Next i t r own waited _ b at_p refl e
Acts-Next (Acts.leaves_last i lapsed t waited left b own at_p more e) r =
    leaves_last-Next i t r own waited _ b at_p refl e

Acts-length : {s s' : Simulation} → Acts s s' → length s'.threads ≡ length s.threads
Acts-length {s} (Acts.enters i t left b own at_p more e) = length-set s.threads i _
Acts-length {s} (Acts.waits i t left b own at_p more e) = length-set s.threads i _
Acts-length {s} (Acts.wakes i t own at_p) = length-set s.threads i _
Acts-length {s} (Acts.resumes i t own at_p) = length-set s.threads i _
Acts-length {s} (Acts.leaves i lapsed t waited left b own at_p more e) = length-set s.threads i _
Acts-length {s} (Acts.leaves_last i lapsed t waited left b own at_p more e) =
    length-map (set s.threads i _) wake ∙ length-set s.threads i _

-- A simulation of `n` threads that represents a state within reach.
abbrev pub Reached : ℕ → Simulation → Type 0
Reached n s = (length s.threads ≡ n) × ((sys : System) × Steps n (start n) sys × Represents sys s)

Acts-Reached : (n : ℕ) (s s' : Simulation) → Acts s s' → Reached n s → Reached n s'
Acts-Reached n s s' act (size, (sys, reach, r)) =
    let (sys', st, r') = Acts-Next act r in
    (Acts-length act ∙ size, (sys', Steps.step reach (subst (λ m. Step m sys sys') size st), r'))

no_part :
    (part : Gender → Position → ℕ) (rands : List (ℕ × ℕ))
    → ((h : Gender) → part h Position.outside ≡ 0)
    → sum_at part (map begin rands) ≡ 0
no_part part [] e = refl
no_part part ((rand, loop) ∷ rands) e = omega (arith, e (gender_of rand), no_part part rands e)

start-Represents : (rands : List (ℕ × ℕ)) → Represents (start (length rands)) (main_start rands)
start-Represents rands = record {
  room = refl;
  inside = λ g. sym (no_part (is_inside g) rands (λ h. refl));
  waiting = λ g. sym (no_part (is_waiting g) rands (λ h. refl));
  woken = λ g. sym (no_part (is_woken g) rands (λ h. refl));
}

start-Reached : (rands : List (ℕ × ℕ)) → Reached (length rands) (main_start rands)
start-Reached rands = (length-map rands begin, (_, Steps.stay, start-Represents rands))

-- Whatever the scheduler does with the threads that `main` starts, none is added or lost, and the monitor
-- and the number of threads of each gender that are inside, wait and were woken are those of a state
-- that the system of the monitor's steps reaches.
pub simulate-Reached :
    (rands : List (ℕ × ℕ)) (turns : List Turn) (s : Simulation)
    → simulate turns (main_start rands) ≡ some s
    → Reached (length rands) s
simulate-Reached rands turns s e =
    Turns-Keeps (Reached (length rands)) (Acts-Reached (length rands))
      (simulate-Turns turns (main_start rands) s e) (start-Reached rands)
