-- ===== src/Bathroom/Threads/Work.antt =====
-- The turns that the threads of project3/bathroomsim.c can take.
use cs3013_operating_systems.Prelude.{
  ℕ, ◌+◌, ◌-◌, ◌*◌, ◌<◌, ◌≤◌, refl, true, false, List, [], ◌∷◌, map, set, arith,
}
use cs3013_operating_systems.Bathroom.Threads.{
  Position, Thread, Simulation, wake, wake_place, end_round,
}
use cs3013_operating_systems.Bathroom.Threads.Acts.{Acts, Turns}
use cs3013_operating_systems.Bathroom.Threads.Sums.{sum_by, changed}

-- The turns that a thread can still take.
abbrev pub turns_left : Position → ℕ → ℕ
turns_left Position.outside left = 4 * left
turns_left Position.waiting left = 4 * (left - 1) + 3
turns_left Position.woken left = 4 * (left - 1) + 2
turns_left (Position.inside waited) left = 4 * (left - 1) + 1

abbrev pub work : List Thread → ℕ
work ts = sum_by (λ t. turns_left t.place t.left) ts

wake_turns : (p : Position) (left : ℕ) → turns_left (wake_place p) left ≤ turns_left p left
wake_turns Position.outside left = omega arith
wake_turns Position.waiting left = omega arith
wake_turns Position.woken left = omega arith
wake_turns (Position.inside waited) left = omega arith

work-wake : (ts : List Thread) → work (map wake ts) ≤ work ts
work-wake [] = omega arith
work-wake (t ∷ ts) = omega (arith, wake_turns t.place t.left, work-wake ts)

-- Each turn uses at least one up.
Acts-work : (s s' : Simulation) → Acts s s' → work s'.threads < work s.threads
Acts-work s _ (Acts.enters i t left b own at_p more e) =
    let t' : Thread = record t { place = Position.inside false } in
    omega (arith, more, changed turns_left s.threads i t t' _ _ own at_p more)
Acts-work s _ (Acts.waits i t left b own at_p more e) =
    let t' : Thread = record t { place = Position.waiting } in
    omega (arith, more, changed turns_left s.threads i t t' _ _ own at_p more)
Acts-work s _ (Acts.wakes i t own at_p) = omega (
  arith,
  changed turns_left s.threads i t (record t { place = Position.woken }) _ _ own at_p refl,
)
Acts-work s _ (Acts.resumes i t own at_p) =
    let t' : Thread = record t { place = Position.inside true } in
    omega (arith, changed turns_left s.threads i t t' _ _ own at_p refl)
Acts-work s _ (Acts.leaves i lapsed t waited left b own at_p more e) =
    let t' = end_round lapsed waited left t in
    omega (arith, changed turns_left s.threads i t t' _ _ own at_p more)
Acts-work s _ (Acts.leaves_last i lapsed t waited left b own at_p more e) =
    let t' = end_round lapsed waited left t in
    omega
      (arith, changed turns_left s.threads i t t' _ _ own at_p more, work-wake (set s.threads i t'))

pub Turns-work : {s s' : Simulation} {k : ℕ} → Turns s k s' → k + work s'.threads ≤ work s.threads
Turns-work Turns.done = omega arith
Turns-work (Turns.then_turn {s} {t} act more) = omega (arith, Acts-work s t act, Turns-work more)
