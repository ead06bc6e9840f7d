-- ===== src/Bathroom/Threads/Going.antt =====
-- The threads of project3/bathroomsim.c that are inside or wait have a round left.
use cs3013_operating_systems.Prelude.{
  ℕ, ◌<◌, List, [], ◌∷◌, map, arith, All, All-set, All-get_elem?, subst,
}
use cs3013_operating_systems.Bathroom.Threads.{
  Position, Thread, Simulation, wake, wake_place, begin,
}
use cs3013_operating_systems.Bathroom.Threads.Acts.{Acts}

-- A thread that has begun a round has it left.
abbrev pub Going : Position → ℕ → Type 0
Going Position.outside left = Unit {0}
Going _ left = 0 < left

abbrev pub AllGoing : Simulation → Type 0
AllGoing s = All (λ t. Going t.place t.left) s.threads

wake-Going : (p : Position) (left : ℕ) → Going p left → Going (wake_place p) left
wake-Going Position.outside left h = h
wake-Going Position.waiting left h = h
wake-Going Position.woken left h = h
wake-Going (Position.inside waited) left h = h

wake-AllGoing :
    (ts : List Thread)
    → All (λ t. Going t.place t.left) ts
    → All (λ t. Going t.place t.left) (map wake ts)
wake-AllGoing [] h = tt
wake-AllGoing (t ∷ ts) h = (wake-Going t.place t.left h.0, wake-AllGoing ts h.1)

abbrev pub GoingThread : Thread → Type 0
GoingThread t = Going t.place t.left

pub Acts-AllGoing : (s s' : Simulation) → Acts s s' → AllGoing s → AllGoing s'
Acts-AllGoing s _ (Acts.enters i t left b own at_p more e) h =
    All-set GoingThread s.threads i _ h (omega arith)
Acts-AllGoing s _ (Acts.waits i t left b own at_p more e) h =
    All-set GoingThread s.threads i _ h (omega arith)
Acts-AllGoing s _ (Acts.wakes i t own at_p) h =
    let was = All-get_elem? GoingThread s.threads i t h own in
    All-set GoingThread s.threads i _ h (subst (λ p. Going p t.left) at_p was)
Acts-AllGoing s _ (Acts.resumes i t own at_p) h =
    let was = All-get_elem? GoingThread s.threads i t h own in
    All-set GoingThread s.threads i _ h (subst (λ p. Going p t.left) at_p was)
Acts-AllGoing s _ (Acts.leaves i lapsed t waited left b own at_p more e) h =
    All-set GoingThread s.threads i _ h tt
Acts-AllGoing s _ (Acts.leaves_last i lapsed t waited left b own at_p more e) h =
    wake-AllGoing _ (All-set GoingThread s.threads i _ h tt)

pub begin-AllGoing : (rands : List (ℕ × ℕ)) → All (λ t. Going t.place t.left) (map begin rands)
begin-AllGoing [] = tt
begin-AllGoing (r ∷ rands) = (tt, begin-AllGoing rands)
