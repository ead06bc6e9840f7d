-- ===== src/Bathroom/Threads/Totals.antt =====
-- The uses and waits of the threads of project3/bathroomsim.c, and the turns that they take.
use cs3013_operating_systems.Prelude.{
  ℕ, suc, ◌+◌, ◌-◌, ◌≡◌, refl, ap, Bool, true, false, some, List, map, set, get_elem?, arith,
  length, ℤ,
}
use cs3013_operating_systems.Bathroom.Simulation.{Times, collect}
use cs3013_operating_systems.Bathroom.System.Tallies.{
  resume-uses, resume-ques, enters-tallies, waits-tallies, leaves-tallies, leaves_last-tallies,
}
use cs3013_operating_systems.Bathroom.Threads.{
  Position, Thread, Simulation, wake, wake_place, end_round,
}
use cs3013_operating_systems.Bathroom.Threads.Acts.{Acts}
use cs3013_operating_systems.Bathroom.Threads.Sums.{sum_by, sum_by-set, sum_by-map, changed}

-- How often a thread has still to go in.
abbrev pub to_enter : Position → ℕ → ℕ
to_enter Position.outside left = left
to_enter Position.waiting left = suc (left - 1)
to_enter Position.woken left = suc (left - 1)
to_enter (Position.inside waited) left = left - 1

-- A wait in the round that is not yet collected.
abbrev pub pending : Position → ℕ
pending Position.outside = 0
pending Position.waiting = 1
pending Position.woken = 1
pending (Position.inside true) = 1
pending (Position.inside false) = 0

abbrev pub entries : List Thread → ℕ
entries ts = sum_by (λ t. to_enter t.place t.left) ts

abbrev pub waited_by : List Thread → ℕ
waited_by ts = sum_by (λ t. t.times.numwaits + pending t.place) ts

changed_waits :
    (ts : List Thread) (i : ℕ) (t t' : Thread) (p : Position)
    → get_elem? ts i ≡ some t
    → t.place ≡ p
    → waited_by (set ts i t') + (t.times.numwaits + pending p)
      ≡ waited_by ts + (t'.times.numwaits + pending t'.place)
changed_waits ts i t t' p own at_p =
    let was : pending t.place ≡ pending p = ap pending at_p in
    omega (arith, sum_by-set (λ t. t.times.numwaits + pending t.place) ts i t t' own, was)

-- A signal changes none of the sums.
wake_to_enter : (p : Position) (left : ℕ) → to_enter (wake_place p) left ≡ to_enter p left
wake_to_enter Position.outside left = refl
wake_to_enter Position.waiting left = refl
wake_to_enter Position.woken left = refl
wake_to_enter (Position.inside waited) left = refl

wake_pending : (p : Position) → pending (wake_place p) ≡ pending p
wake_pending Position.outside = refl
wake_pending Position.waiting = refl
wake_pending Position.woken = refl
wake_pending (Position.inside waited) = refl

entries-wake : (ts : List Thread) → entries (map wake ts) ≡ entries ts
entries-wake ts =
    sum_by-map (λ t. to_enter t.place t.left) (λ t. to_enter t.place t.left) wake ts
      (λ t. wake_to_enter t.place t.left)

waited_by-wake : (ts : List Thread) → waited_by (map wake ts) ≡ waited_by ts
waited_by-wake ts =
    let f = λ (t : Thread). t.times.numwaits + pending t.place in
    sum_by-map f f wake ts (λ t. ap (λ k. t.times.numwaits + k) (wake_pending t.place))

collect-numwaits :
    (lapsed : ℤ) (waited : Bool) (t : Times)
    → (collect (record { lapsed = lapsed; wait = waited }) t).numwaits
      ≡ t.numwaits + pending (Position.inside waited)
unfolding collect
collect-numwaits lapsed true t = refl
collect-numwaits lapsed false t = omega arith

-- The counters of the monitor agree with the loops of the threads.
pub record Tallied (total : ℕ) (s : Simulation) : Type 0 where
  pub uses : s.room.uses + entries s.threads ≡ total
  pub ques : s.room.ques ≡ waited_by s.threads

pub Acts-Tallied : (total : ℕ) (s s' : Simulation) → Acts s s' → Tallied total s → Tallied total s'
Acts-Tallied total s _ (Acts.enters i t left b own at_p more e) h =
    let (uses, ques) = enters-tallies t.gender s.room b e in
    record {
      uses = omega (
        arith,
        h.uses,
        uses,
        more,
        changed to_enter s.threads i t (record t { place = Position.inside false }) _ _ own at_p
            more,
      );
      ques = omega (
        arith,
        h.ques,
        ques,
        changed_waits s.threads i t (record t { place = Position.inside false }) _ own at_p,
      );
    }
Acts-Tallied total s _ (Acts.waits i t left b own at_p more e) h =
    let (uses, ques) = waits-tallies t.gender s.room b e in
    record {
      uses = omega (
        arith,
        h.uses,
        uses,
        more,
        changed to_enter s.threads i t (record t { place = Position.waiting }) _ _ own at_p more,
      );
      ques = omega (
        arith,
        h.ques,
        ques,
        changed_waits s.threads i t (record t { place = Position.waiting }) _ own at_p,
      );
    }
Acts-Tallied total s _ (Acts.wakes i t own at_p) h =
    let t' : Thread = record t { place = Position.woken } in
    record {
      uses = omega (arith, h.uses, changed to_enter s.threads i t t' _ _ own at_p refl);
      ques = omega (arith, h.ques, changed_waits s.threads i t t' _ own at_p);
    }
Acts-Tallied total s _ (Acts.resumes i t own at_p) h =
    let t' : Thread = record t { place = Position.inside true } in
    record {
      uses = omega (
        arith,
        h.uses,
        resume-uses (length s.threads) t.gender s.room,
        changed to_enter s.threads i t t' _ _ own at_p refl,
      );
      ques = omega (
        arith,
        h.ques,
        resume-ques (length s.threads) t.gender s.room,
        changed_waits s.threads i t t' _ own at_p,
      );
    }
Acts-Tallied total s _ (Acts.leaves i lapsed t waited left b own at_p more e) h =
    let t' = end_round lapsed waited left t in
    let (uses, ques) = leaves-tallies s.room b e in
    record {
      uses = omega (arith, h.uses, uses, changed to_enter s.threads i t t' _ _ own at_p more);
      ques = omega (
        arith,
        h.ques,
        ques,
        collect-numwaits lapsed waited t.times,
        changed_waits s.threads i t t' _ own at_p,
      );
    }
Acts-Tallied total s _ (Acts.leaves_last i lapsed t waited left b own at_p more e) h =
    let t' = end_round lapsed waited left t in
    let (uses, ques) = leaves_last-tallies s.room b e in
    record {
      uses = omega (
        arith,
        h.uses,
        uses,
        entries-wake (set s.threads i t'),
        changed to_enter s.threads i t t' _ _ own at_p more,
      );
      ques = omega (
        arith,
        h.ques,
        ques,
        collect-numwaits lapsed waited t.times,
        waited_by-wake (set s.threads i t'),
        changed_waits s.threads i t t' _ own at_p,
      );
    }
