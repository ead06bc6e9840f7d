-- ===== src/Bathroom/System/Recorded.antt =====
-- The statistics that the monitor of project3/bathroom.c collects, in the states that the threads reach.
use cs3013_operating_systems.Prelude.{
  ℕ, suc, ◌+◌, ◌≤◌, ◌≡◌, refl, ap, subst, Bool, true, false, some, arith, length-replicate,
  minus_one, All-replicate,
}
use cs3013_operating_systems.Bathroom.Monitor.{Bathroom, resume, leave}
use cs3013_operating_systems.Bathroom.System.{System, start, Step, Steps}
use cs3013_operating_systems.Bathroom.System.Counts.{
  Counts, reachable-Counts, enter-admits, enter-queues, length-Takes, admit-counts, queue_up-counts,
  resume-counts,
}
use cs3013_operating_systems.Bathroom.System.Tallies.{
  resume-uses, resume-ques, enters-tallies, waits-tallies,
}
use cs3013_operating_systems.Bathroom.System.Arrays.{
  AtLeastMinusOne, Arrays, total_writes-replicate, admit-Arrays, admit-overruns, queue_up-Arrays,
  queue_up-overruns, resume-Arrays, resume-overruns, leave-fields, other_fields,
}

-- Each use and each wait was written once, and each wait that has ended was written behind the array.
pub record Recorded (n : ℕ) (s : System) : Type 0 where
  pub arrays : Arrays n (s.room.uses + s.room.ques) s.room
  pub behind : s.room.ques ≤ s.room.overruns + s.room.quers

start-Recorded : (n : ℕ) → Recorded n (start n)
start-Recorded n = record {
  arrays = record {
    size_users = length-replicate n minus_one;
    size_queue = length-replicate n minus_one;
    users = All-replicate AtLeastMinusOne n minus_one (0, refl, refl);
    queue = All-replicate AtLeastMinusOne n minus_one (0, refl, refl);
    total = omega (arith, total_writes-replicate n);
  };
  behind = omega arith;
}

left-Recorded :
    {n : ℕ} (s : System) (signal : Bool) (b : Bathroom)
    → leave s.room ≡ some (signal, b)
    → Recorded n s
    → Arrays n (b.uses + b.ques) b × (b.ques ≤ b.overruns + b.quers)
left-Recorded s signal b e r =
    let (f, u, left) = leave-fields signal s.room b e in
    rw left (other_fields s.room f u s.room.quers s.room.ques s.room.uses r.arrays, r.behind)

Step-Recorded : {n : ℕ} {s t : System} → Step n s t → Counts s → Recorded n s → Recorded n t
Step-Recorded {n} {s} (Step.enters g b e) c r =
    let (uses, ques) = enters-tallies g s.room b e in
    let is_admit = enter-admits g s.room b e in
    let (flag, users, quers) = admit-counts g s.room in
    let total : suc (s.room.uses + s.room.ques) ≡ b.uses + b.ques = omega (arith, uses, ques) in
    record {
      arrays = subst (λ k. Arrays n k b) total (rw is_admit (admit-Arrays g s.room r.arrays));
      behind = omega (
        arith,
        r.behind,
        ques,
        quers,
        admit-overruns g s.room,
        ap (λ r. r.overruns) is_admit,
        ap (λ r. r.quers) is_admit,
      );
    }
Step-Recorded {n} {s} (Step.waits g b e) c r =
    let (uses, ques) = waits-tallies g s.room b e in
    let (queued, taken) = enter-queues g s.room b e in
    let (flag, users, quers) = queue_up-counts s.room in
    let total : suc (s.room.uses + s.room.ques) ≡ b.uses + b.ques = omega (arith, uses, ques) in
    record {
      arrays = subst (λ k. Arrays n k b) total (rw queued (queue_up-Arrays s.room r.arrays));
      behind = omega (
        arith,
        r.behind,
        ques,
        quers,
        queue_up-overruns s.room,
        ap (λ r. r.overruns) queued,
        ap (λ r. r.quers) queued,
      );
    }
Step-Recorded {n} {s} (Step.wakes g rest t) c r = record { arrays = r.arrays; behind = r.behind }
Step-Recorded {n} {s} (Step.resumes g rest t) c r =
    let (flag, users, quers) = resume-counts n g s.room in
    let b = resume n g s.room in
    let total : suc (s.room.uses + s.room.ques) ≡ b.uses + b.ques =
      omega (arith, resume-uses n g s.room, resume-ques n g s.room) in
    record {
      arrays = subst (λ k. Arrays n k b) total (resume-Arrays n g s.room r.arrays);
      behind = omega (
        arith,
        r.behind,
        resume-ques n g s.room,
        quers,
        c.quers,
        length-Takes t,
        resume-overruns g s.room r.arrays,
      );
    }
Step-Recorded {n} {s} (Step.leaves g rest b t e) c r =
    let (arrays, behind) = left-Recorded s false b e r in
    record { arrays = arrays; behind = behind }
Step-Recorded {n} {s} (Step.leaves_last g rest b t e) c r =
    let (arrays, behind) = left-Recorded s true b e r in record { arrays = arrays; behind = behind }

-- In every state that the threads can reach, the entries of the two arrays, from their start of -1, and the
-- writes behind the arrays add up to the uses and the waits, and every wait that has ended wrote behind
-- its array.
pub reachable-Recorded : {n : ℕ} {s : System} → Steps n (start n) s → Recorded n s
reachable-Recorded {n} Steps.stay = start-Recorded n
reachable-Recorded (Steps.step r x) = Step-Recorded x (reachable-Counts r) (reachable-Recorded r)
