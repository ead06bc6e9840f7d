-- ===== src/Bathroom/System/Exclusive.antt =====
-- The genders inside the bathroom of project3/bathroom.c, before any thread has waited.
use cs3013_operating_systems.Prelude.{
  ℕ, ◌≡◌, refl, true, false, some, none, List, [], ◌∷◌, arith, sym, ◌∙◌, length, length-append, ap,
  subst, All, Bool-cases, Option-cases, ◌⊎◌, inl, inr,
}
use cs3013_operating_systems.Bathroom.Monitor.{
  Gender, male, female, Bathroom, same, queue_up, enter,
}
use cs3013_operating_systems.Bathroom.System.{
  System, start, Takes, here, there, Step, Steps, stay, step,
}
use cs3013_operating_systems.Bathroom.System.Tallies.{admit-ques, queue_up-ques, resume-ques}
use cs3013_operating_systems.Bathroom.System.Counts.{
  Counts, reachable-Counts, enter-admits, admit-counts, enter-queues, leave-stays, leave-empties,
  length-Takes,
}

-- Every thread inside has the gender of the flag.
abbrev pub AllSame : System → Type 0
AllSame s = All (λ g. s.room.flag ≡ some g) s.inside

-- Nobody waits or was woken, and the genders agree.
record Quiet (s : System) : Type 0 where
  no_waiting : length s.waiting ≡ 0
  no_woken : length s.woken ≡ 0
  all_same : AllSame s

same-eq : (g g' : Gender) → same g g' ≡ true → g ≡ g'
same-eq male male e = refl
same-eq female female e = refl
same-eq male female e = cc
same-eq female male e = cc

-- A thread goes in only where the flag is VACANT or its own gender.
enter-flag :
    (g : Gender) (b b' : Bathroom) → enter g b ≡ (false, b') → (b.flag ≡ none) ⊎ (b.flag ≡ some g)
unfolding enter
enter-flag g b b' e = elim (Option-cases b.flag) [
  | inl vacant ↦ inl vacant
  | inr (g', taken) ↦ elim (Bool-cases (same g' g)) [
    | inl yes_same ↦ inr (rw (← same-eq g' g yes_same) taken)
    | inr other ↦ (let queued : enter g b ≡ (true, queue_up b) = rw taken (rw other) in absurd cc)
  ]
]

All-Takes :
    (P : Gender → Type 0) {g : Gender} {xs ys : List Gender} → Takes g xs ys → All P xs → All P ys
All-Takes P (here xs) h = h.1
All-Takes P (there x t) h = (h.0, All-Takes P t h.1)

All-empty : (P : Gender → Type 0) (xs : List Gender) → length xs ≡ 0 → All P xs
All-empty P [] e = tt
All-empty P (x ∷ xs) e = absurd (omega arith)

-- The threads inside have the gender of one that goes in.
admit-AllSame :
    (g : Gender) (s : System) (b : Bathroom)
    → Counts s
    → enter g s.room ≡ (false, b)
    → AllSame s
    → All (λ g'. some g ≡ some g') s.inside
admit-AllSame g s b c e h = elim (enter-flag g s.room b e) [
  | inl vacant ↦ All-empty _ s.inside (omega (arith, c.vacant.0 vacant, c.users))
  | inr own ↦ rw (← own) h
]

Step-Quiet :
    {n : ℕ} {s t : System}
    → Step n s t
    → Counts s
    → (s.room.ques ≡ 0 → Quiet s)
    → t.room.ques ≡ 0
    → Quiet t
Step-Quiet {n} {s} (Step.enters g b e) c q none_yet =
    let (flag, users, quers) = admit-counts g s.room in
    let is_admit = enter-admits g s.room b e in
    let before : Quiet s =
      q (omega (arith, admit-ques g s.room, ap (λ r. r.ques) is_admit, none_yet)) in
    let now : b.flag ≡ some g = rw is_admit flag in
    record {
      no_waiting = before.no_waiting;
      no_woken = before.no_woken;
      all_same = (
        now,
        subst (λ f. All (λ g'. f ≡ some g') s.inside) (sym now)
            (admit-AllSame g s b c e before.all_same),
      );
    }
Step-Quiet {n} {s} (Step.waits g b e) c q none_yet =
    let (queued, taken) = enter-queues g s.room b e in
    absurd (omega (arith, queue_up-ques s.room, ap (λ r. r.ques) queued, none_yet))
Step-Quiet {n} {s} (Step.wakes g rest t) c q none_yet =
    absurd (omega (arith, length-Takes t, (q none_yet).no_waiting))
Step-Quiet {n} {s} (Step.resumes g rest t) c q none_yet =
    let before : Quiet s = q (sym (resume-ques n g s.room) ∙ none_yet) in
    absurd (omega (arith, length-Takes t, before.no_woken))
Step-Quiet {n} {s} (Step.leaves g rest b t e) c q none_yet =
    let (more, left) = leave-stays s.room b e in
    let before : Quiet s = q (sym (ap (λ r. r.ques) left) ∙ none_yet) in
    record {
      no_waiting = before.no_waiting;
      no_woken = before.no_woken;
      all_same =
          subst (λ r. All (λ g'. r.flag ≡ some g') rest) (sym left) (All-Takes _ t before.all_same);
    }
Step-Quiet {n} {s} (Step.leaves_last g rest b t e) c q none_yet =
    let (one, left) = leave-empties s.room b e in
    let before : Quiet s = q (sym (ap (λ r. r.ques) left) ∙ none_yet) in
    record {
      no_waiting = refl;
      no_woken = omega (arith, length-append s.waiting s.woken, before.no_waiting, before.no_woken);
      all_same = All-empty _ rest (omega (arith, one, c.users, length-Takes t));
    }

Steps-Quiet : {n : ℕ} {s : System} → Steps n (start n) s → s.room.ques ≡ 0 → Quiet s
Steps-Quiet stay e = record { no_waiting = refl; no_woken = refl; all_same = tt }
Steps-Quiet (step r x) e = Step-Quiet x (reachable-Counts r) (Steps-Quiet r) e

-- In every state that the threads can reach before one of them has waited, all threads inside have the
-- gender of the flag.
pub no_queue-AllSame : {n : ℕ} {s : System} → Steps n (start n) s → s.room.ques ≡ 0 → AllSame s
no_queue-AllSame r e = (Steps-Quiet r e).all_same
