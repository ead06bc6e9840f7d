-- ===== src/Bathroom/System/Counts.antt =====
-- The counters of the monitor agree with the threads.
use cs3013_operating_systems.Prelude.{
  ℕ, zero, suc, ◌+◌, ◌-◌, ◌<◌, ◌≡◌, ◌≢◌, refl, ◌↔◌, Bool, true, false, none, some, List, arith,
  length, length-append, Bool-cases, ◌⊎◌, inl, inr, Option-cases, sym, ◌∙◌, ap,
}
use cs3013_operating_systems.Bathroom.Monitor.{
  Gender, Bathroom, same, admit, queue_up, enter, resume, leave, count_users, count_queue,
}
use cs3013_operating_systems.Bathroom.System.{System, start, Takes, Step, Steps}

-- The counters, and no thread waits while the bathroom is empty.
pub record Counts (s : System) : Type 0 where
  pub users : s.room.users ≡ length s.inside
  pub quers : s.room.quers ≡ length s.waiting + length s.woken
  pub vacant : (s.room.flag ≡ none) ↔ (s.room.users ≡ 0)
  pub no_waiter : (length s.waiting ≡ 0) ⊎ (s.room.users ≢ 0)

pub length-Takes : {g : Gender} {xs ys : List Gender} → Takes g xs ys → length xs ≡ length ys + 1
length-Takes (Takes.here xs) = omega arith
length-Takes (Takes.there x t) = omega (arith, length-Takes t)

-- What the array writes leave alone.
count_users-frame :
    (i : ℕ) (b : Bathroom)
    → ((count_users i b).flag ≡ b.flag)
      × ((count_users i b).users ≡ b.users)
      × ((count_users i b).quers ≡ b.quers)
unfolding count_users
count_users-frame i b = (ground arith, ground arith, ground arith)

count_queue-frame :
    (i : ℕ) (b : Bathroom)
    → ((count_queue i b).flag ≡ b.flag)
      × ((count_queue i b).users ≡ b.users)
      × ((count_queue i b).quers ≡ b.quers)
unfolding count_queue
count_queue-frame i b = (ground arith, ground arith, ground arith)

-- The two outcomes of `Enter`.
pub enter_cases :
    (g : Gender) (b : Bathroom)
    → (enter g b ≡ (false, admit g b)) ⊎ ((enter g b ≡ (true, queue_up b)) × (b.flag ≢ none))
unfolding enter
enter_cases g b = elim (Option-cases b.flag) [
  | inl vacant ↦ inl (rw vacant)
  | inr (g', taken) ↦ elim (Bool-cases (same g' g)) [
    | inl yes_same ↦ inl (rw taken (rw yes_same))
    | inr other ↦ inr (rw taken (rw other), λ e. cc)
  ]
]

pub enter-admits : (g : Gender) (b b' : Bathroom) → enter g b ≡ (false, b') → b' ≡ admit g b
enter-admits g b b' e = elim (enter_cases g b) [ inl h ↦ cc | inr (h, _) ↦ cc ]

pub enter-queues :
    (g : Gender) (b b' : Bathroom) → enter g b ≡ (true, b') → (b' ≡ queue_up b) × (b.flag ≢ none)
enter-queues g b b' e = elim (enter_cases g b) [ inl h ↦ cc | inr (h, taken) ↦ (cc, taken) ]

pub admit-counts :
    (g : Gender) (b : Bathroom)
    → ((admit g b).flag ≡ some g)
      × ((admit g b).users ≡ b.users + 1)
      × ((admit g b).quers ≡ b.quers)
unfolding admit
admit-counts g b = count_users-frame (b.users + 1) _

pub queue_up-counts :
    (b : Bathroom)
    → ((queue_up b).flag ≡ b.flag)
      × ((queue_up b).users ≡ b.users)
      × ((queue_up b).quers ≡ b.quers + 1)
unfolding queue_up
queue_up-counts b = count_queue-frame (b.quers + 1) _

pub resume-counts :
    (n : ℕ) (g : Gender) (b : Bathroom)
    → ((resume n g b).flag ≡ some g)
      × ((resume n g b).users ≡ b.users + 1)
      × ((resume n g b).quers ≡ b.quers - 1)
unfolding resume
resume-counts n g b =
    let (flag, users, quers) =
      count_users-frame n (record b { flag = some g; users = b.users + 1 }) in
    (flag, users, ap (λ q. q - 1) quers)

-- The three outcomes of `Leave`, by the count of users.
pub leave_cases :
    (u : ℕ) (b : Bathroom)
    → b.users ≡ u
    → ((u ≡ 0) × (leave b ≡ none))
      ⊎ (((u ≡ 1) × (leave b ≡ some (true, record b { flag = none; users = 0 })))
          ⊎ ((1 < u) × (leave b ≡ some (false, record b { users = u - 1 }))))
unfolding leave
leave_cases zero b e = inl (refl, rw e)
leave_cases (suc zero) b e = inr (inl (refl, rw e))
leave_cases (suc (suc u)) b e =
    let less : suc (suc u) - 1 ≡ suc u = omega arith in inr (inr (omega arith, rw e (rw less)))

pub leave-stays :
    (b b' : Bathroom)
    → leave b ≡ some (false, b')
    → (1 < b.users) × (b' ≡ record b { users = b.users - 1 })
leave-stays b b' e = elim (leave_cases b.users b refl) [
  | inl (_, none_left) ↦ cc
  | inr (inl (_, last)) ↦ cc
  | inr (inr (more, r)) ↦ (more, cc)
]

pub leave-empties :
    (b b' : Bathroom)
    → leave b ≡ some (true, b')
    → (b.users ≡ 1) × (b' ≡ record b { flag = none; users = 0 })
leave-empties b b' e = elim (leave_cases b.users b refl) [
  | inl (_, none_left) ↦ cc
  | inr (inl (one, last)) ↦ (one, cc)
  | inr (inr (_, r)) ↦ cc
]

pub Step-Counts : {n : ℕ} {s t : System} → Step n s t → Counts s → Counts t
Step-Counts {n} {s} (Step.enters g b e) c =
    let (flag, users, quers) = admit-counts g s.room in
    rw (enter-admits g s.room b e) (record {
      users = omega (arith, users, c.users);
      quers = omega (arith, quers, c.quers);
      vacant = (λ v. cc, λ v. absurd (omega (arith, users, v)));
      no_waiter = inr (λ v. omega (arith, users, v));
    })
Step-Counts {n} {s} (Step.waits g b e) c =
    let (flag, users, quers) = queue_up-counts s.room in
    let (queued, taken) = enter-queues g s.room b e in
    rw queued (record {
      users = omega (arith, users, c.users);
      quers = omega (arith, quers, c.quers);
      vacant =
          (λ v. absurd (taken (sym flag ∙ v)), λ v. absurd (taken (c.vacant.1 (sym users ∙ v))));
      no_waiter = inr (λ v. taken (c.vacant.1 (sym users ∙ v)));
    })
Step-Counts {n} {s} (Step.wakes g rest t) c = record {
  users = c.users;
  quers = omega (arith, c.quers, length-Takes t);
  vacant = c.vacant;
  no_waiter = elim c.no_waiter [
    | inl none_left ↦ absurd (omega (arith, none_left, length-Takes t))
    | inr busy ↦ inr busy
  ];
}
Step-Counts {n} {s} (Step.resumes g rest t) c =
    let (flag, users, quers) = resume-counts n g s.room in
    record {
      users = omega (arith, users, c.users);
      quers = omega (arith, quers, c.quers, length-Takes t);
      vacant = (λ v. cc, λ v. absurd (omega (arith, users, v)));
      no_waiter = inr (λ v. omega (arith, users, v));
    }
Step-Counts {n} {s} (Step.leaves g rest b t e) c =
    let (more, left) = leave-stays s.room b e in
    rw left (record {
      users = omega (arith, c.users, length-Takes t);
      quers = c.quers;
      vacant =
          (λ v. absurd (omega (arith, c.vacant.0 v, more)), λ v. absurd (omega (arith, v, more)));
      no_waiter = inr (λ v. omega (arith, v, more));
    })
Step-Counts {n} {s} (Step.leaves_last g rest b t e) c =
    let (one, left) = leave-empties s.room b e in
    rw left (record {
      users = omega (arith, c.users, one, length-Takes t);
      quers = omega (arith, c.quers, length-append s.waiting s.woken);
      vacant = (λ v. refl, λ v. refl);
      no_waiter = inl refl;
    })

start-Counts : (n : ℕ) → Counts (start n)
start-Counts n = record {
  users = refl;
  quers = refl;
  vacant = (λ v. refl, λ v. refl);
  no_waiter = inl refl;
}

Steps-Counts : {n : ℕ} {s t : System} → Steps n s t → Counts s → Counts t
Steps-Counts Steps.stay c = c
Steps-Counts (Steps.step r x) c = Step-Counts x (Steps-Counts r c)

-- In every state that the threads can reach, `users` counts the threads inside and `quers` those that
-- wait or were woken, the flag is VACANT exactly where nobody is inside, and no thread waits then.
pub reachable-Counts : {n : ℕ} {s : System} → Steps n (start n) s → Counts s
reachable-Counts {n} r = Steps-Counts r (start-Counts n)

-- In every state that the threads can reach, a thread that is inside can leave: the count does not go
-- below zero. It signals exactly where it is the last one.
pub leave_total :
    {n : ℕ} {s : System} {g : Gender} {rest : List Gender}
    → Steps n (start n) s
    → Takes g s.inside rest
    → (b : Bathroom) × (signal : Bool) × (leave s.room ≡ some (signal, b))
      × ((length rest ≡ 0) ↔ (signal ≡ true))
leave_total {n} {s} r t =
    let c = reachable-Counts r in
    elim (leave_cases s.room.users s.room refl) [
      | inl (zero_users, _) ↦ absurd (omega (arith, zero_users, c.users, length-Takes t))
      | inr (inl (one, run)) ↦
          (_, true, run, (λ e. refl, λ e. omega (arith, one, c.users, length-Takes t)))
      | inr (inr (more, run)) ↦
          (_, false, run, (λ e. absurd (omega (arith, more, e, c.users, length-Takes t)), λ e. cc))
    ]
