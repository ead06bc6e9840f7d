-- ===== src/Bathroom/System/Tallies.antt =====
-- The numbers of uses and of waits in the monitor of project3/bathroom.c.
use cs3013_operating_systems.Prelude.{ℕ, ◌+◌, ◌≡◌, refl, true, false, some, arith}
use cs3013_operating_systems.Bathroom.Monitor.{
  Gender, Bathroom, admit, queue_up, enter, resume, leave, count_users, count_queue,
}
use cs3013_operating_systems.Bathroom.System.Counts.{
  enter-admits, enter-queues, leave-stays, leave-empties,
}

pub admit-ques : (g : Gender) (b : Bathroom) → (admit g b).ques ≡ b.ques
unfolding admit count_users
admit-ques g b = ground arith

pub queue_up-ques : (b : Bathroom) → (queue_up b).ques ≡ b.ques + 1
unfolding queue_up count_queue
queue_up-ques b = ground arith

pub resume-ques : (n : ℕ) (g : Gender) (b : Bathroom) → (resume n g b).ques ≡ b.ques
unfolding resume count_users
resume-ques n g b = ground arith

pub admit-uses : (g : Gender) (b : Bathroom) → (admit g b).uses ≡ b.uses + 1
unfolding admit count_users
admit-uses g b = ground arith

pub queue_up-uses : (b : Bathroom) → (queue_up b).uses ≡ b.uses
unfolding queue_up count_queue
queue_up-uses b = ground arith

pub resume-uses : (n : ℕ) (g : Gender) (b : Bathroom) → (resume n g b).uses ≡ b.uses + 1
unfolding resume count_users
resume-uses n g b = ground arith

-- The same at the outcomes of `Enter` and `Leave`.
module _ (g : Gender) (b b' : Bathroom) where
  pub enters-tallies : enter g b ≡ (false, b') → (b'.uses ≡ b.uses + 1) × (b'.ques ≡ b.ques)
  enters-tallies e = rw (enter-admits g b b' e) (admit-uses g b, admit-ques g b)

  pub waits-tallies : enter g b ≡ (true, b') → (b'.uses ≡ b.uses) × (b'.ques ≡ b.ques + 1)
  waits-tallies e =
      let (queued, taken) = enter-queues g b b' e in rw queued (queue_up-uses b, queue_up-ques b)

module _ (b b' : Bathroom) where
  pub leaves-tallies : leave b ≡ some (false, b') → (b'.uses ≡ b.uses) × (b'.ques ≡ b.ques)
  leaves-tallies e = let (more, left) = leave-stays b b' e in rw left (refl, refl)

  pub leaves_last-tallies : leave b ≡ some (true, b') → (b'.uses ≡ b.uses) × (b'.ques ≡ b.ques)
  leaves_last-tallies e = let (one, left) = leave-empties b b' e in rw left (refl, refl)
