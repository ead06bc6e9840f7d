-- ===== src/Bathroom/System/Arrays.antt =====
-- The two arrays of project3/bathroom.c, and how often they are written.
use cs3013_operating_systems.Prelude.{
  ℕ, zero, suc, Option, ◌+◌, ◌-◌, ◌<◌, ◌≤◌, ◌≡◌, refl, ap, subst, sym, ◌∙◌, Bool, true, false, some,
  List, [], ◌∷◌, arith, length, length-set, replicate, set, get_or, ltb, ℤ, pos, negsuc, offset,
  minus_one, All, All-set, Bool-cases, inl, inr,
}
use cs3013_operating_systems.Bathroom.Monitor.{
  Gender, Bathroom, admit, queue_up, resume, leave, count_users, count_queue,
}
use cs3013_operating_systems.Bathroom.System.Counts.{leave-stays, leave-empties}

-- How often an entry was written: the arrays start with -1.
abbrev pub writes : ℤ → ℕ
writes (pos k) = suc k
writes (negsuc k) = 0

abbrev pub total_writes : List ℤ → ℕ
total_writes [] = 0
total_writes (z ∷ zs) = writes z + total_writes zs

abbrev pub AtLeastMinusOne : ℤ → Type 0
AtLeastMinusOne z = (k : ℕ) × (offset z 1 ≡ pos k) × (k ≡ writes z)

next_AtLeastMinusOne : (k : ℕ) → AtLeastMinusOne (pos k)
next_AtLeastMinusOne k = (k + 1, refl, omega arith)

total_writes-set :
    (zs : List ℤ) (i : ℕ) (z : ℤ)
    → i < length zs
    → total_writes (set zs i z) + writes (get_or zs i minus_one) ≡ total_writes zs + writes z
total_writes-set [] i z h = absurd (omega arith)
total_writes-set (x ∷ zs) zero z h = omega arith
total_writes-set (x ∷ zs) (suc i) z h = omega (arith, total_writes-set zs i z (omega arith))

get_or-AtLeastMinusOne :
    (zs : List ℤ) (i : ℕ) → All AtLeastMinusOne zs → AtLeastMinusOne (get_or zs i minus_one)
get_or-AtLeastMinusOne [] i h = (0, refl, refl)
get_or-AtLeastMinusOne (x ∷ zs) zero h = h.0
get_or-AtLeastMinusOne (x ∷ zs) (suc i) h = get_or-AtLeastMinusOne zs i h.1

pub total_writes-replicate : (n : ℕ) → total_writes (replicate n minus_one) ≡ 0
total_writes-replicate zero = refl
total_writes-replicate (suc n) = omega (arith, total_writes-replicate n)

-- The arrays have an entry for each thread, and `recorded` writes have been made, inside or behind them.
pub record Arrays (n recorded : ℕ) (b : Bathroom) : Type 0 where
  pub size_users : length b.barray ≡ n
  pub size_queue : length b.qarray ≡ n
  pub users : All AtLeastMinusOne b.barray
  pub queue : All AtLeastMinusOne b.qarray
  pub total : total_writes b.barray + total_writes b.qarray + b.overruns ≡ recorded

count_users-Arrays : (n k i : ℕ) (b : Bathroom) → Arrays n k b → Arrays n (suc k) (count_users i b)
unfolding count_users
count_users-Arrays n k i b a = elim (Bool-cases (ltb i (length b.barray))) [
  | inl fits ↦
      (let (next, e, was) = get_or-AtLeastMinusOne b.barray i a.users in
        rw fits (record {
          size_users = length-set b.barray i _ ∙ a.size_users;
          size_queue = a.size_queue;
          users =
              All-set AtLeastMinusOne b.barray i _ a.users
                (subst AtLeastMinusOne (sym e) (next_AtLeastMinusOne next));
          queue = a.queue;
          total = omega (
            arith,
            a.total,
            ap writes e,
            was,
            total_writes-set b.barray i (offset (get_or b.barray i minus_one) 1)
                (ground (arith, fits)),
          );
        }))
  | inr over ↦ rw over (record {
    size_users = a.size_users;
    size_queue = a.size_queue;
    users = a.users;
    queue = a.queue;
    total = omega (arith, a.total);
  })
]

count_queue-Arrays : (n k i : ℕ) (b : Bathroom) → Arrays n k b → Arrays n (suc k) (count_queue i b)
unfolding count_queue
count_queue-Arrays n k i b a = elim (Bool-cases (ltb i (length b.qarray))) [
  | inl fits ↦
      (let (next, e, was) = get_or-AtLeastMinusOne b.qarray i a.queue in
        rw fits (record {
          size_users = a.size_users;
          size_queue = length-set b.qarray i _ ∙ a.size_queue;
          users = a.users;
          queue =
              All-set AtLeastMinusOne b.qarray i _ a.queue
                (subst AtLeastMinusOne (sym e) (next_AtLeastMinusOne next));
          total = omega (
            arith,
            a.total,
            ap writes e,
            was,
            total_writes-set b.qarray i (offset (get_or b.qarray i minus_one) 1)
                (ground (arith, fits)),
          );
        }))
  | inr over ↦ rw over (record {
    size_users = a.size_users;
    size_queue = a.size_queue;
    users = a.users;
    queue = a.queue;
    total = omega (arith, a.total);
  })
]

-- The other fields do not matter.
pub other_fields :
    {n k : ℕ} (b : Bathroom) (flag : Option Gender) (users quers ques uses : ℕ)
    → Arrays n k b
    → Arrays n k (record b { flag = flag; users = users; quers = quers; ques = ques; uses = uses })
other_fields b flag users quers ques uses a = record {
  size_users = a.size_users;
  size_queue = a.size_queue;
  users = a.users;
  queue = a.queue;
  total = a.total;
}

count_users-overruns : (i : ℕ) (b : Bathroom) → b.overruns ≤ (count_users i b).overruns
unfolding count_users
count_users-overruns i b = ground arith

count_queue-overruns : (i : ℕ) (b : Bathroom) → b.overruns ≤ (count_queue i b).overruns
unfolding count_queue
count_queue-overruns i b = ground arith

count_users-over :
    (i : ℕ) (b : Bathroom) → length b.barray ≡ i → (count_users i b).overruns ≡ b.overruns + 1
unfolding count_users
count_users-over i b e = ground (arith, e)

pub admit-Arrays :
    {n k : ℕ} (g : Gender) (b : Bathroom) → Arrays n k b → Arrays n (suc k) (admit g b)
unfolding admit
admit-Arrays {n} {k} g b a =
    count_users-Arrays n k (b.users + 1) _
      (other_fields b (some g) (b.users + 1) b.quers b.ques (b.uses + 1) a)

pub admit-overruns : (g : Gender) (b : Bathroom) → b.overruns ≤ (admit g b).overruns
unfolding admit
admit-overruns g b = count_users-overruns (b.users + 1) _

pub queue_up-Arrays : {n k : ℕ} (b : Bathroom) → Arrays n k b → Arrays n (suc k) (queue_up b)
unfolding queue_up
queue_up-Arrays {n} {k} b a =
    count_queue-Arrays n k (b.quers + 1) _
      (other_fields b b.flag b.users (b.quers + 1) (b.ques + 1) b.uses a)

pub queue_up-overruns : (b : Bathroom) → b.overruns ≤ (queue_up b).overruns
unfolding queue_up
queue_up-overruns b = count_queue-overruns (b.quers + 1) _

pub resume-Arrays :
    {n k : ℕ} (m : ℕ) (g : Gender) (b : Bathroom) → Arrays n k b → Arrays n (suc k) (resume m g b)
unfolding resume
resume-Arrays {n} {k} m g b a =
    let b' : Bathroom = count_users m (record b { flag = some g; users = b.users + 1 }) in
    other_fields b' b'.flag b'.users (b'.quers - 1) b'.ques (b'.uses + 1)
      (count_users-Arrays n k m _ (other_fields b (some g) (b.users + 1) b.quers b.ques b.uses a))

-- The thread that resumes writes behind the array.
pub resume-overruns :
    {n k : ℕ} (g : Gender) (b : Bathroom) → Arrays n k b → (resume n g b).overruns ≡ b.overruns + 1
unfolding resume
resume-overruns {n} g b a = count_users-over n _ a.size_users

pub leave-fields :
    (signal : Bool) (b b' : Bathroom)
    → leave b ≡ some (signal, b')
    → (f : Option Gender) × (u : ℕ) × (b' ≡ record b { flag = f; users = u })
leave-fields true b b' e = let (one, left) = leave-empties b b' e in (_, _, left)
leave-fields false b b' e = let (more, left) = leave-stays b b' e in (_, _, left)
