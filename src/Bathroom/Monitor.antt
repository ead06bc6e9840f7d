-- ===== src/Bathroom/Monitor.antt =====
-- `Initialize`, `Enter` and `Leave` of project3/bathroom.c, as what a thread does while it holds the
-- lock. The timers are left out.
use cs3013_operating_systems.Prelude.{
  ℕ, zero, suc, ◌+◌, ◌-◌, Bool, true, false, Option, none, some, List, ltb, if◌then◌else◌, ℤ,
  minus_one, offset, length, set, get_or, replicate,
}

-- `gender`
pub data Gender : Type 0 where
  male female : Gender

abbrev pub same : Gender → Gender → Bool
same male male = true
same female female = true
same _ _ = false

-- `struct bathroom` without the times, `flag` (`none` is VACANT), and the two arrays. A write outside
-- an array is counted.
pub record Bathroom : Type 0 where
  pub flag : Option Gender
  pub users : ℕ
  pub quers : ℕ
  pub ques : ℕ
  pub uses : ℕ
  pub barray : List ℤ
  pub qarray : List ℤ
  pub overruns : ℕ

-- `Initialize`, for a number of threads
abbrev pub initialize : ℕ → Bathroom
initialize users = record {
  flag = none;
  users = 0;
  quers = 0;
  ques = 0;
  uses = 0;
  barray = replicate users minus_one;
  qarray = replicate users minus_one;
  overruns = 0;
}

-- `barray[i]++`
unfoldable pub count_users : ℕ → Bathroom → Bathroom
count_users i b =
    if ltb i (length b.barray)
    then record b { barray = set b.barray i (offset (get_or b.barray i minus_one) 1) }
    else record b { overruns = b.overruns + 1 }

-- `qarray[i]++`
unfoldable pub count_queue : ℕ → Bathroom → Bathroom
count_queue i b =
    if ltb i (length b.qarray)
    then record b { qarray = set b.qarray i (offset (get_or b.qarray i minus_one) 1) }
    else record b { overruns = b.overruns + 1 }

-- The cases of `Enter` in which the thread does not wait.
unfoldable pub admit : Gender → Bathroom → Bathroom
unfolding count_users
admit g b =
    count_users (b.users + 1) (record b { flag = some g; users = b.users + 1; uses = b.uses + 1 })

-- The last case of `Enter`, up to the wait.
unfoldable pub queue_up : Bathroom → Bathroom
unfolding count_queue
queue_up b = count_queue (b.quers + 1) (record b { quers = b.quers + 1; ques = b.ques + 1 })

-- `Enter` up to its end or its wait, and whether it waits.
unfoldable pub enter : Gender → Bathroom → Bool × Bathroom
unfolding admit queue_up
enter g b = elim b.flag [
  | none ↦ (false, admit g b)
  | some g' ↦ if same g' g then (false, admit g b) else (true, queue_up b)
]

-- `Enter` after its wait. `quers` counts the thread, so that it is not 0. `users` is the number of
-- threads, by which the source indexes `barray`.
unfoldable pub resume : (users : ℕ) → Gender → Bathroom → Bathroom
unfolding count_users
resume users g b =
    let b' = count_users users (record b { flag = some g; users = b.users + 1 }) in
    record b' { uses = b'.uses + 1; quers = b'.quers - 1 }

-- `Leave`, and whether it signals. `none` is a count below zero.
unfoldable pub leave : Bathroom → Option (Bool × Bathroom)
leave b = elim b.users [
  | zero ↦ none
  | suc zero ↦ some (true, record b { flag = none; users = 0 })
  | suc (suc u) ↦ some (false, record b { users = suc u })
]
