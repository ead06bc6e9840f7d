-- ===== src/Commander/Queue.antt =====
-- The background queue of project1/mc2.c: `running` holds the pids of the background tasks, and 0
-- where no task is.
pub mod Defects
pub mod Laws
pub mod Size
pub mod Tasks
use cs3013_operating_systems.Prelude.{
  ℕ, zero, suc, ◌+◌, ◌-◌, Bool, true, false, Option, none, some, List, [], ◌∷◌, if◌then◌else◌, ltb,
  ◌==◌, get_or, set, length,
}

-- `MAXBACK`
abbrev pub max_back : ℕ
max_back = 20

-- `running[i] = pid` at the first zero, with its index, or `none` for -1
pub add_loop : List ℕ → ℕ → ℕ → Option ℕ × List ℕ
add_loop [] pid i = (none, [])
add_loop (x ∷ xs) pid i =
    let (found, rest) = add_loop xs pid (i + 1) in
    if x == 0 then (some i, pid ∷ xs) else (found, x ∷ rest)

unfoldable pub add_running : ℕ → List ℕ → Option ℕ × List ℕ
unfolding add_loop
add_running pid running = add_loop running pid 0

-- The first loop of `removebackground`
unfoldable pub clear_pid : ℕ → List ℕ → List ℕ
clear_pid pid [] = []
clear_pid pid (x ∷ xs) = (if x == pid then 0 else x) ∷ clear_pid pid xs

-- The second loop: `index = i` at each zero, so that the last one is kept. `none` is the value that
-- `index` has before it is set.
unfoldable pub zero_index : List ℕ → ℕ → Option ℕ → Option ℕ
zero_index [] i index = index
zero_index (x ∷ xs) i index = zero_index xs (i + 1) (if x == 0 then some i else index)

-- `for (i = index; i < 19; i++) running[i] = running[i + 1]`, with the rounds that are left
unfoldable pub shift_loop : ℕ → ℕ → List ℕ → List ℕ
shift_loop zero i running = running
shift_loop (suc n) i running = shift_loop n (i + 1) (set running i (get_or running (i + 1) 0))

-- `removebackground`; `none` where it goes on with an `index` that was never set
unfoldable pub remove_background : ℕ → List ℕ → Option (List ℕ)
unfolding clear_pid zero_index shift_loop
remove_background pid running =
    let cleared = clear_pid pid running in
    elim (zero_index cleared 0 none) [
      | none ↦ none
      | some index ↦
          let start = if index == 0 then set cleared 0 (get_or cleared 1 0) else cleared in
          some (shift_loop (max_back - 1 - index) index start)
    ]

-- `emptybackground`: 1 where no entry is positive
unfoldable pub empty_background : List ℕ → Bool
empty_background [] = true
empty_background (x ∷ xs) = if ltb 0 x then false else empty_background xs

-- The lines of `printrunning`: the number of an entry and its pid
unfoldable pub print_running : List ℕ → ℕ → List (ℕ × ℕ)
print_running [] i = []
print_running (x ∷ xs) i =
    let rest = print_running xs (i + 1) in if ltb 0 x then (i + 1, x) ∷ rest else rest

-- `isbackground` on the 128 bytes of its buffer, those behind the end of the string included
unfoldable pub is_background : List ℕ → Bool
is_background [] = false
is_background (c ∷ cs) = if c == b'&' then true else is_background cs
