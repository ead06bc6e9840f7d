-- ===== src/Commander/Queue/Tasks.antt =====
-- Which tasks the background queue holds after `addrunning` and `removebackground`.
use cs3013_operating_systems.Prelude.{
  ℕ, zero, suc, ◌+◌, ◌-◌, ◌<◌, ◌≡◌, ◌≢◌, refl, ◌∙◌, ◌↔◌, Option, none, some, List, [], ◌∷◌, arith,
  length, get_elem?, set, ◌==◌, if◌then◌else◌, ap, sym, subst, ℕ_discrete, dec_lt,
  lt-length_of_get_elem?, get_elem?_of_lt,
}
use cs3013_operating_systems.Commander.Queue.{
  max_back, add_loop, add_running, clear_pid, remove_background,
}
use cs3013_operating_systems.Commander.Queue.Laws.{
  In, Removed, found, kept, zero_index-ZeroIndex, clear_pid-get, length-clear_pid,
  remove_background-Removed,
}

-- What `addrunning` does: the pid goes to the first free entry, or the queue is full.
pub data Added (pid i : ℕ) (running : List ℕ) (out : Option ℕ × List ℕ) : Type 0 where
  added :
      (k : ℕ)
      → get_elem? running k ≡ some 0
      → ((j : ℕ) → j < k → get_elem? running j ≢ some 0)
      → out ≡ (some (i + k), set running k pid)
      → Added pid i running out
  full : ((j : ℕ) → get_elem? running j ≢ some 0) → out ≡ (none, running) → Added pid i running out

not_before :
    (x : ℕ) (xs : List ℕ) (k : ℕ)
    → x ≢ 0
    → ((j : ℕ) → j < k → get_elem? xs j ≢ some 0)
    → (j : ℕ) → j < suc k
    → get_elem? (x ∷ xs) j ≢ some 0
not_before x xs k ne h zero l e = ground (arith, e)
not_before x xs k ne h (suc j) l e = h j (omega arith) e

not_any :
    (x : ℕ) (xs : List ℕ)
    → x ≢ 0
    → ((j : ℕ) → get_elem? xs j ≢ some 0)
    → (j : ℕ) → get_elem? (x ∷ xs) j ≢ some 0
not_any x xs ne h zero e = ground (arith, e)
not_any x xs ne h (suc j) e = h j e

add_loop-Added : (running : List ℕ) (pid i : ℕ) → Added pid i running (add_loop running pid i)
unfolding add_loop
add_loop-Added [] pid i = full (λ j e. cc) refl
add_loop-Added (x ∷ xs) pid i = elim (ℕ_discrete x 0) [
  | yes e ↦ added 0 (ap some e) (λ j l. absurd (omega arith)) (ground arith)
  | no ne ↦ elim (add_loop-Added xs pid (i + 1)) [
    | added k zero_at before r ↦
        added (suc k) zero_at (not_before x xs k ne before) (ground (arith, r))
    | full absent r ↦ full (not_any x xs ne absent) (ground (arith, r))
  ]
]

-- `addrunning` stores the pid in the first free entry and returns its index; where no entry is free
-- it returns -1 and leaves the queue as it was.
pub add_running-Added : (pid : ℕ) (running : List ℕ) → Added pid 0 running (add_running pid running)
unfolding add_running
add_running-Added pid running = add_loop-Added running pid 0

-- A position of the list with the pid cleared that holds another pid.
clear_pid-In :
    (pid q j : ℕ) (running : List ℕ)
    → q ≢ 0
    → get_elem? (clear_pid pid running) j ≡ some q
    → (get_elem? running j ≡ some q) × (q ≢ pid)
clear_pid-In pid q j running nz e =
    let (a, found_at) = get_elem?_of_lt running j (
      omega (
        arith,
        lt-length_of_get_elem? (clear_pid pid running) j q e,
        length-clear_pid pid running,
      )) in
    let read : some q ≡ some (if a == pid then 0 else a) =
      sym e ∙ clear_pid-get pid running j a found_at in
    (ground (arith, read, found_at), ground (arith, read))

clear_pid-keeps :
    (pid q j : ℕ) (running : List ℕ)
    → q ≢ pid
    → get_elem? running j ≡ some q
    → get_elem? (clear_pid pid running) j ≡ some q
clear_pid-keeps pid q j running ne e = clear_pid-get pid running j q e ∙ ground arith

module _ {pid k : ℕ} {running r : List ℕ} (s : Removed pid running r k) where
  -- Each entry of the result comes from an entry of the list before the shift, and not from entry
  -- `k`, unless that is the last one.
  pub source :
      (j : ℕ)
      → j < max_back
      → (j' : ℕ) × (get_elem? r j ≡ get_elem? (clear_pid pid running) j')
        × (j' ≡ k → k ≡ max_back - 1)
  source j h = elim (dec_lt j k) [
    | yes l ↦ (j, s.before j l, λ e. absurd (omega (arith, e)))
    | no l ↦ elim (dec_lt (j + 1) max_back) [
      | yes l' ↦ (j + 1, s.moved j (omega arith) l', λ e. absurd (omega (arith, e)))
      | no l' ↦
          (let at_end : j ≡ max_back - 1 = omega arith in
            (max_back - 1, rw at_end s.end, λ e. sym e))
    ]
  ]

  from_result : (q : ℕ) → In q r → In q (clear_pid pid running)
  from_result q (j, e) =
      let (j', same, other) = source j (omega (arith, lt-length_of_get_elem? r j q e, s.size)) in
      (j', sym same ∙ e)

  to_result :
      (q : ℕ)
      → q ≢ 0
      → get_elem? (clear_pid pid running) k ≡ some 0
      → length running ≡ max_back
      → In q (clear_pid pid running)
      → In q r
  to_result q nz here l (j, e) = elim (dec_lt j k) [
    | yes h ↦ (j, s.before j h ∙ e)
    | no h ↦
        (let ne : j ≢ k = λ (same : j ≡ k). nz (ground (arith, same, here, e)) in
          let back : j - 1 + 1 ≡ j = omega (arith, ne) in
          let inside : j < max_back = omega (
            arith,
            lt-length_of_get_elem? (clear_pid pid running) j q e,
            length-clear_pid pid running,
          ) in
          (j - 1, s.moved (j - 1) (omega (arith, ne)) (omega (arith, ne)) ∙ rw back e))
  ]

-- `removebackground` of a task in the queue succeeds and keeps the queue's length; a pid that is not
-- zero is in the queue afterwards exactly if it was before and is not the pid removed.
pub remove_background-In :
    (pid q : ℕ) (running : List ℕ)
    → pid ≢ 0
    → q ≢ 0
    → length running ≡ max_back
    → In pid running
    → (r : List ℕ) × (remove_background pid running ≡ some r)
      × (length r ≡ max_back)
      × (In q r ↔ (In q running × (q ≢ pid)))
remove_background-In pid q running nz nzq l (i, e) =
    elim (zero_index-ZeroIndex (clear_pid pid running) 0 none) [
      | kept absent r ↦ absurd (absent i cleared_here)
      | found k last r ↦
          (let (out, run, s) = remove_background-Removed pid running k l last in
            (
              out,
              run,
              s.size,
              (
                λ held.
                    (let (j, at) = from_result s q held in
                      let (old, ne) = clear_pid-In pid q j running nzq at in ((j, old), ne)),
                λ held.
                    to_result s q nzq last.here l
                      (held.0.0, clear_pid-keeps pid q held.0.0 running held.1 held.0.1),
              ),
            ))
    ]
  where
    cleared_here : get_elem? (clear_pid pid running) i ≡ some 0
    cleared_here = clear_pid-get pid running i pid e ∙ ground arith

-- `removebackground` of any pid, where it finds an entry that is free once the pid is cleared, keeps the
-- other tasks.
pub remove_background-Others :
    (pid q : ℕ) (running r : List ℕ)
    → q ≢ 0
    → length running ≡ max_back
    → remove_background pid running ≡ some r
    → In q r ↔ (In q running × (q ≢ pid))
unfolding remove_background
remove_background-Others pid q running r nzq l e =
    elim (zero_index-ZeroIndex (clear_pid pid running) 0 none) [
      | kept absent unset ↦
          (let stuck : remove_background pid running ≡ none = rw (unset, remove_background) refl in
            absurd cc)
      | found k last set_index ↦
          (let (out, run, s) = remove_background-Removed pid running k l last in
            let same : out ≡ r = cc in
            subst (λ xs. In q xs ↔ (In q running × (q ≢ pid))) same
              (
                λ held.
                    (let (j, at) = from_result s q held in
                      let (old, ne) = clear_pid-In pid q j running nzq at in ((j, old), ne)),
                λ held.
                    to_result s q nzq last.here l
                      (held.0.0, clear_pid-keeps pid q held.0.0 running held.1 held.0.1),
              ))
    ]
