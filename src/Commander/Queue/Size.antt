-- ===== src/Commander/Queue/Size.antt =====
-- The length of the background queue of project1/mc2.c.
use cs3013_operating_systems.Prelude.{
  ℕ, suc, ◌+◌, ◌-◌, ◌≡◌, refl, ◌∙◌, ap, inl, inr, none, some, Option-cases, List, [], ◌∷◌, length,
  ◌==◌, Bool-cases,
}
use cs3013_operating_systems.Commander.Queue.{
  max_back, add_loop, add_running, clear_pid, zero_index, shift_loop, remove_background,
}
use cs3013_operating_systems.Commander.Queue.Laws.{
  length-clear_pid, length-shift_loop, length-shift_start, shift_start,
}

length-add_loop : (xs : List ℕ) (pid i : ℕ) → length (add_loop xs pid i).1 ≡ length xs
unfolding add_loop
length-add_loop [] pid i = refl
length-add_loop (x ∷ xs) pid i = elim (Bool-cases (x == 0)) [
  | inl e ↦ rw e refl
  | inr e ↦ rw e (ap suc (length-add_loop xs pid (i + 1)))
]

pub length-add_running :
    (pid : ℕ) (running : List ℕ) → length (add_running pid running).1 ≡ length running
unfolding add_running
length-add_running pid running = length-add_loop running pid 0

pub length-remove_background :
    (pid : ℕ) (running r : List ℕ)
    → remove_background pid running ≡ some r
    → length r ≡ length running
unfolding remove_background shift_start
length-remove_background pid running r e =
    elim (Option-cases (zero_index (clear_pid pid running) 0 none)) [
      | inl unset ↦
          (let none' : remove_background pid running ≡ none = rw (unset, remove_background) refl in
            cc)
      | inr (index, found) ↦
          (let cleared = clear_pid pid running in
            let kept : remove_background pid running
                ≡ some (shift_loop (max_back - 1 - index) index (shift_start cleared index)) =
              rw (found, remove_background) refl in
            let same : shift_loop (max_back - 1 - index) index (shift_start cleared index) ≡ r =
              cc in
            rw (← same) (
              length-shift_loop (max_back - 1 - index) index (shift_start cleared index)
              ∙ length-shift_start cleared index
              ∙ length-clear_pid pid running))
    ]
