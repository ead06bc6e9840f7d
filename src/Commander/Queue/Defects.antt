-- ===== src/Commander/Queue/Defects.antt =====
-- Where `removebackground` does not close the gap that it leaves.
use cs3013_operating_systems.Prelude.{
  ℕ, ◌-◌, ◌<◌, ◌≡◌, ◌≢◌, ◌∙◌, none, some, List, arith, length, get_elem?, ◌==◌, if◌then◌else◌, sym,
  dec_lt, lt-length_of_get_elem?, get_elem?_of_lt,
}
use cs3013_operating_systems.Commander.Queue.{max_back, add_running, clear_pid, remove_background}
use cs3013_operating_systems.Commander.Queue.Laws.{
  LastZero, Removed, clear_pid-get, length-clear_pid, remove_background-Removed,
}
use cs3013_operating_systems.Commander.Queue.Tasks.{added, full, add_running-Added, source}

-- In a full queue no entry becomes free: where the task that is removed is not the last one, the
-- last pid is there twice afterwards, and `addrunning` finds no room.
pub remove_background_full :
    (pid new k : ℕ) (running : List ℕ)
    → length running ≡ max_back
    → ((j : ℕ) → get_elem? running j ≢ some 0)
    → get_elem? running k ≡ some pid
    → ((j : ℕ) → get_elem? running j ≡ some pid → j ≡ k)
    → k < max_back - 1
    → (r : List ℕ) × (remove_background pid running ≡ some r) × (add_running new r ≡ (none, r))
remove_background_full pid new k running l busy here only h =
    let (r, run, s) = remove_background-Removed pid running k l last in
    (r, run, no_room r (no_zero r s))
  where
    only_zero : (j : ℕ) → get_elem? (clear_pid pid running) j ≡ some 0 → j ≡ k
    only_zero j e =
        let (a, at) = get_elem?_of_lt running j (
          omega (
            arith,
            lt-length_of_get_elem? (clear_pid pid running) j 0 e,
            length-clear_pid pid running,
          )) in
        let read : some 0 ≡ some (if a == pid then 0 else a) =
          sym e ∙ clear_pid-get pid running j a at in
        ground (arith, read, at, busy j, only j)

    last : LastZero (clear_pid pid running) k
    last = record {
      here = clear_pid-get pid running k pid here ∙ ground arith;
      none_after = λ j l' e. absurd (omega (arith, only_zero j e));
    }

    no_zero : (r : List ℕ) → Removed pid running r k → (j : ℕ) → get_elem? r j ≢ some 0
    no_zero r s j e =
        let (j', same, other) =
          source s j (omega (arith, lt-length_of_get_elem? r j 0 e, s.size)) in
        omega (arith, h, other (only_zero j' (sym same ∙ e)))

    no_room : (r : List ℕ) → ((j : ℕ) → get_elem? r j ≢ some 0) → add_running new r ≡ (none, r)
    no_room r absent = elim (add_running-Added new r) [
      | added i zero_at before out ↦ absurd (absent i zero_at)
      | full none_free out ↦ out
    ]

-- Where the last entry is free, nothing moves: an entry with the removed pid becomes zero, and any
-- other entry keeps its pid and its place.
pub remove_background_hole :
    (pid : ℕ) (running : List ℕ) (j a : ℕ)
    → length running ≡ max_back
    → get_elem? running (max_back - 1) ≡ some 0
    → get_elem? running j ≡ some a
    → (r : List ℕ) × (remove_background pid running ≡ some r)
      × (get_elem? r j ≡ some (if a == pid then 0 else a))
remove_background_hole pid running j a l free at_j =
    let (r, run, s) = remove_background-Removed pid running (max_back - 1) l last in
    (r, run, same r s j a at_j)
  where
    last : LastZero (clear_pid pid running) (max_back - 1)
    last = record {
      here = clear_pid-get pid running (max_back - 1) 0 free ∙ ground arith;
      none_after = λ j l' e. absurd (
          omega (
            arith,
            lt-length_of_get_elem? (clear_pid pid running) j 0 e,
            length-clear_pid pid running,
          ));
    }

    same :
        (r : List ℕ)
        → Removed pid running r (max_back - 1)
        → (j a : ℕ) → get_elem? running j ≡ some a
        → get_elem? r j ≡ some (if a == pid then 0 else a)
    same r s j a e = elim (dec_lt j (max_back - 1)) [
      | yes h ↦ s.before j h ∙ clear_pid-get pid running j a e
      | no h ↦
          (let at_end : j ≡ max_back - 1 = omega (arith, lt-length_of_get_elem? running j a e) in
            rw at_end (s.end ∙ (rw at_end at (clear_pid-get pid running j a e))))
    ]
