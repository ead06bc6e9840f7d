-- ===== src/Commander/Children/Counts.antt =====
-- The children and the background queue of project1/mc2.c, operation by operation.
use cs3013_operating_systems.Prelude.{
  ℕ, ◌+◌, ◌<◌, ◌≡◌, ◌≢◌, refl, ◌∙◌, sym, ap, ◌↔◌, ◌⊎◌, inl, inr, some, List, length, ◌==◌,
  if◌then◌else◌, arith, set, get_elem?-set_self, get_elem?-set_ne, lt-length_of_get_elem?,
}
use cs3013_operating_systems.Commander.Numbers.{get_elem?-set_cases}
use cs3013_operating_systems.Commander.Queue.{max_back, add_running}
use cs3013_operating_systems.Commander.Queue.Laws.{In}
use cs3013_operating_systems.Commander.Queue.Size.{length-add_running, length-remove_background}
use cs3013_operating_systems.Commander.Queue.Tasks.{
  added, full, add_running-Added, remove_background-Others,
}
use cs3013_operating_systems.Commander.Shell.{Input, Action}
use cs3013_operating_systems.Commander.Children.{
  Family, Gone, times, children, Polled, nobody, reaps,
}
use cs3013_operating_systems.Commander.Children.Effects.{
  Queued, same, runs, starts, refuses, Reaped, removed, RoundQueue,
}

pub times-Gone :
    {p : ℕ} {xs ys : List ℕ} (q : ℕ)
    → Gone p xs ys
    → times q xs ≡ (if q == p then 1 else 0) + times q ys
times-Gone q (Gone.here xs) = refl
times-Gone q (Gone.there x g) = omega (arith, times-Gone q g)

-- `waitpid` takes the child that it reports.
pub children-Polled :
    {r : ℕ} {f f' : Family} (q : ℕ)
    → q ≢ 0
    → Polled r f f'
    → children q f ≡ (if q == r then 1 else 0) + children q f'
children-Polled q nz (nobody none_ended) = ground arith
children-Polled q nz (reaps p rest g) = omega (arith, times-Gone q g)

pub Reaped-In :
    {r : ℕ} {running before : List ℕ} (q : ℕ)
    → q ≢ 0
    → length running ≡ max_back
    → Reaped r running before
    → In q before ↔ (In q running × (q ≢ r))
Reaped-In {r} {running} q nz size (Reaped.nobody zero_pid same_queue) =
    rw same_queue (λ held. (held, λ e. nz (e ∙ zero_pid)), λ h. h.0)
Reaped-In {r} {running} {before} q nz size (removed nzr e) =
    remove_background-Others r q running before nz size e

pub Reaped-length :
    {r : ℕ} {running before : List ℕ} → Reaped r running before → length before ≡ length running
Reaped-length (Reaped.nobody zero_pid same_queue) = ap length same_queue
Reaped-length {r} {running} {before} (removed nzr e) = length-remove_background r running before e

pub add_running-In :
    (pid index q : ℕ) (running running' : List ℕ)
    → q ≢ 0
    → add_running pid running ≡ (some index, running')
    → In q running' ↔ (In q running ⊎ (q ≡ pid))
add_running-In pid index q running running' nz e = elim (add_running-Added pid running) [
  | full absent out ↦ absurd (cc)
  | added k zero_at before out ↦
      (let here : k < length running = lt-length_of_get_elem? running k 0 zero_at in
        let is_set : running' ≡ set running k pid = ap (λ r. r.1) (sym e ∙ out) in
        rw is_set (
          λ held. elim (get_elem?-set_cases running k held.0 pid q here held.1) [
            | inl (at, own) ↦ inr (sym own)
            | inr (ne, at) ↦ inl (held.0, at)
          ],
          λ h. elim h [
            | inl (j, at) ↦
                (let ne : k ≢ j =
                    λ (same_place : k ≡ j). nz (ground (arith, same_place, at, zero_at)) in
                  (j, get_elem?-set_ne running pid ne ∙ at))
            | inr own ↦ (k, get_elem?-set_self running k pid here ∙ ap some (sym own))
          ],
        ))
]

pub Queued-length :
    {pid : ℕ} {before after : List ℕ} {acts : List Action}
    → Queued pid before acts after
    → length after ≡ length before
Queued-length (same inert) = refl
Queued-length (runs args) = refl
Queued-length {pid} {before} (starts index number own e) =
    ap (λ r. length r.1) (sym e) ∙ length-add_running pid before
Queued-length (refuses e) = ap length e

pub round-size :
    (i : Input) (running out : List ℕ) (acts : List Action)
    → RoundQueue i running acts out
    → length out ≡ length running
round-size i running out acts r =
    length-remove_background 0 r.after out r.closed
    ∙ Queued-length r.queued
    ∙ Reaped-length r.reaped
