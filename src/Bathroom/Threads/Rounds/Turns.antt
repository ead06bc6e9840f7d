-- ===== src/Bathroom/Threads/Rounds/Turns.antt =====
-- The rounds of one thread, turn by turn, in the simulation of project3/bathroomsim.c.
use cs3013_operating_systems.Prelude.{
  ℕ, zero, suc, ◌==◌, ◌≡◌, refl, sym, ap, ◌∙◌, Bool, true, false, Option, none, some, Option-cases,
  List, [], ◌∷◌, set, get_elem?, arith, ℤ, if◌then◌else◌, inl, inr, pos,
}
use cs3013_operating_systems.Bathroom.Monitor.{Bathroom, enter, leave}
use cs3013_operating_systems.Bathroom.Simulation.{collect_all}
use cs3013_operating_systems.Bathroom.Threads.{
  Position, Thread, Simulation, Turn, simulate, turn, thread_of, turn_of, advance, arrive, depart,
  wake_up, end_round,
}
use cs3013_operating_systems.Bathroom.Threads.Rounds.{
  round_at, round_of, rounds_of, Moves, Moved, stays, Moves-append, Moved-set, Moved-still,
  Moved-some, Moved-wake,
}

ended_round :
    (lapsed : ℤ) (waited : Bool) (left : ℕ) (t : Thread)
    → t.place ≡ Position.inside waited
    → t.left ≡ suc left
    → Moves (round_at lapsed (some t)) t (end_round lapsed waited left t)
unfolding collect_all
ended_round lapsed waited left t at_p more =
    rw at_p (record { times = refl; left = omega (arith, more) })

-- A turn of thread `j` as thread `i` sees it.
module _ (i j : ℕ) (lapsed : ℤ) (t u : Thread) (s : Simulation)
    (own : get_elem? s.threads i ≡ some t) (at_j : get_elem? s.threads j ≡ some u) where
  abbrev Seen : Simulation → Type 0
  Seen s' = Moved i (if i == j then round_at lapsed (some u) else []) t s'.threads

  -- A thread that ends no round keeps its rounds and times.
  keeps_rounds :
      (p : Position) (u' : Thread)
      → u.place ≡ p
      → round_at lapsed (some (record u { place = p })) ≡ []
      → u'.times ≡ u.times
      → u'.left ≡ u.left
      → Moved i (if i == j then round_at lapsed (some u) else []) t (set s.threads j u')
  keeps_rounds p u' at_p no_round times left =
      let none_ended : round_at lapsed (some u) ≡ [] = rw at_p no_round in
      Moved-set s.threads i j t u u' (round_at lapsed (some u)) own at_j
        (rw none_ended (stays u u' times left))

  depart-Seen :
      (waited : Bool) (left : ℕ) (o : Option (Bool × Bathroom)) (s' : Simulation)
      → u.place ≡ Position.inside waited
      → u.left ≡ suc left
      → depart j lapsed waited left u s o ≡ some s'
      → Seen s'
  unfolding depart
  depart-Seen waited left none s' at_p more e = absurd cc
  depart-Seen waited left (some (signal, b)) s' at_p more e = by_signal signal e
    where
      ended :
          Moved i
            (if i == j then round_at lapsed (some u) else [])
            t
            (set s.threads j (end_round lapsed waited left u))
      ended = Moved-set s.threads i j t u _ _ own at_j (ended_round lapsed waited left u at_p more)

      by_signal :
          (signal : Bool) → depart j lapsed waited left u s (some (signal, b)) ≡ some s' → Seen s'
      by_signal true e' = Moved-some i _ t _ s' e' (Moved-wake _ i t _ ended)
      by_signal false e' = Moved-some i _ t _ s' e' ended

  arrive-Seen : (r : Bool × Bathroom) → u.place ≡ Position.outside → Seen (arrive j u s r)
  unfolding arrive
  arrive-Seen (waits, b) at_p = keeps_rounds Position.outside _ at_p refl refl refl

  advance-Seen :
      (p : Position) (left : ℕ) (s' : Simulation)
      → u.place ≡ p
      → u.left ≡ left
      → advance j lapsed u p left s ≡ some s'
      → Seen s'
  unfolding advance
  advance-Seen Position.outside zero s' at_p more e = absurd cc
  advance-Seen Position.outside (suc left) s' at_p more e =
      Moved-some i _ t _ s' e (arrive-Seen (enter u.gender s.room) at_p)
  advance-Seen Position.waiting left s' at_p more e = absurd cc
  advance-Seen Position.woken left s' at_p more e =
      Moved-some i _ t _ s' e (keeps_rounds Position.woken _ at_p refl refl refl)
  advance-Seen (Position.inside waited) zero s' at_p more e = absurd cc
  advance-Seen (Position.inside waited) (suc left) s' at_p more e =
      depart-Seen waited left (leave s.room) s' at_p more e

  wake_up-Moved :
      (p : Position) (s' : Simulation)
      → u.place ≡ p
      → wake_up j u p s ≡ some s'
      → Moved i [] t s'.threads
  unfolding wake_up
  wake_up-Moved Position.outside s' at_p e = absurd cc
  wake_up-Moved Position.waiting s' at_p e =
      Moved-some i [] t _ s' e (Moved-still s.threads i j t u _ own at_j refl refl)
  wake_up-Moved Position.woken s' at_p e = absurd cc
  wake_up-Moved (Position.inside waited) s' at_p e = absurd cc

turn_of-Moved :
    (i : ℕ) (x : Turn) (t : Thread) (s s' : Simulation) (o : Option Thread)
    → get_elem? s.threads i ≡ some t
    → get_elem? s.threads (thread_of x) ≡ o
    → turn_of x s o ≡ some s'
    → Moved i (round_of i x s) t s'.threads
unfolding turn_of
turn_of-Moved i x t s s' none own at_x e = absurd cc
turn_of-Moved i (Turn.runs j lapsed) t s s' (some u) own at_x e =
    rw at_x (advance-Seen i j lapsed t u s own at_x u.place u.left s' refl refl e)
turn_of-Moved i (Turn.wakes j) t s s' (some u) own at_x e =
    wake_up-Moved i j (pos 0) t u s own at_x u.place s' refl e

turn-Moved :
    (i : ℕ) (x : Turn) (t : Thread) (s s' : Simulation)
    → get_elem? s.threads i ≡ some t
    → turn x s ≡ some s'
    → Moved i (round_of i x s) t s'.threads
unfolding turn
turn-Moved i x t s s' own e =
    turn_of-Moved i x t s s' (get_elem? s.threads (thread_of x)) own refl e

pub simulate-Moved :
    (i : ℕ) (turns : List Turn) (t : Thread) (s s' : Simulation)
    → get_elem? s.threads i ≡ some t
    → simulate turns s ≡ some s'
    → Moved i (rounds_of i turns s) t s'.threads
unfolding simulate rounds_of
simulate-Moved i [] t s s' own e =
    let same : s ≡ s' = cc in
    (t, ap (λ (x : Simulation). get_elem? x.threads i) (sym same) ∙ own, stays t t refl refl)
simulate-Moved i (x ∷ xs) t s s' own e = elim (Option-cases (turn x s)) [
  | inl stuck ↦ (let r : simulate (x ∷ xs) s ≡ none = rw stuck refl in absurd cc)
  | inr (u, run) ↦
      (let r : simulate (x ∷ xs) s ≡ simulate xs u = rw run refl in
        let (t₁, own₁, m₁) = turn-Moved i x t s u own run in
        let (t₂, own₂, m₂) = simulate-Moved i xs t₁ u s' own₁ (sym r ∙ e) in
        rw run (t₂, own₂, Moves-append (round_of i x s) (rounds_of i xs u) t t₁ t₂ m₁ m₂))
]
