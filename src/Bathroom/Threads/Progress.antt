-- ===== src/Bathroom/Threads/Progress.antt =====
-- The simulation of project3/bathroomsim.c while a thread has rounds left.
use cs3013_operating_systems.Prelude.{
  ℕ, zero, suc, ◌-◌, ◌<◌, ◌≡◌, ◌≢◌, refl, sym, ap, ◌∙◌, Bool, some, List, [], ◌∷◌, get_elem?, arith,
  ℤ, pos, All, All-get_elem?, subst, ◌⊎◌, inl, inr,
}
use cs3013_operating_systems.Bathroom.Monitor.{Gender, male, female, Bathroom, leave}
use cs3013_operating_systems.Bathroom.System.{System, start, Steps}
use cs3013_operating_systems.Bathroom.System.Counts.{reachable-Counts, leave_total}
use cs3013_operating_systems.Bathroom.Threads.{
  Position, Thread, Simulation, Ended, Turn, turn, turn_of, advance, depart, main_start, simulate,
}
use cs3013_operating_systems.Bathroom.Threads.Acts.{Turns-Keeps, simulate-Turns}
use cs3013_operating_systems.Bathroom.Threads.Places.{
  is_inside, is_waiting, sum_at, take_one, same_one, at_place, number_le_length, length-number,
}
use cs3013_operating_systems.Bathroom.Threads.Going.{
  Going, GoingThread, AllGoing, Acts-AllGoing, begin-AllGoing,
}
use cs3013_operating_systems.Bathroom.Threads.Moves.{Represents}
use cs3013_operating_systems.Bathroom.Threads.Refines.{simulate-Reached}

-- A thread of one kind, or all of the other.
find_or_All :
    (P Q : Thread → Type 0) (ts : List Thread)
    → ((t : Thread) → P t ⊎ Q t)
    → ((i : ℕ) × (t : Thread) × (get_elem? ts i ≡ some t) × P t) ⊎ All Q ts
find_or_All P Q [] test = inr tt
find_or_All P Q (t ∷ ts) test = elim (test t) [
  | inl p ↦ inl (0, t, refl, p)
  | inr q ↦ elim (find_or_All P Q ts test) [
    | inl (i, u, own, p) ↦ inl (suc i, u, own, p)
    | inr rest ↦ inr (q, rest)
  ]
]

Position-cases :
    (p : Position)
    → ((p ≡ Position.outside) ⊎ (p ≡ Position.waiting))
      ⊎ ((p ≡ Position.woken) ⊎ ((w : Bool) × (p ≡ Position.inside w)))
Position-cases Position.outside = inl (inl refl)
Position-cases Position.waiting = inl (inr refl)
Position-cases Position.woken = inr (inl refl)
Position-cases (Position.inside w) = inr (inr (w, refl))

-- A turn in which a thread runs and that comes about. A wait that ends without a signal is none.
abbrev pub Proceeds : Simulation → Type 0
Proceeds s = (i : ℕ) × (lapsed : ℤ) × (s' : Simulation) × (turn (Turn.runs i lapsed) s ≡ some s')

module _ (s : Simulation) (i : ℕ) (t : Thread) (own : get_elem? s.threads i ≡ some t) where
  pub turn-advance :
      (p : Position) (left : ℕ)
      → t.place ≡ p
      → t.left ≡ left
      → turn (Turn.runs i (pos 0)) s ≡ advance i (pos 0) t p left s
  unfolding turn turn_of
  turn-advance p left at_p at_left =
      ap (turn_of (Turn.runs i (pos 0)) s) own ∙ (λ j. advance i (pos 0) t (at_p j) (at_left j) s)

  woken-Proceeds : t.place ≡ Position.woken → Proceeds s
  unfolding advance
  woken-Proceeds at_p = (i, pos 0, _, turn-advance Position.woken t.left at_p refl)

  outside-Proceeds : (left : ℕ) → t.place ≡ Position.outside → t.left ≡ suc left → Proceeds s
  unfolding advance
  outside-Proceeds left at_p more =
      (i, pos 0, _, turn-advance Position.outside (suc left) at_p more)

  inside-Proceeds :
      (w : Bool) (left : ℕ) (o : Bool) (b : Bathroom)
      → t.place ≡ Position.inside w
      → t.left ≡ suc left
      → leave s.room ≡ some (o, b)
      → Proceeds s
  unfolding advance depart
  inside-Proceeds w left o b at_p more run = (
    i,
    pos 0,
    _,
    turn-advance (Position.inside w) (suc left) at_p more ∙ ap (depart i (pos 0) w left t s) run,
  )

pos_or_zero : (n : ℕ) → ((k : ℕ) × (n ≡ suc k)) ⊎ (n ≡ 0)
pos_or_zero zero = inr refl
pos_or_zero (suc k) = inl (k, refl)

-- Outside or waiting.
abbrev Still : Thread → Type 0
Still t = (t.place ≡ Position.outside) ⊎ (t.place ≡ Position.waiting)

nobody_inside : (g : Gender) (ts : List Thread) → All Still ts → sum_at (is_inside g) ts ≡ 0
nobody_inside g [] h = refl
nobody_inside g (t ∷ ts) h = elim h.0 [
  | inl e ↦ omega (arith, ap (is_inside g t.gender) e, nobody_inside g ts h.1)
  | inr e ↦ omega (arith, ap (is_inside g t.gender) e, nobody_inside g ts h.1)
]

All-Ended :
    (ts : List Thread)
    → All Still ts
    → All (λ t. t.place ≢ Position.waiting) ts
    → All (λ t. (t.place ≡ Position.outside) → t.left ≡ 0) ts
    → All Ended ts
All-Ended [] still none_waits none_left = tt
All-Ended (t ∷ ts) still none_waits none_left =
    let ended : Ended t = elim still.0 [
      | inl e ↦ (none_left.0 e, e)
      | inr e ↦ absurd (none_waits.0 e)
    ] in
    (ended, All-Ended ts still.1 none_waits.1 none_left.1)

moves_or_Still :
    (t : Thread)
    → ((t.place ≡ Position.woken) ⊎ ((w : Bool) × (t.place ≡ Position.inside w))) ⊎ Still t
moves_or_Still t = elim (Position-cases t.place) [ inl still ↦ inr still | inr moves ↦ inl moves ]

waits_or_not : (t : Thread) → (t.place ≡ Position.waiting) ⊎ (t.place ≢ Position.waiting)
waits_or_not t = elim (Position-cases t.place) [
  | inl (inl e) ↦ inr (λ w. cc)
  | inl (inr e) ↦ inl e
  | inr (inl e) ↦ inr (λ w. cc)
  | inr (inr (w, e)) ↦ inr (λ v. cc)
]

enters_or_not :
    (t : Thread)
    → ((left : ℕ) × (t.place ≡ Position.outside) × (t.left ≡ suc left))
      ⊎ ((t.place ≡ Position.outside) → t.left ≡ 0)
enters_or_not t = elim (pos_or_zero t.left) [
  | inr e ↦ inr (λ out. e)
  | inl (k, e) ↦ elim (Position-cases t.place) [
    | inl (inl out) ↦ inl (k, out, e)
    | inl (inr p) ↦ inr (λ out. cc)
    | inr (inl p) ↦ inr (λ out. cc)
    | inr (inr (w, p)) ↦ inr (λ out. cc)
  ]
]

module _ {n : ℕ} {sys : System} (s : Simulation) where
  leaving-Proceeds :
      (i : ℕ) (t : Thread) (w : Bool)
      → Steps n (start n) sys
      → Represents sys s
      → AllGoing s
      → get_elem? s.threads i ≡ some t
      → t.place ≡ Position.inside w
      → Proceeds s
  leaving-Proceeds i t w reach r going own at_p =
      let stands = at_place (is_inside t.gender) s.threads i t _ own at_p in
      let (rest, takes) =
        take_one t.gender sys.inside
          (omega (arith, stands, r.inside t.gender, same_one t.gender)) in
      let (b, signal, run, last) = leave_total reach takes in
      let left : 0 < t.left =
        subst (λ p. Going p t.left) at_p (All-get_elem? GoingThread s.threads i t going own) in
      inside-Proceeds s i t own w (t.left - 1) signal b at_p (omega arith)
        (ap leave (sym r.room) ∙ run)

  -- Without a thread that is inside or was woken nobody waits.
  nobody_waits :
      (i : ℕ) (t : Thread)
      → Steps n (start n) sys
      → Represents sys s
      → All Still s.threads
      → get_elem? s.threads i ≡ some t
      → t.place ≢ Position.waiting
  nobody_waits i t reach r still own at_p =
      let c = reachable-Counts reach in
      let stands = at_place (is_waiting t.gender) s.threads i t _ own at_p in
      elim c.no_waiter [
        | inl none_left ↦ omega (
          arith,
          none_left,
          stands,
          r.waiting t.gender,
          same_one t.gender,
          number_le_length t.gender sys.waiting,
        )
        | inr busy ↦ busy (
            omega (
              arith,
              c.users,
              length-number sys.inside,
              r.inside male,
              r.inside female,
              nobody_inside male s.threads still,
              nobody_inside female s.threads still,
            ))
      ]

  reached-Proceeds :
      Steps n (start n) sys → Represents sys s → AllGoing s → All Ended s.threads ⊎ Proceeds s
  reached-Proceeds reach r going = elim (find_or_All _ Still s.threads moves_or_Still) [
    | inl (i, t, own, inl at_p) ↦ inr (woken-Proceeds s i t own at_p)
    | inl (i, t, own, inr (w, at_p)) ↦ inr (leaving-Proceeds i t w reach r going own at_p)
    | inr still ↦ elim (find_or_All _ _ s.threads waits_or_not) [
      | inl (i, t, own, at_p) ↦ absurd (nobody_waits i t reach r still own at_p)
      | inr none_waits ↦ elim (find_or_All _ _ s.threads enters_or_not) [
        | inl (i, t, own, (left, at_p, more)) ↦ inr (outside-Proceeds s i t own left at_p more)
        | inr none_left ↦ inl (All-Ended s.threads still none_waits none_left)
      ]
    ]
  ]

-- In whatever state the scheduler has brought the threads that `main` starts to, all of them have ended,
-- or one that does not wait can run: none of them waits for a signal that will not come.
pub simulate-Proceeds :
    (rands : List (ℕ × ℕ)) (turns : List Turn) (s : Simulation)
    → simulate turns (main_start rands) ≡ some s
    → All Ended s.threads ⊎ Proceeds s
simulate-Proceeds rands turns s e =
    let (size, (sys, reach, r)) = simulate-Reached rands turns s e in
    reached-Proceeds s reach r (
      Turns-Keeps AllGoing Acts-AllGoing (simulate-Turns turns (main_start rands) s e)
        (begin-AllGoing rands))
