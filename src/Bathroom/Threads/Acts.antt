-- ===== src/Bathroom/Threads/Acts.antt =====
-- What a turn of the simulation of project3/bathroomsim.c can be, case by case.
use cs3013_operating_systems.Prelude.{
  ℕ, zero, suc, ◌≡◌, refl, Bool, true, false, Option, none, some, List, [], ◌∷◌, map, set,
  get_elem?, length, Option-cases, inl, inr, sym, ◌∙◌, subst, ℤ, pos,
}
use cs3013_operating_systems.Bathroom.Monitor.{Bathroom, enter, resume, leave}
use cs3013_operating_systems.Bathroom.Threads.{
  Position, Thread, Simulation, Turn, wake, end_round, advance, arrive, depart, thread_of, turn_of,
  wake_up, turn, simulate,
}

-- The turns that come about, and the simulation after them.
pub data Acts (s : Simulation) : Simulation → Type 0 where
  enters :
      (i : ℕ) (t : Thread) (left : ℕ) (b : Bathroom)
      → get_elem? s.threads i ≡ some t
      → t.place ≡ Position.outside
      → t.left ≡ suc left
      → enter t.gender s.room ≡ (false, b)
      → Acts s (record {
        room = b;
        threads = set s.threads i (record t { place = Position.inside false });
      })
  waits :
      (i : ℕ) (t : Thread) (left : ℕ) (b : Bathroom)
      → get_elem? s.threads i ≡ some t
      → t.place ≡ Position.outside
      → t.left ≡ suc left
      → enter t.gender s.room ≡ (true, b)
      → Acts s
          (record { room = b; threads = set s.threads i (record t { place = Position.waiting }) })
  wakes :
      (i : ℕ) (t : Thread)
      → get_elem? s.threads i ≡ some t
      → t.place ≡ Position.waiting
      → Acts s (record s { threads = set s.threads i (record t { place = Position.woken }) })
  resumes :
      (i : ℕ) (t : Thread)
      → get_elem? s.threads i ≡ some t
      → t.place ≡ Position.woken
      → Acts s (record {
        room = resume (length s.threads) t.gender s.room;
        threads = set s.threads i (record t { place = Position.inside true });
      })
  leaves :
      (i : ℕ) (lapsed : ℤ) (t : Thread) (waited : Bool) (left : ℕ) (b : Bathroom)
      → get_elem? s.threads i ≡ some t
      → t.place ≡ Position.inside waited
      → t.left ≡ suc left
      → leave s.room ≡ some (false, b)
      → Acts s (record { room = b; threads = set s.threads i (end_round lapsed waited left t) })
  leaves_last :
      (i : ℕ) (lapsed : ℤ) (t : Thread) (waited : Bool) (left : ℕ) (b : Bathroom)
      → get_elem? s.threads i ≡ some t
      → t.place ≡ Position.inside waited
      → t.left ≡ suc left
      → leave s.room ≡ some (true, b)
      → Acts s (record {
        room = b;
        threads = map wake (set s.threads i (end_round lapsed waited left t));
      })

module _ (i : ℕ) (lapsed : ℤ) (t : Thread) (s : Simulation)
    (own : get_elem? s.threads i ≡ some t) where
  depart-Acts :
      (waited : Bool) (left : ℕ) (o : Option (Bool × Bathroom)) (s' : Simulation)
      → t.place ≡ Position.inside waited
      → t.left ≡ suc left
      → leave s.room ≡ o
      → depart i lapsed waited left t s o ≡ some s'
      → Acts s s'
  unfolding depart
  depart-Acts waited left none s' at_p more run e = absurd cc
  depart-Acts waited left (some (true, b)) s' at_p more run e =
      subst (Acts s) (cc) (Acts.leaves_last i lapsed t waited left b own at_p more run)
  depart-Acts waited left (some (false, b)) s' at_p more run e =
      subst (Acts s) (cc) (Acts.leaves i lapsed t waited left b own at_p more run)

  arrive-Acts :
      (left : ℕ) (r : Bool × Bathroom)
      → t.place ≡ Position.outside
      → t.left ≡ suc left
      → enter t.gender s.room ≡ r
      → Acts s (arrive i t s r)
  unfolding arrive
  arrive-Acts left (true, b) at_p more run = Acts.waits i t left b own at_p more run
  arrive-Acts left (false, b) at_p more run = Acts.enters i t left b own at_p more run

  advance-Acts :
      (p : Position) (left : ℕ) (s' : Simulation)
      → t.place ≡ p
      → t.left ≡ left
      → advance i lapsed t p left s ≡ some s'
      → Acts s s'
  unfolding advance
  advance-Acts Position.outside zero s' at_p more e = absurd cc
  advance-Acts Position.outside (suc left) s' at_p more e =
      subst (Acts s) (cc) (arrive-Acts left (enter t.gender s.room) at_p more refl)
  advance-Acts Position.waiting left s' at_p more e = absurd cc
  advance-Acts Position.woken left s' at_p more e = subst (Acts s) (cc) (Acts.resumes i t own at_p)
  advance-Acts (Position.inside waited) zero s' at_p more e = absurd cc
  advance-Acts (Position.inside waited) (suc left) s' at_p more e =
      depart-Acts waited left (leave s.room) s' at_p more refl e

  wake_up-Acts :
      (p : Position) (s' : Simulation) → t.place ≡ p → wake_up i t p s ≡ some s' → Acts s s'
  unfolding wake_up
  wake_up-Acts Position.outside s' at_p e = absurd cc
  wake_up-Acts Position.waiting s' at_p e = subst (Acts s) (cc) (Acts.wakes i t own at_p)
  wake_up-Acts Position.woken s' at_p e = absurd cc
  wake_up-Acts (Position.inside waited) s' at_p e = absurd cc

turn_of-Acts :
    (x : Turn) (s s' : Simulation) (o : Option Thread)
    → get_elem? s.threads (thread_of x) ≡ o
    → turn_of x s o ≡ some s'
    → Acts s s'
unfolding turn_of
turn_of-Acts x s s' none own e = absurd cc
turn_of-Acts (Turn.runs i lapsed) s s' (some t) own e =
    advance-Acts i lapsed t s own t.place t.left s' refl refl e
turn_of-Acts (Turn.wakes i) s s' (some t) own e = wake_up-Acts i (pos 0) t s own t.place s' refl e

-- A turn that comes about is one of the cases.
pub turn-Acts : (x : Turn) (s s' : Simulation) → turn x s ≡ some s' → Acts s s'
unfolding turn
turn-Acts x s s' e = turn_of-Acts x s s' (get_elem? s.threads (thread_of x)) refl e

-- A schedule that comes about, as a chain of turns, and their number.
pub data Turns : Simulation → ℕ → Simulation → Type 0 where
  done : {s : Simulation} → Turns s zero s
  then_turn : {k : ℕ} {s t u : Simulation} → Acts s t → Turns t k u → Turns s (suc k) u

pub simulate-Turns :
    (turns : List Turn) (s s' : Simulation) → simulate turns s ≡ some s' → Turns s (length turns) s'
unfolding simulate
simulate-Turns [] s s' e = subst (Turns s zero) (cc) Turns.done
simulate-Turns (x ∷ xs) s s' e = elim (Option-cases (turn x s)) [
  | inl stuck ↦ (let r : simulate (x ∷ xs) s ≡ none = rw stuck refl in absurd cc)
  | inr (u, run) ↦
      (let r : simulate (x ∷ xs) s ≡ simulate xs u = rw run refl in
        Turns.then_turn (turn-Acts x s u run) (simulate-Turns xs u s' (sym r ∙ e)))
]

-- What every turn keeps, a schedule keeps.
pub Turns-Keeps :
    (P : Simulation → Type 0)
    → ((s t : Simulation) → Acts s t → P s → P t)
    → {s t : Simulation} {k : ℕ} → Turns s k t
    → P s
    → P t
Turns-Keeps P keeps Turns.done p = p
Turns-Keeps P keeps (Turns.then_turn {t} act more) p = Turns-Keeps P keeps more (keeps _ t act p)
