-- ===== src/Bathroom/Threads/Rounds.antt =====
-- The rounds that a schedule of project3/bathroomsim.c gives to a thread.
pub mod Turns
use cs3013_operating_systems.Prelude.{
  ℕ, zero, suc, ◌+◌, ◌==◌, ==_iff, ◌≡◌, refl, sym, ap, ◌∙◌, Bool, true, false, Bool-cases, Option,
  none, some, Option-cases, List, [], ◌∷◌, ◌++◌, map, set, get_elem?, get_elem?-set_self,
  get_elem?-set_ne, lt-length_of_get_elem?, length, length-append, arith, ℤ, if◌then◌else◌, inl,
  inr, subst, pos,
}
use cs3013_operating_systems.Bathroom.Threads.Places.{get_elem?-map-wake}
use cs3013_operating_systems.Bathroom.Monitor.{Bathroom, enter, leave}
use cs3013_operating_systems.Bathroom.Simulation.{Use, Times, collect, collect_all}
use cs3013_operating_systems.Bathroom.Threads.{
  Position, Thread, Simulation, Turn, wake, simulate, turn, thread_of, turn_of, advance, arrive,
  depart, wake_up, end_round,
}

-- The round that a thread ends where it runs at a place, with the time that it measures.
abbrev pub round_at : ℤ → Option Thread → List Use
round_at lapsed none = []
round_at lapsed (some t) = elim t.place [
  | Position.inside waited ↦ record { lapsed = lapsed; wait = waited } ∷ []
  | _ ↦ []
]

-- The round of thread `i` that a turn ends.
abbrev pub round_of : ℕ → Turn → Simulation → List Use
round_of i (Turn.runs j lapsed) s = if i == j then round_at lapsed (get_elem? s.threads j) else []
round_of i (Turn.wakes j) s = []

abbrev pub after : (Simulation → List Use) → Option Simulation → List Use
after f none = []
after f (some s) = f s

-- The rounds of thread `i` in a schedule, one for each of its turns in which it is inside.
unfoldable pub rounds_of : ℕ → List Turn → Simulation → List Use
rounds_of i [] s = []
rounds_of i (x ∷ xs) s = round_of i x s ++ after (rounds_of i xs) (turn x s)

-- A thread after some rounds.
pub record Moves (us : List Use) (t t' : Thread) : Type 0 where
  pub times : t'.times ≡ collect_all us t.times
  pub left : length us + t'.left ≡ t.left

abbrev pub Moved : ℕ → List Use → Thread → List Thread → Type 0
Moved i us t ts = (t' : Thread) × (get_elem? ts i ≡ some t') × Moves us t t'

pub stays : (t t' : Thread) → t'.times ≡ t.times → t'.left ≡ t.left → Moves [] t t'
unfolding collect_all
stays t t' times left = record { times = times; left = omega (arith, left) }

collect_all-append :
    (us vs : List Use) (t : Times) → collect_all (us ++ vs) t ≡ collect_all vs (collect_all us t)
unfolding collect_all
collect_all-append [] vs t = refl
collect_all-append (u ∷ us) vs t = collect_all-append us vs (collect u t)

pub Moves-append :
    (us vs : List Use) (t u w : Thread) → Moves us t u → Moves vs u w → Moves (us ++ vs) t w
Moves-append us vs t u w a b = record {
  times = b.times ∙ ap (collect_all vs) a.times ∙ sym (collect_all-append us vs t.times);
  left = omega (arith, length-append us vs, a.left, b.left);
}

-- Thread `j` moves, and thread `i` is it or another one.
pub Moved-set :
    (ts : List Thread) (i j : ℕ) (t u u' : Thread) (us : List Use)
    → get_elem? ts i ≡ some t
    → get_elem? ts j ≡ some u
    → Moves us u u'
    → Moved i (if i == j then us else []) t (set ts j u')
Moved-set ts i j t u u' us own at_j moves = elim (Bool-cases (i == j)) [
  | inl chosen ↦
      (let e : i ≡ j = (==_iff i j).0 chosen in
        let same : u ≡ t = cc in
        rw chosen (
          u',
          ap (get_elem? (set ts j u')) e
              ∙ get_elem?-set_self ts j u' (lt-length_of_get_elem? ts j u at_j),
          rw (← same) moves,
        ))
  | inr other ↦ rw other (
    t,
    get_elem?-set_ne ts u' (λ e. absurd (ground (arith, e, other))) ∙ own,
    stays t t refl refl,
  )
]

pub Moved-wake :
    (ts : List Thread) (i : ℕ) (t : Thread) (us : List Use)
    → Moved i us t ts
    → Moved i us t (map wake ts)
Moved-wake ts i t us (t', own, m) =
    (wake t', get_elem?-map-wake ts i t' own, record { times = m.times; left = m.left })

-- Thread `j` moves and ends no round.
pub Moved-still :
    (ts : List Thread) (i j : ℕ) (t u u' : Thread)
    → get_elem? ts i ≡ some t
    → get_elem? ts j ≡ some u
    → u'.times ≡ u.times
    → u'.left ≡ u.left
    → Moved i [] t (set ts j u')
Moved-still ts i j t u u' own at_j times left =
    let m = Moved-set ts i j t u u' [] own at_j (stays u u' times left) in
    elim (Bool-cases (i == j)) [ inl chosen ↦ rw chosen at m | inr other ↦ rw other at m ]

pub Moved-some :
    (i : ℕ) (us : List Use) (t : Thread) (x s : Simulation)
    → some x ≡ some s
    → Moved i us t x.threads
    → Moved i us t s.threads
Moved-some i us t x s e m =
    let same : x ≡ s = cc in subst (λ (y : Simulation). Moved i us t y.threads) same m
