-- ===== src/Bathroom/Threads/Mixes.antt =====
-- A waiting thread of project3/bathroom.c does not look at the flag again after it was woken, in the
-- simulation of project3/bathroomsim.c.
use cs3013_operating_systems.Prelude.{
  ℕ, suc, ◌-◌, ◌<◌, ◌≡◌, ◌≢◌, refl, sym, ap, subst, ◌∙◌, Bool, true, false, none, some, List, [],
  ◌∷◌, map, set, get_elem?, get_elem?-set_self, get_elem?-set_ne, lt-length_of_get_elem?, length,
  arith, All-get_elem?, pos, inl, inr,
}
use cs3013_operating_systems.Bathroom.Monitor.{Gender, Bathroom, enter, leave, resume, admit}
use cs3013_operating_systems.Bathroom.System.Counts.{enter_cases, leave_cases}
use cs3013_operating_systems.Bathroom.Threads.{
  Position, Thread, Simulation, Turn, turn, advance, arrive, depart, main_start, simulate, wake,
  wake_place, end_round,
}
use cs3013_operating_systems.Bathroom.Threads.Places.{get_elem?-map-wake}
use cs3013_operating_systems.Bathroom.Threads.Progress.{turn-advance}
use cs3013_operating_systems.Bathroom.Threads.Acts.{Turns-Keeps, simulate-Turns}
use cs3013_operating_systems.Bathroom.Threads.Going.{
  Going, GoingThread, AllGoing, Acts-AllGoing, begin-AllGoing,
}

vacant-enter : (h : Gender) (b : Bathroom) → b.flag ≡ none → enter h b ≡ (false, admit h b)
vacant-enter h b vacant = elim (enter_cases h b) [
  | inl run ↦ run
  | inr (queued, taken) ↦ absurd (taken vacant)
]

only-leave :
    (b : Bathroom) → b.users ≡ 1 → leave b ≡ some (true, record b { flag = none; users = 0 })
only-leave b one = elim (leave_cases 1 b one) [
  | inl (none_in, run) ↦ absurd (omega (arith, none_in))
  | inr (inl (_, run)) ↦ run
  | inr (inr (more, run)) ↦ absurd (omega (arith, more))
]

module _ (s : Simulation) (i : ℕ) (t : Thread) (own : get_elem? s.threads i ≡ some t) where
  -- The only user leaves.
  last_leaves :
      (w : Bool) (left : ℕ)
      → t.place ≡ Position.inside w
      → t.left ≡ suc left
      → s.room.users ≡ 1
      → turn (Turn.runs i (pos 0)) s
        ≡ some (record {
          room = record s.room { flag = none; users = 0 };
          threads = map wake (set s.threads i (end_round (pos 0) w left t));
        })
  unfolding advance depart
  last_leaves w left at_p more one =
      turn-advance s i t own (Position.inside w) (suc left) at_p more
      ∙ ap (depart i (pos 0) w left t s) (only-leave s.room one)

  -- A thread enters an empty monitor.
  enters_vacant :
      (left : ℕ)
      → t.place ≡ Position.outside
      → t.left ≡ suc left
      → s.room.flag ≡ none
      → turn (Turn.runs i (pos 0)) s
        ≡ some (record {
          room = admit t.gender s.room;
          threads = set s.threads i (record t { place = Position.inside false });
        })
  unfolding advance arrive
  enters_vacant left at_p more vacant =
      turn-advance s i t own Position.outside (suc left) at_p more
      ∙ ap (λ r. some (arrive i t s r)) (vacant-enter t.gender s.room vacant)

  -- A woken thread goes in.
  woken_resumes :
      t.place ≡ Position.woken
      → turn (Turn.runs i (pos 0)) s
        ≡ some (record {
          room = resume (length s.threads) t.gender s.room;
          threads = set s.threads i (record t { place = Position.inside true });
        })
  unfolding advance
  woken_resumes at_p = turn-advance s i t own Position.woken t.left at_p refl

-- Two threads at different places are two.
apart :
    (ts : List Thread) (i j : ℕ) (t u : Thread) (p q : Position)
    → get_elem? ts i ≡ some t
    → get_elem? ts j ≡ some u
    → t.place ≡ p
    → u.place ≡ q
    → p ≢ q
    → i ≢ j
apart ts i j t u p q own_i own_j at_p at_q differ e =
    let same : t ≡ u = cc in differ (sym at_p ∙ ap (λ (x : Thread). x.place) same ∙ at_q)

-- A thread that is inside has a round left.
inside_left :
    (rands : List (ℕ × ℕ)) (turns : List Turn) (s : Simulation) (i : ℕ) (t : Thread) (w : Bool)
    → simulate turns (main_start rands) ≡ some s
    → get_elem? s.threads i ≡ some t
    → t.place ≡ Position.inside w
    → 0 < t.left
inside_left rands turns s i t w e own at_p =
    let going =
      Turns-Keeps AllGoing Acts-AllGoing (simulate-Turns turns (main_start rands) s e)
        (begin-AllGoing rands) in
    subst (λ p. Going p t.left) at_p (All-get_elem? GoingThread s.threads i t going own)

-- In a state of the simulation in which thread `i` is the only user, thread `j` waits, and thread `k` is
-- outside with a round left, the schedule that runs `i`, `k` and `j` in this order comes about, without a
-- wait that ends unsignalled, and after it `k` and `j` are both inside, whatever their genders.
pub broadcast_mixes :
    (rands : List (ℕ × ℕ)) (turns : List Turn) (s : Simulation) (i j k left : ℕ) (t u v : Thread)
    (w : Bool)
    → simulate turns (main_start rands) ≡ some s
    → s.room.users ≡ 1
    → (get_elem? s.threads i ≡ some t) × (t.place ≡ Position.inside w)
    → (get_elem? s.threads j ≡ some u) × (u.place ≡ Position.waiting)
    → (get_elem? s.threads k ≡ some v) × (v.place ≡ Position.outside) × (v.left ≡ suc left)
    → (s' : Simulation) × (simulate
          (Turn.runs i (pos 0) ∷ Turn.runs k (pos 0) ∷ Turn.runs j (pos 0) ∷ [])
          s
        ≡ some s')
      × (get_elem? s'.threads k ≡ some (record v { place = Position.inside false }))
      × (get_elem? s'.threads j ≡ some (record u { place = Position.inside true }))
unfolding simulate
broadcast_mixes rands turns s i j k left t u v w e one (own_i, at_i) (own_j, at_j)
      (own_k, at_k, more) =
    let busy = inside_left rands turns s i t w e own_i at_i in
    let i_j : i ≢ j =
      apart s.threads i j t u (Position.inside w) Position.waiting own_i own_j at_i at_j
        (λ e. cc) in
    let i_k : i ≢ k =
      apart s.threads i k t v (Position.inside w) Position.outside own_i own_k at_i at_k
        (λ e. cc) in
    let k_j : k ≢ j =
      apart s.threads k j v u Position.outside Position.waiting own_k own_j at_k at_j (λ e. cc) in
    let ts₁ = set s.threads i (end_round (pos 0) w (t.left - 1) t) in
    let s₁ : Simulation = record {
      room = record s.room { flag = none; users = 0 };
      threads = map wake ts₁;
    } in
    let run₁ = last_leaves s i t own_i w (t.left - 1) at_i (omega (arith, busy)) one in
    let k₁ = get_elem?-map-wake ts₁ k v (get_elem?-set_ne s.threads _ i_k ∙ own_k) in
    let j₁ = get_elem?-map-wake ts₁ j u (get_elem?-set_ne s.threads _ i_j ∙ own_j) in
    let ts₂ = set (map wake ts₁) k (record v { place = Position.inside false }) in
    let s₂ : Simulation = record { room = admit v.gender s₁.room; threads = ts₂ } in
    let run₂ = enters_vacant s₁ k (wake v) k₁ left (ap wake_place at_k) more refl in
    let j₂ = get_elem?-set_ne (map wake ts₁) _ k_j ∙ j₁ in
    let run₃ = woken_resumes s₂ j (wake u) j₂ (ap wake_place at_j) in
    let s₃ : Simulation = record {
      room = resume (length ts₂) u.gender s₂.room;
      threads = set ts₂ j (record u { place = Position.inside true });
    } in
    (
      s₃,
      rw run₁ (rw run₂ (rw run₃ refl)),
      get_elem?-set_ne ts₂ _ (λ e. k_j (sym e))
          ∙ get_elem?-set_self (map wake ts₁) k _ (lt-length_of_get_elem? _ k _ k₁),
      get_elem?-set_self ts₂ j _ (lt-length_of_get_elem? _ j _ j₂),
    )
