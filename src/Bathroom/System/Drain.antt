-- ===== src/Bathroom/System/Drain.antt =====
-- The way out of the monitor of project3/bathroom.c, once no thread enters any more.
use cs3013_operating_systems.Prelude.{
  ℕ, zero, suc, ◌+◌, ◌*◌, ◌<◌, ◌≡◌, ◌⊎◌, inl, inr, refl, Bool, true, false, List, [], ◌∷◌, length,
  length-append, ap, ◌∙◌, arith,
}
use cs3013_operating_systems.Bathroom.Monitor.{Gender}
use cs3013_operating_systems.Bathroom.System.{System, start, Takes, Step, Steps}
use cs3013_operating_systems.Bathroom.System.Counts.{
  Counts, leave_cases, Step-Counts, reachable-Counts,
}

-- The steps of threads that are inside or were woken: none enters, starts to wait or ends its wait without
-- a signal.
abbrev pub is_finishing : {users : ℕ} {s t : System} → Step users s t → Bool
is_finishing (Step.enters g b e) = false
is_finishing (Step.waits g b e) = false
is_finishing (Step.wakes g rest t) = false
is_finishing (Step.resumes g rest t) = true
is_finishing (Step.leaves g rest b t e) = true
is_finishing (Step.leaves_last g rest b t e) = true

pub data Finish (users : ℕ) : System → System → Type 0 where
  finished : {s : System} → Finish users s s
  next :
      {s t u : System} (st : Step users s t)
      → is_finishing st ≡ true
      → Finish users t u
      → Finish users s u

-- A state that such steps lead to, with no thread left.
abbrev pub Drains : ℕ → System → Type 0
Drains users s =
    (t : System) × Finish users s t × (t.inside ≡ []) × (t.waiting ≡ []) × (t.woken ≡ [])

first_then :
    {users : ℕ} {s t : System} (st : Step users s t)
    → is_finishing st ≡ true
    → Drains users t
    → Drains users s
first_then st e (t, f, inside, waiting, woken) = (t, next st e f, inside, waiting, woken)

List-cases : (xs : List Gender) → (xs ≡ []) ⊎ ((x : Gender) × (ys : List Gender) × (xs ≡ x ∷ ys))
List-cases [] = inl refl
List-cases (x ∷ xs) = inr (x, xs, refl)

-- Each step takes at least one off.
abbrev measure : System → ℕ
measure s = length s.inside + 2 * length s.woken + 3 * length s.waiting

empty_of_length : (xs : List Gender) → length xs ≡ 0 → xs ≡ []
empty_of_length [] h = refl
empty_of_length (x ∷ xs) h = absurd (omega (arith, h))

drain : {users : ℕ} (k : ℕ) (s : System) → Counts s → measure s < k → Drains users s
drain zero s c h = absurd (omega (arith, h))
drain {users} (suc k) s c h = elim (List-cases s.woken) [
  | inr (g, rest, e) ↦
      (let size : length s.woken ≡ suc (length rest) = ap length e in
        let st : Step users s _ = Step.resumes g rest (rw e (Takes.here rest)) in
        first_then st refl (drain k _ (Step-Counts st c) (omega (arith, h, size))))
  | inl no_woken ↦ elim (List-cases s.inside) [
    | inl nobody ↦
        (let users_zero : s.room.users ≡ 0 = c.users ∙ ap length nobody in
          let waiting : s.waiting ≡ [] = elim c.no_waiter [
            | inl none_left ↦ empty_of_length s.waiting none_left
            | inr busy ↦ absurd (busy users_zero)
          ] in
          (s, finished, nobody, waiting, no_woken))
    | inr (g, rest, e) ↦
        (let size : length s.inside ≡ suc (length rest) = ap length e in
          elim (leave_cases s.room.users s.room refl) [
            | inl (zero_users, _) ↦ absurd (omega (arith, zero_users, c.users, size))
            | inr (inl (one, run)) ↦
                (let st : Step users s _ = Step.leaves_last g rest _ (rw e (Takes.here rest)) run in
                  first_then st refl (
                    drain k _ (Step-Counts st c)
                      (omega (arith, h, size, length-append s.waiting s.woken))))
            | inr (inr (more, run)) ↦
                (let st : Step users s _ = Step.leaves g rest _ (rw e (Takes.here rest)) run in
                  first_then st refl (drain k _ (Step-Counts st c) (omega (arith, h, size))))
          ])
  ]
]

-- From every state that the threads can reach, there are steps of threads that are inside or were
-- woken, with no thread that enters and no wait that ends without a signal, to a state in which no thread
-- is inside, waits or was woken.
pub reachable-Drains : {users : ℕ} {s : System} → Steps users (start users) s → Drains users s
reachable-Drains {users} {s} r = drain (measure s + 1) s (reachable-Counts r) (omega arith)
