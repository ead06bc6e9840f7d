-- ===== src/Commander/Version1/Numbers.antt =====
-- The commands that a choice finds in the storage of project1/mc1.c and of mc2.c.
use cs3013_operating_systems.Prelude.{
  ℕ, zero, suc, ◌+◌, ◌-◌, ◌<◌, ◌≡◌, ◌≢◌, refl, ◌⊎◌, inl, inr, dec_lt, some, none, List, [], ◌∷◌,
  arith, get_elem?, true, false, leb, ap, ℤ, pos, minus_one, eq_ℤ, sub_ℕ,
}
use cs3013_operating_systems.Commander.Shell.{run, find_command}
use cs3013_operating_systems.Commander.Version1.{Command, run_all}
use cs3013_operating_systems.Commander.Shell.{Command as Command₂}

pub run_all-none :
    (cs : List Command) (k : ℤ)
    → ((j : ℕ) (c : Command) → get_elem? cs j ≡ some c → eq_ℤ c.opnum k ≡ false)
    → run_all k cs ≡ []
unfolding run_all
run_all-none [] k other = refl
run_all-none (d ∷ cs) k other = rw (other 0 d refl) (run_all-none cs k (λ j c e. other (suc j) c e))

pub run_all-only :
    (cs : List Command) (k : ℤ) (i : ℕ) (c : Command)
    → get_elem? cs i ≡ some c
    → eq_ℤ c.opnum k ≡ true
    → ((j : ℕ) (c' : Command) → j ≢ i → get_elem? cs j ≡ some c' → eq_ℤ c'.opnum k ≡ false)
    → run_all k cs ≡ run (c.word₀ ∷ c.word₁ ∷ []) ∷ []
unfolding run_all
run_all-only [] k i c e h other = cc
run_all-only (d ∷ cs) k zero c e h other =
    let same : d ≡ c = cc in
    rw same (rw h (rw (run_all-none cs k (λ j c' e'. other (suc j) c' (λ z. cc) e')) refl))
run_all-only (d ∷ cs) k (suc i) c e h other =
    rw (other 0 d (λ z. cc) refl)
      (run_all-only cs k i c e h (λ j c' ne e'. other (suc j) c' (λ z. ne cc) e'))

pub find_command-none :
    (cs : List Command₂) (k : ℤ)
    → ((j : ℕ) (c : Command₂) → get_elem? cs j ≡ some c → eq_ℤ c.opnum k ≡ false)
    → find_command k cs ≡ none
unfolding find_command
find_command-none [] k other = refl
find_command-none (d ∷ cs) k other =
    rw (other 0 d refl) (find_command-none cs k (λ j c e. other (suc j) c e))

-- A number is one below 3, one of a command that was added, or one behind those.
pub number_cases :
    (choice added : ℕ)
    → choice ≢ b'/'
    → ((i : ℕ) × (i < added) × (sub_ℕ choice b'0' ≡ pos (3 + i)))
      ⊎ (((j : ℕ) → j < added → eq_ℤ (pos (3 + j)) (sub_ℕ choice b'0') ≡ false)
          × (eq_ℤ minus_one (sub_ℕ choice b'0') ≡ false)
          × (choice ≢ b'0' → eq_ℤ (pos 0) (sub_ℕ choice b'0') ≡ false))
number_cases choice added slash = elim (dec_lt choice 48) [
  | yes low ↦
      (let below : leb 48 choice ≡ false = ground arith in
        inr (λ j h. rw below refl, rw below (ground arith), λ other. rw below refl))
  | no high ↦
      (let above : leb 48 choice ≡ true = ground arith in
        elim (dec_lt choice 51) [
          | yes low ↦
              inr (λ j h. rw above (ground arith), rw above refl, λ other. rw above (ground arith))
          | no more ↦ elim (dec_lt (choice - 51) added) [
            | yes known ↦
                (let number : choice - 48 ≡ 3 + (choice - 51) = omega arith in
                  inl (choice - 51, known, rw above (ap pos number)))
            | no behind ↦
                inr
                  (λ j h. rw above (ground arith), rw above refl, λ other. rw above (ground arith))
          ]
        ])
]
