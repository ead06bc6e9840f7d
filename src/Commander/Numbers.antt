-- ===== src/Commander/Numbers.antt =====
-- The numbers of the commands in the storage of project1/mc1.c and mc2.c.
use cs3013_operating_systems.Prelude.{
  ℕ, ◌+◌, ◌<◌, ◌≤◌, ◌≡◌, ◌≢◌, ◌⊎◌, inl, inr, ◌∙◌, some, List, arith, length, get_elem?, set, ap,
  sym, ℤ, pos, get_elem?-set_self, get_elem?-set_ne, length-set, ℕ_discrete,
}

-- `MAXCOMMANDS`
abbrev pub max_commands : ℕ
max_commands = 100

-- The entries in use have the numbers from 3 on, and the rest the number `free`.
pub record HasNumbers {A : Type 0} (number : A → ℤ) (free : ℤ) (commands : List A) (added : ℕ)
    : Type 0 where
  pub size : length commands ≡ max_commands
  pub used : (i : ℕ) (c : A) → i < added → get_elem? commands i ≡ some c → number c ≡ pos (3 + i)
  pub unused : (i : ℕ) (c : A) → added ≤ i → get_elem? commands i ≡ some c → number c ≡ free

-- What a list holds after a write.
pub get_elem?-set_cases :
    {A : Type 0} (xs : List A) (n i : ℕ) (c d : A)
    → n < length xs
    → get_elem? (set xs n c) i ≡ some d
    → ((n ≡ i) × (c ≡ d)) ⊎ ((n ≢ i) × (get_elem? xs i ≡ some d))
get_elem?-set_cases xs n i c d h e = elim (ℕ_discrete n i) [
  | yes same ↦
      (let slot : get_elem? (set xs n c) i ≡ some c = rw (← same) (get_elem?-set_self xs n c h) in
        inl (same, cc))
  | no ne ↦ inr (ne, sym (get_elem?-set_ne xs c ne) ∙ e)
]

pub set-HasNumbers :
    {A : Type 0} {number : A → ℤ} {free : ℤ} (commands : List A) (added : ℕ) (c : A)
    → HasNumbers number free commands added
    → added < max_commands
    → number c ≡ pos (3 + added)
    → HasNumbers number free (set commands added c) (added + 1)
set-HasNumbers {number} commands added c n h numbered = record {
  size = length-set commands added c ∙ n.size;
  used = λ i c' l e. elim (get_elem?-set_cases commands added i c c' (omega (arith, n.size, h)) e) [
    | inl (same, held) ↦ rw (← held) (numbered ∙ ap (λ k. pos (3 + k)) same)
    | inr (ne, before) ↦ n.used i c' (omega arith) before
  ];
  unused = λ i c' l e.
      elim (get_elem?-set_cases commands added i c c' (omega (arith, n.size, h)) e) [
        | inl (same, held) ↦ absurd (omega arith)
        | inr (ne, before) ↦ n.unused i c' (omega arith) before
      ];
}
