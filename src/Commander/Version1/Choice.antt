-- ===== src/Commander/Version1/Choice.antt =====
-- A choice of a command, in project1/mc1.c and in mc2.c.
use cs3013_operating_systems.Prelude.{
  ℕ, ◌+◌, ◌<◌, ◌≡◌, ◌≢◌, refl, ap, ◌∙◌, inl, inr, dec_lt, some, [], ◌∷◌, arith, get_elem?,
  get_elem?_of_lt, true, false, Bool-cases, ◌==◌, pos, minus_one, eq_ℤ, sub_ℕ,
}
use cs3013_operating_systems.Commander.Shell.{
  Text, Input, Shell, Action, run, started, queue_full, added_with_id, listing, changed_to,
  invalid_input, logging_out, chomp, find_command,
}
use cs3013_operating_systems.Commander.Shell.Laws.{find_command-number, user_case-run}
use cs3013_operating_systems.Commander.Shell as Mc2
use cs3013_operating_systems.Commander.Version1 as Mc1
use cs3013_operating_systems.Commander.Version1.{Storage, Command}
use cs3013_operating_systems.Commander.Version1.Numbers.{
  run_all-none, run_all-only, find_command-none, number_cases,
}
use cs3013_operating_systems.Commander.Version1.Agrees.{Agrees, done, Matches, rounds}

-- The choice of a command that was added.
module _ {s₁ : Storage} {s₂ : Shell} (a : Agrees s₁ s₂) (choice j : ℕ) (c₁ : Command)
    (c₂ : Mc2.Command) (known : j < s₁.addedcommands) (number : sub_ℕ choice b'0' ≡ pos (3 + j))
    (e₁ : get_elem? s₁.commands j ≡ some c₁) (e₂ : get_elem? s₂.commands j ≡ some c₂) where
  other_number :
      (k : ℕ) (c : Command)
      → k ≢ j
      → get_elem? s₁.commands k ≡ some c
      → eq_ℤ c.opnum (pos (3 + j)) ≡ false
  other_number k c ne e = elim (dec_lt k s₁.addedcommands) [
    | yes used ↦ rw (a.numbers₁.used k c used e) (ground arith)
    | no unused ↦ rw (a.numbers₁.unused k c (omega (arith, unused)) e) (ground arith)
  ]

  user_case-run₁ : Mc1.user_case choice s₁ ≡ Mc1.round true s₁ (run (c₁.word₀ ∷ c₁.word₁ ∷ []) ∷ [])
  unfolding Mc1.user_case
  user_case-run₁ =
      let later : (s₁.addedcommands == 0) ≡ false = ground arith in
      let same : eq_ℤ c₁.opnum (pos (3 + j)) ≡ true =
        rw (a.numbers₁.used j c₁ known e₁) (ground arith) in
      simp (a.first ∙ later) (
        rw number (
          ap (Mc1.round true s₁)
            (run_all-only s₁.commands (pos (3 + j)) j c₁ e₁ same other_number)))

  user_case-run₂ :
      (i : Input)
      → Mc2.user_case i choice s₂ ≡ Mc2.round true s₂ (run (c₂.word₀ ∷ c₂.word₁ ∷ []) ∷ [])
  user_case-run₂ i =
      let (word₀, word₁, plain) = a.words j c₁ c₂ known e₁ e₂ in
      user_case-run i choice s₂ c₂
        (rw number (find_command-number s₂ j c₂ a.numbers₂ (omega (arith, known, a.added)) e₂))
        plain

  user_case-known : (i : Input) → Matches (Mc1.user_case choice s₁) (Mc2.user_case i choice s₂)
  unfolding done
  user_case-known i =
      let (word₀, word₁, plain) = a.words j c₁ c₂ known e₁ e₂ in
      rw user_case-run₁ (rw (user_case-run₂ i) (rounds a (rw word₀ (rw word₁ refl))))

-- The choice of none.
module _ {s₁ : Storage} {s₂ : Shell} (a : Agrees s₁ s₂) (choice : ℕ)
    (other : (j : ℕ) → j < s₁.addedcommands → eq_ℤ (pos (3 + j)) (sub_ℕ choice b'0') ≡ false)
    (free₁ : eq_ℤ (pos 0) (sub_ℕ choice b'0') ≡ false)
    (free₂ : eq_ℤ minus_one (sub_ℕ choice b'0') ≡ false) where
  none₁ :
      (j : ℕ) (c : Command)
      → get_elem? s₁.commands j ≡ some c
      → eq_ℤ c.opnum (sub_ℕ choice b'0') ≡ false
  none₁ j c e = elim (dec_lt j s₁.addedcommands) [
    | yes used ↦ rw (a.numbers₁.used j c used e) (other j used)
    | no unused ↦ rw (a.numbers₁.unused j c (omega (arith, unused)) e) free₁
  ]

  none₂ :
      (j : ℕ) (c : Mc2.Command)
      → get_elem? s₂.commands j ≡ some c
      → eq_ℤ c.opnum (sub_ℕ choice b'0') ≡ false
  none₂ j c e = elim (dec_lt j s₁.addedcommands) [
    | yes used ↦ rw (a.numbers₂.used j c (omega (arith, used, a.added)) e) (other j used)
    | no unused ↦ rw (a.numbers₂.unused j c (omega (arith, unused, a.added)) e) free₂
  ]

  user_case-unknown : (i : Input) → Matches (Mc1.user_case choice s₁) (Mc2.user_case i choice s₂)
  unfolding Mc1.user_case Mc2.user_case done
  user_case-unknown i =
      rw (find_command-none s₂.commands (sub_ℕ choice b'0') none₂, Mc2.user_case)
        (elim (Bool-cases s₁.firstrun) [
          | inl first ↦ simp first (rounds a refl)
          | inr later ↦
              simp later (rw (run_all-none s₁.commands (sub_ℕ choice b'0') none₁) (rounds a refl))
        ])

pub user_case-Matches :
    {s₁ : Storage} {s₂ : Shell} (i : Input) (choice : ℕ)
    → choice ≢ b'/'
    → choice ≢ b'0'
    → Agrees s₁ s₂
    → Matches (Mc1.user_case choice s₁) (Mc2.user_case i choice s₂)
user_case-Matches {s₁} {s₂} i choice slash digit a =
    elim (number_cases choice s₁.addedcommands slash) [
      | inl (j, known, number) ↦
          (let (c₁, e₁) =
              get_elem?_of_lt s₁.commands j (omega (arith, known, a.fits, a.numbers₁.size)) in
            let (c₂, e₂) =
              get_elem?_of_lt s₂.commands j (omega (arith, known, a.fits, a.numbers₂.size)) in
            user_case-known a choice j c₁ c₂ known number e₁ e₂ i)
      | inr (other, free₂, free₁) ↦ user_case-unknown a choice other (free₁ digit) free₂ i
    ]
