-- ===== src/Commander/Version1/Agreement.antt =====
-- project1/mc1.c and project1/mc2.c on inputs without background tasks and task lists.
use cs3013_operating_systems.Prelude.{
  ℕ, ◌+◌, ◌≡◌, ◌≢◌, refl, sym, ap, ◌∙◌, inl, inr, dec_lt, some, none, Option-cases, [], ◌∷◌, ◌++◌,
  arith, replicate, true, false, Bool, ◌==◌, ltb, if◌then◌else◌,
}
use cs3013_operating_systems.Memory.Text.{strtok, space}
use cs3013_operating_systems.Commander.Queue.{max_back, is_background, remove_background}
use cs3013_operating_systems.Commander.Numbers.{max_commands}
use cs3013_operating_systems.Commander.Shell.{
  Text, Input, Shell, Action, run, started, queue_full, added_with_id, listing, changed_to,
  invalid_input, logging_out, chomp, find_command,
}
use cs3013_operating_systems.Commander.Shell as Mc2
use cs3013_operating_systems.Commander.Version1 as Mc1
use cs3013_operating_systems.Commander.Version1.{Storage, Command}
use cs3013_operating_systems.Commander.Version1.Choice.{user_case-Matches}
use cs3013_operating_systems.Commander.Version1.Added.{add_command-Agrees, add_command-crash}
use cs3013_operating_systems.Commander.Version1.Agrees.{Agrees, done, Matches, crashes, rounds}

-- An input that both programs take for the same: no task list, no number of an unused entry, no line
-- for the background, and no child that has ended.
pub record IsPlain (i : Input) : Type 0 where
  pub reaped : i.reaped ≡ 0
  pub no_list : i.choice ≢ some b'r'
  pub no_slash : i.choice ≢ some b'/'
  pub foreground : is_background (chomp i.line₁ ++ (0 ∷ i.stale)) ≡ false

add_case-Matches :
    {s₁ : Storage} {s₂ : Shell} (i : Input)
    → IsPlain i
    → Agrees s₁ s₂
    → Matches (Mc1.add_case i.line₁ s₁) (Mc2.add_case i s₂)
unfolding Mc1.add_case Mc2.add_case done
add_case-Matches {s₁} {s₂} i p a = elim (Option-cases (strtok space (chomp i.line₁))) [
  | inl e ↦ rw (e, Mc1.add_case, Mc2.add_case) crashes
  | inr ((first, rest), e) ↦
      rw (e, Mc1.add_case, Mc2.add_case)
        (elim (Option-cases (strtok space rest)) [
          | inl e' ↦ rw (e', Mc1.add_case, Mc2.add_case) crashes
          | inr ((second, rest'), e') ↦
              rw (e', Mc1.add_case, Mc2.add_case)
                (elim (dec_lt s₁.addedcommands max_commands) [
                  | yes room ↦
                      (let (run₁, run₂, a') =
                          add_command-Agrees a first second (chomp i.line₁) i.stale room
                            p.foreground in
                        rw (run₁, Mc1.add_case)
                          (rw (run₂, Mc2.add_case)
                            (rounds a' (ap (λ n. added_with_id (3 + n) ∷ []) a.added))))
                  | no full ↦
                      (let (run₁, run₂) =
                          add_command-crash a first second (chomp i.line₁) i.stale
                            (omega (arith, full)) in
                        rw (run₁, Mc1.add_case) (rw (run₂, Mc2.add_case) crashes))
                ])
        ])
]

Matches-if :
    {x₁ y₁ : Mc1.Round} {x₂ y₂ : Mc2.Round} (b : Bool)
    → Matches x₁ x₂
    → (b ≡ false → Matches y₁ y₂)
    → Matches (if b then x₁ else y₁) (if b then x₂ else y₂)
Matches-if true h h' = h
Matches-if false h h' = h' refl

select-Matches :
    {s₁ : Storage} {s₂ : Shell} (i : Input) (choice : ℕ)
    → i.choice ≡ some choice
    → IsPlain i
    → Agrees s₁ s₂
    → Matches (Mc1.select i choice s₁) (Mc2.select i choice s₂)
unfolding Mc1.select Mc2.select done
select-Matches {s₁} {s₂} i choice e p a =
    let slash : choice ≢ b'/' = λ d. p.no_slash (e ∙ ap some d) in
    let listed : choice ≢ b'r' = λ d. p.no_list (e ∙ ap some d) in
    let list : (choice == b'r') ≡ false = ground arith in
    Matches-if (choice == b'0') (rounds a refl) λ digit.
      Matches-if (choice == b'1') (rounds a refl) λ _.
        Matches-if (choice == b'2') (rounds a refl) λ _.
          Matches-if (choice == b'a') (add_case-Matches i p a) λ _.
            Matches-if (choice == b'e') (rounds a refl) λ _.
              Matches-if (choice == b'c') (rounds a refl) λ _.
                Matches-if (choice == b'p') (rounds a refl)
                  λ _. rw list (user_case-Matches i choice slash (ground (arith, digit)) a)

prompt-Matches :
    {s₁ : Storage} {s₂ : Shell} (i : Input)
    → IsPlain i
    → Agrees s₁ s₂
    → Matches (Mc1.main_round i s₁) (Mc2.prompt i s₂)
unfolding Mc1.main_round Mc2.prompt Mc1.select done
prompt-Matches {s₁} {s₂} i p a = elim (Option-cases i.choice) [
  | inl e ↦ simp (a.stays, e) (rounds a refl)
  | inr (choice, e) ↦ simp (a.stays, e) (select-Matches i choice e p a)
]

-- The loop of mc2.c clears the process 0 from its queue, which changes nothing where no task is there.
remove_background-idle : remove_background 0 (replicate max_back 0) ≡ some (replicate max_back 0)
unfolding remove_background
remove_background-idle = refl

forget-idle : {s₁ : Storage} {s₂ : Shell} → Agrees s₁ s₂ → Mc2.forget Mc2.remove_pid s₂ ≡ some s₂
unfolding Mc2.forget
forget-idle {s₂} a =
    let same : remove_background 0 s₂.running ≡ some s₂.running =
      ap (remove_background 0) a.idle ∙ remove_background-idle ∙ ap some (sym a.idle) in
    rw (same, Mc2.forget) refl

after_prompt :
    {r₁ : Mc1.Round} {r₂ : Mc2.Round}
    → Matches r₁ r₂
    → Matches r₁ (elim r₂ [
      | Mc2.crash ↦ Mc2.crash
      | Mc2.round false s' actions ↦ Mc2.round false s' actions
      | Mc2.round true s' actions ↦ elim (Mc2.forget Mc2.remove_pid s') [
        | none ↦ Mc2.crash
        | some s'' ↦ Mc2.round true s'' actions
      ]
    ])
after_prompt crashes = crashes
after_prompt (rounds {again = false} a e) = rounds a e
after_prompt (rounds {again = true} a e) = simp (forget-idle a) (rounds a e)

-- From storages that agree, a call of `main` of mc1.c and a round of mc2.c on a plain input both crash,
-- or do the same but for the message about a choice that is not valid, go on alike, and agree again.
pub main_round-Matches :
    {s₁ : Storage} {s₂ : Shell} (i : Input)
    → IsPlain i
    → Agrees s₁ s₂
    → Matches (Mc1.main_round i s₁) (Mc2.main_round i s₂)
unfolding Mc2.main_round Mc2.main_process
main_round-Matches i p a =
    let quiet : ltb 0 i.reaped ≡ false = ground (arith, p.reaped) in
    rw (quiet, Mc2.main_round) (after_prompt (prompt-Matches i p a))
