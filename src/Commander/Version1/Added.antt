-- ===== src/Commander/Version1/Added.antt =====
-- A command that is added, in project1/mc1.c and in mc2.c.
use cs3013_operating_systems.Prelude.{
  ◌+◌, ◌<◌, ◌≤◌, ◌≡◌, refl, sym, ap, ◌∙◌, inl, inr, some, none, ◌∷◌, ◌++◌, arith, set, length,
  get_elem?-set_ne, true, false, ltb, pos,
}
use cs3013_operating_systems.Commander.Queue.{is_background}
use cs3013_operating_systems.Commander.Numbers.{max_commands, set-HasNumbers, get_elem?-set_cases}
use cs3013_operating_systems.Commander.Shell.{
  Text, Input, Shell, Action, run, started, queue_full, added_with_id, listing, changed_to,
  invalid_input, logging_out, chomp, find_command,
}
use cs3013_operating_systems.Commander.Shell.Laws.{new_command, with_command}
use cs3013_operating_systems.Commander.Shell as Mc2
use cs3013_operating_systems.Commander.Version1 as Mc1
use cs3013_operating_systems.Commander.Version1.{Storage, Command}
use cs3013_operating_systems.Commander.Version1.Agrees.{Agrees}

-- The command that both programs add.
module _ {s₁ : Storage} {s₂ : Shell} (a : Agrees s₁ s₂) (first second name stale : Text) where
  pub add_command-crash :
      max_commands ≤ s₁.addedcommands
      → (Mc1.add_command first second name s₁ ≡ none)
        × (Mc2.add_command first second name stale s₂ ≡ none)
  unfolding Mc1.add_command Mc2.add_command
  add_command-crash full =
      let full₁ : ltb s₁.addedcommands (length s₁.commands) ≡ false =
        ground (arith, full, a.numbers₁.size) in
      let full₂ : ltb s₂.addedcommands (length s₂.commands) ≡ false =
        ground (arith, full, a.numbers₂.size, a.added) in
      (rw full₁ refl, rw full₂ refl)

  abbrev pub c₁ : Command
  c₁ = record {
    word₀ = first;
    word₁ = second;
    commandname = name;
    opnum = pos (3 + s₁.addedcommands);
  }

  abbrev pub s₁' : Storage
  s₁' = record {
    addedcommands = s₁.addedcommands + 1;
    commands = set s₁.commands s₁.addedcommands c₁;
    firstrun = false;
  }

  abbrev pub c₂ : Mc2.Command
  c₂ = new_command first second name stale s₂.addedcommands

  abbrev pub s₂' : Shell
  s₂' = with_command c₂ s₂

  pub add_command-Agrees :
      s₁.addedcommands < max_commands
      → is_background (name ++ (0 ∷ stale)) ≡ false
      → (Mc1.add_command first second name s₁ ≡ some s₁')
        × (Mc2.add_command first second name stale s₂ ≡ some s₂')
        × Agrees s₁' s₂'
  unfolding Mc1.add_command Mc2.add_command
  add_command-Agrees room plain =
      let room₁ : ltb s₁.addedcommands (length s₁.commands) ≡ true =
        ground (arith, room, a.numbers₁.size) in
      let room₂ : ltb s₂.addedcommands (length s₂.commands) ≡ true =
        ground (arith, room, a.numbers₂.size, a.added) in
      (
        rw room₁ refl,
        rw room₂ refl,
        record {
          added = ap (λ n. n + 1) a.added;
          fits = omega (arith, room);
          first = ground arith;
          numbers₁ = set-HasNumbers s₁.commands s₁.addedcommands c₁ a.numbers₁ room refl;
          numbers₂ =
              set-HasNumbers s₂.commands s₂.addedcommands c₂ a.numbers₂
                (omega (arith, room, a.added)) refl;
          idle = a.idle;
          stays = a.stays;
          words = λ i c d l e₁ e₂.
              elim (get_elem?-set_cases s₁.commands s₁.addedcommands i c₁ c
                (omega (arith, room, a.numbers₁.size)) e₁) [
                  | inl (same₁, held₁) ↦
                      elim (get_elem?-set_cases s₂.commands s₂.addedcommands i c₂ d
                        (omega (arith, room, a.numbers₂.size, a.added)) e₂) [
                          | inl (same₂, held₂) ↦ rw (← held₁) (rw (← held₂) (refl, refl, plain))
                          | inr (ne, before) ↦ absurd (ne (omega (arith, a.added, same₁)))
                        ]
                  | inr (ne, before) ↦ a.words i c d (omega arith) before (
                      sym (
                        get_elem?-set_ne s₂.commands {i = s₂.addedcommands} {j = i} c₂
                          (omega (arith, a.added, ne)))
                      ∙ e₂)
                ];
        },
      )
