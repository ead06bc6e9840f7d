-- ===== src/Commander/Version1/Agrees.antt =====
-- A relation of the storages of project1/mc1.c and mc2.c, and of their rounds.
use cs3013_operating_systems.Prelude.{
  ℕ, ◌<◌, ◌≤◌, ◌≡◌, some, List, [], ◌∷◌, get_elem?, replicate, false, Bool, ◌==◌, pos,
}
use cs3013_operating_systems.Commander.Queue.{max_back}
use cs3013_operating_systems.Commander.Numbers.{max_commands, HasNumbers}
use cs3013_operating_systems.Commander.Shell.{
  Text, Input, Shell, Action, run, started, queue_full, added_with_id, listing, changed_to,
  invalid_input, logging_out, chomp, find_command,
}
use cs3013_operating_systems.Commander.Shell.Laws.{IsNumbered}
use cs3013_operating_systems.Commander.Shell as Mc2
use cs3013_operating_systems.Commander.Version1 as Mc1
use cs3013_operating_systems.Commander.Version1.{Storage, Command}

-- The two programs hold the same commands, none of them for the background.
pub record Agrees (s₁ : Storage) (s₂ : Shell) : Type 0 where
  pub added : s₁.addedcommands ≡ s₂.addedcommands
  pub fits : s₁.addedcommands ≤ max_commands
  pub first : s₁.firstrun ≡ (s₁.addedcommands == 0)
  pub numbers₁ : HasNumbers (λ c. c.opnum) (pos 0) s₁.commands s₁.addedcommands
  pub numbers₂ : IsNumbered s₂
  pub idle : s₂.running ≡ replicate max_back 0
  pub stays : s₂.leave ≡ false
  pub words :
      (i : ℕ) (c₁ : Command) (c₂ : Mc2.Command)
      → i < s₁.addedcommands
      → get_elem? s₁.commands i ≡ some c₁
      → get_elem? s₂.commands i ≡ some c₂
      → (c₁.word₀ ≡ c₂.word₀) × (c₁.word₁ ≡ c₂.word₁) × (c₂.background ≡ false)

-- The actions without the message for a choice that is not valid.
unfoldable pub done : List Action → List Action
done [] = []
done (invalid_input ∷ as') = done as'
done (a ∷ as') = a ∷ done as'

-- Both rounds crash, or both leave states that agree, go on alike and do the same.
pub data Matches : Mc1.Round → Mc2.Round → Type 0 where
  crashes : Matches Mc1.crash Mc2.crash
  rounds :
      {again : Bool} {s₁ : Storage} {s₂ : Shell} {as₁ as₂ : List Action}
      → Agrees s₁ s₂
      → done as₁ ≡ done as₂
      → Matches (Mc1.round again s₁ as₁) (Mc2.round again s₂ as₂)
