-- ===== src/Commander/Version0.antt =====
-- project1/mc0.c: the commander with three commands, which never leaves.
pub mod Agreement
use cs3013_operating_systems.Prelude.{
  ℕ, List, [], ◌∷◌, ◌++◌, Option, none, some, if◌then◌else◌, ◌==◌,
}
use cs3013_operating_systems.Commander.Shell.{
  Text, Input, Action, run, invalid_input, optional, ls, whoami, last,
}

-- The `switch` of `main`.
unfoldable pub select : Input → ℕ → List Action
select i choice =
    if choice == 48
    then run (whoami ∷ []) ∷ []
    else if choice == 49
    then run (last ∷ []) ∷ []
    else if choice == 50
    then run (ls ∷ (optional i.line₁ ++ optional i.line₂)) ∷ []
    else invalid_input ∷ []

-- The end of the input is a choice like any other, and not a valid one.
unfoldable pub round : Input → List Action
unfolding select
round i = elim i.choice [ none ↦ invalid_input ∷ [] | some choice ↦ select i choice ]

-- `main` calls itself at its end, so that it goes through all its inputs.
unfoldable pub main : List Input → List Action
unfolding round
main [] = []
main (i ∷ is) = round i ++ main is
