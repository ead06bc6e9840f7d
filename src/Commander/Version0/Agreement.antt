-- ===== src/Commander/Version0/Agreement.antt =====
-- project1/mc0.c and project1/mc1.c on the three commands of the menu.
use cs3013_operating_systems.Prelude.{◌≡◌, ◌⊎◌, inl, inr, refl, some, List, [], ◌∷◌, All, true}
use cs3013_operating_systems.Commander.Shell.{Input}
use cs3013_operating_systems.Commander.Version0 as Mc0
use cs3013_operating_systems.Commander.Version1 as Mc1
use cs3013_operating_systems.Commander.Version1.{Storage}

-- A choice of whoami, last or ls.
abbrev pub IsBasic : Input → Type 0
IsBasic i = (i.choice ≡ some b'0') ⊎ (i.choice ≡ some b'1') ⊎ (i.choice ≡ some b'2')

main_round-basic :
    (i : Input) (s : Storage) → IsBasic i → Mc1.main_round i s ≡ Mc1.round true s (Mc0.round i)
unfolding Mc1.main_round Mc1.select Mc0.round Mc0.select
main_round-basic i s (inl e) = rw e refl
main_round-basic i s (inr (inl e)) = rw e refl
main_round-basic i s (inr (inr e)) = rw e refl

-- On inputs that choose one of the three commands of the menu, the actions of mc1.c are those of mc0.c,
-- whatever was added to its storage. The statistics that `run` prints differ, and are no actions.
pub main-basic :
    (is : List Input) (s : Storage) → All IsBasic is → Mc1.main is s ≡ some (Mc0.main is)
unfolding Mc1.main Mc0.main
main-basic [] s all = refl
main-basic (i ∷ is) s (basic, all) =
    rw (main_round-basic i s basic, Mc1.main) (rw (main-basic is s all, Mc1.main) refl)
