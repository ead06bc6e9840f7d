-- ===== src/Commander/Menu.antt =====
-- The menus of project1/mc0.c, mc1.c and mc2.c.
pub mod Offers
use cs3013_operating_systems.Prelude.{ℕ, zero, suc, List, [], ◌∷◌, ◌++◌, ℤ, map}
use cs3013_operating_systems.Commander.Shell.{Text, Command, Shell}
use cs3013_operating_systems.Commander.Version1
use cs3013_operating_systems.Commander.Version1.{Storage}

-- A line of a menu: a character to choose, or the number and the name of a command that was added.
pub data Entry : Type 0 where
  option : ℕ → Entry
  user_added : (opnum : ℤ) → Text → Entry

-- `usercommand` of mc2.c
unfoldable pub user_commands : ℕ → List Command → List (ℤ × Text)
user_commands zero cs = []
user_commands (suc n) [] = []
user_commands (suc n) (c ∷ cs) = (c.opnum, c.commandname) ∷ user_commands n cs

abbrev pub added_entries : List (ℤ × Text) → List Entry
added_entries [] = []
added_entries ((opnum, name) ∷ rest) = user_added opnum name ∷ added_entries rest

abbrev pub first_options : List Entry
first_options = option b'0' ∷ option b'1' ∷ option b'2' ∷ []

abbrev pub last_options : List Entry
last_options = option b'a' ∷ option b'c' ∷ option b'e' ∷ option b'p' ∷ option b'r' ∷ []

-- `menu` of mc0.c, of mc1.c and of mc2.c
abbrev pub menu_version0 : List Entry
menu_version0 = first_options

unfoldable pub menu_version1 : Storage → List Entry
menu_version1 s = first_options ++ (added_entries (Version1.user_command s) ++ last_options)

unfoldable pub menu_version2 : Shell → List Entry
unfolding user_commands
menu_version2 s =
    first_options ++ (added_entries (user_commands s.addedcommands s.commands) ++ last_options)
