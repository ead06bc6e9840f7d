-- ===== src/Commander/Menu/Offers.antt =====
-- What the lines of the menu of project1/mc2.c offer.
use cs3013_operating_systems.Prelude.{
  ℕ, ◌-◌, ◌⊎◌, inl, inr, ℕ_discrete, ◌≢◌, zero, suc, ◌+◌, ◌<◌, ◌≤◌, ◌≡◌, refl, some, List, [], ◌∷◌,
  arith, get_elem?, pos, All, All-append, Option-cases, true,
}
use cs3013_operating_systems.Memory.Text.{strtok, space}
use cs3013_operating_systems.Commander.Shell.{
  Command, Shell, Input, round, crash, find_command, select, user_case, invalid_input, chomp,
  add_command, add_case, added_with_id,
}
use cs3013_operating_systems.Commander.Shell.Laws.{IsNumbered, find_command-number}
use cs3013_operating_systems.Commander.Menu.{
  Entry, option, user_added, user_commands, added_entries, first_options, last_options,
  menu_version2,
}

-- The numbers whose character is one of the menu's own: a, c, e, p and r.
abbrev pub IsTaken : ℕ → Type 0
IsTaken n =
    (n ≡ b'a' - b'0')
    ⊎ ((n ≡ b'c' - b'0') ⊎ ((n ≡ b'e' - b'0') ⊎ ((n ≡ b'p' - b'0') ⊎ (n ≡ b'r' - b'0'))))

-- What choosing a line does. The character of a number is that many behind the character 0.
abbrev pub Offers : Shell → Entry → Type 0
Offers s (option key) = (i : Input) → select i key s ≢ round true s (invalid_input ∷ [])
Offers s (user_added opnum name) =
    (n : ℕ) × (c : Command) × (opnum ≡ pos n)
    × (c.commandname ≡ name)
    × (find_command (pos n) s.commands ≡ some c)
    × (IsTaken n ⊎ ((i : Input) → select i (b'0' + n) s ≡ user_case i (b'0' + n) s))

letter_cases : (n : ℕ) → IsTaken n ⊎ ((n ≢ 49) × (n ≢ 51) × (n ≢ 53) × (n ≢ 64) × (n ≢ 66))
letter_cases n = elim (ℕ_discrete n 49) [
  | yes e ↦ inl (inl e)
  | no a ↦ elim (ℕ_discrete n 51) [
    | yes e ↦ inl (inr (inl e))
    | no c ↦ elim (ℕ_discrete n 53) [
      | yes e ↦ inl (inr (inr (inl e)))
      | no e' ↦ elim (ℕ_discrete n 64) [
        | yes e ↦ inl (inr (inr (inr (inl e))))
        | no p ↦ elim (ℕ_discrete n 66) [
          | yes e ↦ inl (inr (inr (inr (inr e))))
          | no r ↦ inr (a, c, e', p, r)
        ]
      ]
    ]
  ]
]

select-user :
    (n : ℕ) (s : Shell)
    → 2 < n
    → IsTaken n ⊎ ((i : Input) → select i (b'0' + n) s ≡ user_case i (b'0' + n) s)
unfolding select
select-user n s h = elim (letter_cases n) [
  | inl taken ↦ inl taken
  | inr free ↦ inr (λ i. ground (arith, free.0, free.1, free.2, free.3, free.4))
]

plus_zero : (k : ℕ) → k + 0 ≡ k
plus_zero k = omega arith

zero_plus : (j : ℕ) → 0 + j ≡ j
zero_plus j = omega arith

plus_suc : (k j : ℕ) → k + suc j ≡ suc k + j
plus_suc k j = omega arith

-- The entries of `user_commands` are those of the storage, from index `k` on.
user_commands-Offers :
    (s : Shell) (k n : ℕ) (cs : List Command)
    → IsNumbered s
    → k + n ≤ s.addedcommands
    → ((j : ℕ) (c : Command) → get_elem? cs j ≡ some c → get_elem? s.commands (k + j) ≡ some c)
    → All (Offers s) (added_entries (user_commands n cs))
unfolding user_commands
user_commands-Offers s k zero cs num h held = tt
user_commands-Offers s k (suc n) [] num h held = tt
user_commands-Offers s k (suc n) (c ∷ cs) num h held =
    let below : k < s.addedcommands = omega arith in
    let at : get_elem? s.commands k ≡ some c = rw (← plus_zero k) (held 0 c refl) in
    (
      (
        3 + k,
        c,
        num.used k c below at,
        refl,
        find_command-number s k c num below at,
        select-user (3 + k) s (omega arith),
      ),
      user_commands-Offers s (suc k) n cs num (omega arith)
          (λ j d e. rw (← plus_suc k j) (held (suc j) d e)),
    )

-- Adding a command is never the message about a choice that is not valid.
add_case-valid : (i : Input) (s : Shell) → add_case i s ≢ round true s (invalid_input ∷ [])
unfolding add_case
add_case-valid i s e = elim (Option-cases (strtok space (chomp i.line₁))) [
  | inl f ↦ (let r : add_case i s ≡ crash = rw (f, add_case) refl in cc)
  | inr ((first, rest), f) ↦ elim (Option-cases (strtok space rest)) [
    | inl g ↦ (let r : add_case i s ≡ crash = rw (f, add_case) (rw (g, add_case) refl) in cc)
    | inr ((second, rest'), g) ↦
        elim (Option-cases (add_command first second (chomp i.line₁) i.stale s)) [
          | inl h ↦
              (let r : add_case i s ≡ crash =
                  rw (f, add_case) (rw (g, add_case) (rw (h, add_case) refl)) in
                cc)
          | inr (s', h) ↦
              (let r : add_case i s ≡ round true s' (added_with_id (3 + s.addedcommands) ∷ []) =
                  rw (f, add_case) (rw (g, add_case) (rw (h, add_case) refl)) in
                cc)
        ]
  ]
]

first_options-Offers : (s : Shell) → All (Offers s) first_options
unfolding select
first_options-Offers s = ((λ i e. cc), ((λ i e. cc), ((λ i e. cc), tt)))

last_options-Offers : (s : Shell) → All (Offers s) last_options
unfolding select
last_options-Offers s =
    ((λ i. add_case-valid i s), ((λ i e. cc), ((λ i e. cc), ((λ i e. cc), ((λ i e. cc), tt)))))

-- Where the commands are numbered in order, each character that the menu shows chooses something, and
-- each number that it shows is that of a command with the name shown, which the character of the number
-- chooses unless that character is one of the menu's own.
pub menu_version2-Offers : (s : Shell) → IsNumbered s → All (Offers s) (menu_version2 s)
unfolding menu_version2
menu_version2-Offers s num = All-append (Offers s) first_options _ (first_options-Offers s) (
    All-append (Offers s) (added_entries (user_commands s.addedcommands s.commands)) last_options
      (user_commands-Offers s 0 s.addedcommands s.commands num (omega arith)
        (λ j c e. rw (zero_plus j) e))
      (last_options-Offers s))
