-- ===== src/Kernel/ProcAncestry.antt =====
-- project2/part2/procAncestry/procAncestry.c: the program that makes the system call of kernsysinfo.c
-- and prints the answer.
use cs3013_operating_systems.Prelude.{
  ℕ, zero, suc, ◌+◌, ◌-◌, ◌%◌, ◌<◌, ◌≤◌, ◌≡◌, ◌≢◌, refl, Option, none, some, List, [], ◌∷◌,
  if◌then◌else◌, ◌==◌, ltb, length, replicate, All, true, false, arith, ℤ, pos, negsuc,
}
use cs3013_operating_systems.Memory.Text.{atoi}
use cs3013_operating_systems.Kernel.Ancestry.{
  Ancestry, Processes, Copies, all_copied, parents, with_pids, new_cs3013_syscall2,
  new_cs3013_syscall2-with_pids,
}

-- A loop that prints an array up to a zero. `overrun`: it reads behind the array. `too_many`: it
-- stops with its message.
pub data Listing : Type 0 where
  listed : List ℕ → Listing
  too_many overrun : Listing

-- `while (array[i] != 0) { printf(…); i++; if (i > limit) … }`
unfoldable pub display : (limit i : ℕ) → List ℕ → Listing
display limit i [] = overrun
display limit i (pid ∷ array) =
    let rest = display limit (i + 1) array in
    if pid == 0
    then listed []
    else if ltb limit (i + 1)
    then too_many
    else elim rest [ listed pids ↦ listed (pid ∷ pids) | too_many ↦ too_many | overrun ↦ overrun ]

-- What the program prints and how it ends.
pub data Report : Type 0 where
  not_enough_input failed out_of_bounds : Report
  report : (returned process : ℕ) (children siblings ancestors : List ℕ) → Report

-- One of the three lists, and the rest of the program.
unfoldable pub section_of : Listing → (List ℕ → Report) → Report
section_of (listed pids) next = next pids
section_of too_many next = failed
section_of overrun next = out_of_bounds

-- The conversion to `unsigned short`.
abbrev pub to_ushort : ℤ → ℕ
to_ushort (pos a) = a % 65536
to_ushort (negsuc a) = 65535 - a % 65536

-- `main`, with the argument and what `malloc` hands out.
unfoldable pub main : Copies → Processes → Option (List ℕ) → Ancestry → Report
unfolding display section_of
main c p none response = not_enough_input
main c p (some argument) response =
    let val = to_ushort (atoi argument) in
    let (returned, answer) = new_cs3013_syscall2 c p val response in
    let response' : Ancestry = elim answer [ none ↦ response | some written ↦ written ] in
    section_of (display 100 0 response'.children) λ children.
      section_of (display 100 0 response'.siblings) λ siblings.
        section_of (display 10 0 response'.ancestors)
          λ ancestors. report returned val children siblings ancestors

display-with_pids :
    (limit : ℕ) (pids : List ℕ) (n i : ℕ)
    → length pids < n
    → i + length pids ≤ limit
    → All (λ pid. pid ≢ 0) pids
    → display limit i (with_pids pids (replicate n 0)) ≡ listed pids
unfolding display
display-with_pids limit [] zero i short few positive = absurd (omega (arith, short))
display-with_pids limit [] (suc n) i short few positive = refl
display-with_pids limit (pid ∷ pids) zero i short few positive = absurd (omega (arith, short))
display-with_pids limit (pid ∷ pids) (suc n) i short few (other, positive) =
    let rest =
      display-with_pids limit pids n (i + 1) (omega (arith, short)) (omega (arith, few)) positive in
    let running : (pid == 0) ≡ false = ground (arith, other) in
    let fits : ltb limit (i + 1) ≡ false = ground (arith, few) in
    rw running (rw fits (rw rest refl))

-- The memory that the program hands to the system call, where it is all zero.
abbrev pub zeroed : Ancestry
zeroed = record {
  ancestors = replicate 10 0;
  siblings = replicate 100 0;
  children = replicate 100 0;
}

-- Where the memory that malloc hands out is zero, the copies succeed, the process runs and is not the
-- first one, it has fewer than 100 children, fewer than 100 siblings and fewer than ten ancestors, and
-- no pid among them is zero, the program prints the return value 0 and exactly those three lists.
pub main-report :
    (p : Processes) (argument : List ℕ) (target : ℕ)
    → to_ushort (atoi argument) ≡ target
    → p.is_running target ≡ true
    → target ≢ 1
    → length (p.children target) < 100
    → length (p.children (p.parent target)) < 100
    → length (parents 10 p.parent target) < 10
    → All (λ pid. pid ≢ 0) (p.children target)
    → All (λ pid. pid ≢ 0) (p.children (p.parent target))
    → All (λ pid. pid ≢ 0) (parents 10 p.parent target)
    → main all_copied p (some argument) zeroed
      ≡ report 0 target
          (p.children target)
          (p.children (p.parent target))
          (parents 10 p.parent target)
unfolding main section_of
main-report p argument target e runs other few_children few_siblings few_ancestors children siblings
      ancestors =
    rw
      (
        e,
        new_cs3013_syscall2-with_pids p target zeroed runs other few_children few_siblings
            few_ancestors refl refl refl,
        display-with_pids 100 (p.children target) 100 0 few_children (omega (arith, few_children))
            children,
        display-with_pids 100 (p.children (p.parent target)) 100 0 few_siblings
            (omega (arith, few_siblings)) siblings,
        display-with_pids 10 (parents 10 p.parent target) 10 0 few_ancestors
            (omega (arith, few_ancestors)) ancestors,
      )
      refl

-- A listing of an array with no more entries than its bound never reaches the message about too many
-- values: before the test could hold, the loop has read behind the array.
pub display-ne-too_many :
    (limit i : ℕ) (array : List ℕ) → i + length array ≤ limit → display limit i array ≢ too_many
unfolding display
display-ne-too_many limit i [] h e = cc
display-ne-too_many limit i (pid ∷ array) h e =
    let rest : display limit (i + 1) array ≢ too_many =
      display-ne-too_many limit (i + 1) array (omega (arith, h)) in
    ground (arith, e, rest, h)
