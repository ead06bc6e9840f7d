-- ===== src/Kernel/Ancestry.antt =====
-- `new_cs3013_syscall2` of project2/part2/kernMod/kernsysinfo.c: the children, siblings and ancestors
-- of a process. The kernel's process tree and its copies from and to the user are parameters.
use mathlib.Core.List.{append_assoc}
use cs3013_operating_systems.Prelude.{
  ℕ, zero, suc, ◌+◌, ◌<◌, ◌≤◌, ◌≡◌, ◌≢◌, refl, Bool, true, false, Option, none, some, List, [], ◌∷◌,
  ◌++◌, if◌then◌else◌, ◌==◌, length, set, drop, arith, ap, length-append, ℕ_discrete,
}

-- `struct ancestry`, with 10, 100 and 100 entries
pub record Ancestry : Type 0 where
  pub ancestors : List ℕ
  pub siblings : List ℕ
  pub children : List ℕ

-- What the kernel knows of a process by its pid, and whether the three copies succeed.
pub record Processes : Type 0 where
  pub is_running : ℕ → Bool
  pub children : ℕ → List ℕ
  pub parent : ℕ → ℕ

pub record Copies : Type 0 where
  pub target_copied : Bool
  pub response_copied : Bool
  pub answer_copied : Bool

abbrev pub all_copied : Copies
all_copied = record { target_copied = true; response_copied = true; answer_copied = true }

abbrev pub efault : ℕ
efault = 14

-- `array[i++] = pid; if (i == limit) return 1;` for each pid: `none` is that return.
unfoldable pub fill : (limit : ℕ) → List ℕ → (i : ℕ) → List ℕ → Option (List ℕ)
fill limit [] i array = some array
fill limit (pid ∷ pids) i array =
    let rest = fill limit pids (i + 1) (set array i pid) in if i + 1 == limit then none else rest

-- The loop up to the process with pid 1, which fills at most ten entries: the pids that it meets. With
-- fewer than ten steps left it ends by itself or has filled the array.
unfoldable pub parents : (steps : ℕ) → (ℕ → ℕ) → ℕ → List ℕ
parents zero parent pid = []
parents (suc k) parent pid =
    let rest = parents k parent (parent pid) in if pid == 1 then [] else parent pid ∷ rest

-- The return value, and the answer where it is written to the user.
unfoldable pub new_cs3013_syscall2 : Copies → Processes → ℕ → Ancestry → ℕ × Option Ancestry
unfolding fill parents
new_cs3013_syscall2 c p target response =
    if c.target_copied
    then if c.response_copied
      then if p.is_running target
        then elim (fill 100 (p.children target) 0 response.children) [
          | none ↦ (1, none)
          | some children ↦
              if target == 1
              then if c.answer_copied
                then (0, some (record response { children = children }))
                else (efault, none)
              else elim (fill 100 (p.children (p.parent target)) 0 response.siblings) [
                | none ↦ (1, none)
                | some siblings ↦ elim (fill 10 (parents 10 p.parent target) 0 response.ancestors) [
                  | none ↦ (1, none)
                  | some ancestors ↦
                      if c.answer_copied
                      then (
                        0,
                        some (record {
                          ancestors = ancestors;
                          siblings = siblings;
                          children = children;
                        }),
                      )
                      else (efault, none)
                ]
              ]
        ]
        else (1, none)
      else (efault, none)
    else (efault, none)

-- An array with the pids at its start.
abbrev pub with_pids : List ℕ → List ℕ → List ℕ
with_pids pids array = pids ++ drop (length pids) array

set-append :
    (before : List ℕ) (a b : ℕ) (array : List ℕ)
    → set (before ++ (a ∷ array)) (length before) b ≡ before ++ (b ∷ array)
set-append [] a b array = refl
set-append (x ∷ before) a b array = ap (λ xs. x ∷ xs) (set-append before a b array)

fill-with_pids :
    (limit : ℕ) (before pids array : List ℕ)
    → length before + length pids < limit
    → length pids ≤ length array
    → fill limit pids (length before) (before ++ array) ≡ some (before ++ with_pids pids array)
unfolding fill
fill-with_pids limit before [] array h l = refl
fill-with_pids limit before (pid ∷ pids) [] h l = absurd (omega arith)
fill-with_pids limit before (pid ∷ pids) (a ∷ array) h l =
    let one_more : length (before ++ (pid ∷ [])) ≡ length before + 1 =
      length-append before (pid ∷ []) in
    let rest =
      fill-with_pids limit (before ++ (pid ∷ [])) pids array (omega (arith, one_more))
        (omega arith) in
    let fits : (length before + 1 == limit) ≡ false = ground (arith, h) in
    rw (set-append before a pid array, fits) (rw (one_more, append_assoc, append_assoc) at rest)

fill-none :
    (limit : ℕ) (pids array : List ℕ) (i : ℕ)
    → i < limit
    → limit ≤ i + length pids
    → fill limit pids i array ≡ none
unfolding fill
fill-none limit [] array i h l = absurd (omega arith)
fill-none limit (pid ∷ pids) array i h l = elim (ℕ_discrete (i + 1) limit) [
  | yes e ↦ ground arith
  | no ne ↦
      (let rest =
          fill-none limit pids (set array i pid) (i + 1) (omega (arith, ne)) (omega arith) in
        ground arith)
]

-- Where the copies succeed, the process runs and is not the first one, and it has fewer than 100
-- children, fewer than 100 siblings and fewer than ten ancestors, the call returns 0, and the answer has
-- the pids of each at the start of its array and what the user's structure held behind them.
pub new_cs3013_syscall2-with_pids :
    (p : Processes) (target : ℕ) (response : Ancestry)
    → p.is_running target ≡ true
    → target ≢ 1
    → length (p.children target) < 100
    → length (p.children (p.parent target)) < 100
    → length (parents 10 p.parent target) < 10
    → length response.children ≡ 100
    → length response.siblings ≡ 100
    → length response.ancestors ≡ 10
    → new_cs3013_syscall2 all_copied p target response ≡ (
      0,
      some (record {
        ancestors = with_pids (parents 10 p.parent target) response.ancestors;
        siblings = with_pids (p.children (p.parent target)) response.siblings;
        children = with_pids (p.children target) response.children;
      }),
    )
unfolding new_cs3013_syscall2
new_cs3013_syscall2-with_pids p target response runs other few_children few_siblings few_ancestors
      lc ls la =
    let not_first : (target == 1) ≡ false = ground (arith, other) in
    rw (
      runs,
      fill-with_pids 100 [] (p.children target) response.children (omega arith) (omega arith),
      fill-with_pids 100 [] (p.children (p.parent target)) response.siblings (omega arith)
          (omega arith),
      fill-with_pids 10 [] (parents 10 p.parent target) response.ancestors (omega arith)
          (omega arith),
      not_first,
    )

-- A process that runs and has 100 children or more gets the return value 1 and no answer, where the
-- copies succeed.
pub new_cs3013_syscall2-children :
    (p : Processes) (target : ℕ) (response : Ancestry)
    → p.is_running target ≡ true
    → 100 ≤ length (p.children target)
    → new_cs3013_syscall2 all_copied p target response ≡ (1, none)
unfolding new_cs3013_syscall2
new_cs3013_syscall2-children p target response runs many =
    rw (runs, fill-none 100 (p.children target) response.children 0 (omega arith) (omega arith))
