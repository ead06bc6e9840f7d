-- ===== src/Memory/Console/Sound.antt =====
-- The machine's soundness through `main` of project4/memory.c.
use cs3013_operating_systems.Prelude.{
  ℕ, zero, suc, ◌+◌, ◌<◌, refl, inl, inr, Bool-cases, Option-cases, arith, Option, none, some, List,
  ◌==◌, ltb, length, All-replicate,
}
use cs3013_operating_systems.Memory.State.{
  Machine, Cmd, pure, ◌>>=◌, ◌>>◌, fault, init, max_mem, num_pages,
}
use cs3013_operating_systems.Memory.Sound.{
  IsFlag, IsSound, Ends, returns, faults, Any, bind, branch,
}
use cs3013_operating_systems.Memory.Swap.Lines.{IsByte}
use cs3013_operating_systems.Memory.Swap.Sound.{to_uchar-IsByte}
use cs3013_operating_systems.Memory.Text.{fgets, strtok, atoi, c_string}
use cs3013_operating_systems.Memory.Text.Shrink.{length-fgets-lt}
use cs3013_operating_systems.Memory.Commands.MapSound.{map-IsSound}
use cs3013_operating_systems.Memory.Commands.Sound.{store-IsSound, load-IsSound}
use cs3013_operating_systems.Memory.Console.{
  Instruction, comma, parse, choose, validate, dispatch, execute, is_short, console_loop,
  instructions, main,
}

-- No line, or one whose value fits a byte.
data Bytes : Option Instruction → Type 0 where
  null_token : Bytes none
  instruction : {i : Instruction} → IsByte i.val → Bytes (some i)

parse-Bytes : (str : List ℕ) → Bytes (parse str)
unfolding parse
parse-Bytes str = elim (Option-cases (strtok comma str)) [
  | inl e ↦ rw (e, parse) null_token
  | inr ((p, s₁), e) ↦
      rw (e, parse)
        (elim (Option-cases (strtok comma s₁)) [
          | inl e₁ ↦ rw e₁ null_token
          | inr ((c, s₂), e₁) ↦ rw e₁ (elim (Option-cases (strtok comma s₂)) [
            | inl e₂ ↦ rw e₂ null_token
            | inr ((v, s₃), e₂) ↦ rw e₂ (elim (Option-cases (strtok comma s₃)) [
              | inl e₃ ↦ rw e₃ null_token
              | inr ((w, s₄), e₃) ↦ rw e₃ (instruction (to_uchar-IsByte (atoi w)))
            ])
          ])
        ])
]

validate-IsSound :
    {m : Machine} (i : Instruction) (choice : ℕ)
    → IsSound m
    → Ends IsSound Any (validate i choice m)
unfolding validate
validate-IsSound i choice (r, h) =
    bind {P = IsSound} {Q = Any}
      (branch (ltb 3 i.pid) _ _ (returns (r, search h) tt) (returns (r, h) tt))
      λ choice' m₁ (r₁, h₁) _.
        branch (ltb 63 i.vaddr) _ _ (returns (r₁, search h₁) tt) (returns (r₁, h₁) tt)

dispatch-IsSound :
    {m : Machine} (i : Instruction) (choice : ℕ)
    → IsByte i.val
    → IsSound m
    → Ends IsSound Any (dispatch i choice m)
unfolding dispatch
dispatch-IsSound i choice byte (r, h) =
    branch (choice == 0) _ _
      (bind (map-IsSound i.pid i.vaddr i.val byte (r, h)) λ a m₁ h₁ _. returns h₁ tt)
      (branch (choice == 1) _ _
        (bind (store-IsSound i.pid i.vaddr i.val byte (r, h)) λ a m₁ h₁ _. returns h₁ tt)
        (branch (choice == 2) _ _
          (bind (load-IsSound i.pid i.vaddr i.val byte (r, h)) λ a m₁ h₁ _. returns h₁ tt)
          (branch (choice == 3) _ _ (returns (r, h) tt) (returns (r, search h) tt))))

execute-IsSound :
    {m : Machine} (choice : ℕ) (str : List ℕ) → IsSound m → Ends IsSound Any (execute choice str m)
unfolding execute
execute-IsSound choice str h = instructions (parse str) (parse-Bytes str) h
  where
    instructions :
        (read : Option Instruction) {m : Machine}
        → Bytes read
        → IsSound m
        → Ends IsSound Any (
            (let c : Cmd ℕ = elim read [
              | none ↦ λ _. fault
              | some i ↦ do
                choice' ← validate i (choose i.letter choice)
                dispatch i choice'
                pure choice'
            ] in
                c)
              m)
    instructions none null_token h' = faults
    instructions (some i) (instruction byte) h' =
        bind (validate-IsSound i (choose i.letter choice) h')
          λ choice' m₁ h₁ _. bind (dispatch-IsSound i choice' byte h₁) λ u m₂ h₂ _. returns h₂ tt

-- A round for each character is enough.
console_loop-IsSound :
    {m : Machine} (k choice : ℕ) (stdin : List ℕ)
    → length stdin < k
    → IsSound m
    → Ends IsSound Any (console_loop k choice stdin m)
unfolding console_loop
console_loop-IsSound zero choice stdin enough h = absurd (omega (arith, enough))
console_loop-IsSound {m} (suc k) choice stdin enough h = elim (Option-cases (fgets 19 stdin)) [
  | inl e ↦ rw (e, console_loop) (returns h tt)
  | inr ((line, rest), e) ↦
      (let fewer : length rest < k = omega (arith, enough, length-fgets-lt 18 stdin line rest e) in
        rw (e, console_loop)
          (elim (Bool-cases (is_short (c_string line))) [
            | inl short ↦ rw (short, console_loop) (console_loop-IsSound k choice rest fewer h)
            | inr long ↦
                rw (long, console_loop)
                  (bind (execute-IsSound choice (c_string line) h)
                    λ choice' m₁ h₁ _. console_loop-IsSound k choice' rest fewer h₁)
          ]))
]

pub init-IsSound : IsSound init
init-IsSound = (
  0,
  record {
    counter = refl;
    low = omega arith;
    mem = refl;
    bytes = All-replicate IsByte max_mem 0 (omega arith);
    freelist = refl;
    free_flags = All-replicate IsFlag num_pages 1 (omega arith);
    pages = refl;
    ispagetable = refl;
    table_flags = All-replicate IsFlag num_pages 0 (omega arith);
    hardware = refl;
  },
)

-- On any input, `main` from its initial globals ends with a machine that is sound, unless an access
-- is out of range or a scan for a page that is not there hangs. It never runs out of fuel.
pub main-IsSound : (stdin : List ℕ) → Ends IsSound Any (main stdin init)
unfolding main instructions
main-IsSound stdin = console_loop-IsSound (length stdin + 1) 255 stdin (omega arith) init-IsSound
