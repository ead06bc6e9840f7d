-- ===== src/Memory/Commands/Sound.antt =====
-- The machine's soundness through `store`, `load` and `command` of project4/memory.c.
use cs3013_operating_systems.Prelude.{
  ℕ, zero, suc, arith, ℤ, pos, negsuc, offset, is_neg, is_positive, ◌==◌, ltb,
}
use cs3013_operating_systems.Memory.State.{
  Machine, Place, in_memory, on_disk, unset, Cmd, pure, ◌>>◌, print, protection_offset,
  valpres_offset, writeable, segfault,
}
use cs3013_operating_systems.Memory.Sound.{
  At, IsSound, Ends, returns, Any, bind, branch, sound, read_mem-At, fetch-At, write_mem-At,
}
use cs3013_operating_systems.Memory.Swap.Lines.{IsByte}
use cs3013_operating_systems.Memory.Frames.Sound.{count_free-At}
use cs3013_operating_systems.Memory.Paging.Sound.{
  find_pte-At, convert-At, load_page_table-At, load_page-At,
}
use cs3013_operating_systems.Memory.Evict.Sound.{free_space-IsSound}
use cs3013_operating_systems.Memory.Commands.{
  Op, store_op, load_op, store_at, show_value, fetch_table, command, store_entry, store,
  load_swapped, load_entry, load,
}

store_at-At :
    {r : ℕ} {m : Machine} (paddr : ℤ) (val : ℕ)
    → IsByte val
    → At r m
    → Ends (At r) Any (store_at paddr val m)
unfolding store_at
store_at-At paddr val byte h =
    bind (write_mem-At h paddr val byte) λ u m₁ h₁ _. returns (search h₁) tt

show_value-At :
    {r : ℕ} {m : Machine} (vaddr : ℕ) (paddr : ℤ)
    → At r m
    → Ends (At r) Any (show_value vaddr paddr m)
unfolding show_value
show_value-At vaddr paddr h = bind (read_mem-At h paddr) λ v m₁ h₁ _. returns (search h₁) tt

store_entry-At :
    {r : ℕ} {m : Machine} (pid vaddr val : ℕ) (pte : ℤ)
    → IsByte val
    → At r m
    → Ends (At r) Any (store_entry pid vaddr val pte m)
unfolding store_entry
store_entry-At pid vaddr val pte byte h = bind (convert-At vaddr pid h) λ paddr m₁ h₁ _.
    branch (is_neg paddr) _ _ (returns (search h₁) tt) (
      bind (read_mem-At h₁ (offset pte protection_offset)) λ protection m₂ h₂ _.
        branch (protection == writeable) _ _
          (bind (store_at-At paddr val byte h₂) λ u m₃ h₃ _. returns h₃ tt)
          (returns (search h₂) tt))

fetch_table-IsSound :
    {m : Machine} (pid vaddr : ℕ) → IsSound m → Ends IsSound Any (fetch_table pid vaddr m)
unfolding fetch_table
fetch_table-IsSound pid vaddr (r, h) = bind (count_free-At h) λ space m₁ h₁ _.
    bind
      (branch (ltb space 1) _ _ (free_space-IsSound 1 (pos pid) (omega arith) (r, h₁))
        (returns (r, h₁) tt))
      λ u m₂ (r₂, h₂) _. bind (load_page_table-At pid h₂) λ table m₃ h₃ _.
        bind (find_pte-At (pos pid) vaddr h₃) λ pte m₄ h₄ _.
          bind (read_mem-At h₄ (offset pte valpres_offset)) λ valpres m₅ h₅ _.
            branch (valpres == 1) _ _
              (bind
                (branch (ltb space 2) _ _ (free_space-IsSound 1 (pos pid) (omega arith) (r₂, h₅))
                  (returns (r₂, h₅) tt))
                λ u m₆ (r₆, h₆) _.
                  bind (load_page-At pid vaddr h₆) λ page m₇ h₇ _. returns (r₆, h₇) tt)
              (returns (r₂, h₅) tt)

table_case-IsSound :
    {m : Machine} (p : Place) (pid vaddr : ℕ)
    → IsSound m
    → Ends IsSound Any
        ((let c : Cmd (Unit {0}) = elim p [ on_disk ↦ fetch_table pid vaddr | _ ↦ pure tt ] in c) m)
table_case-IsSound on_disk pid vaddr h = fetch_table-IsSound pid vaddr h
table_case-IsSound in_memory pid vaddr h = returns h tt
table_case-IsSound unset pid vaddr h = returns h tt

pub command-IsSound :
    {m : Machine} (op : Op) (pid vaddr val : ℕ)
    → IsByte val
    → IsSound m
    → Ends IsSound Any (command op pid vaddr val m)
unfolding command
command-IsSound store_op pid vaddr val byte (r, h) =
    bind (fetch-At h (λ m. m.hardware) (pos pid)) λ hp m₁ h₁ _.
      bind (table_case-IsSound hp.inmem pid vaddr (r, h₁)) λ u m₂ (r₂, h₂) _.
        bind (find_pte-At (pos pid) vaddr h₂) λ pte m₃ h₃ _.
          bind (read_mem-At h₃ (offset pte protection_offset)) λ protection m₄ h₄ _.
            branch (protection == writeable) _ _
              (bind (convert-At vaddr pid h₄)
                λ paddr m₅ h₅ _. sound (store_at-At paddr val byte h₅))
              (returns (r₂, search h₄) tt)
command-IsSound load_op pid vaddr val byte (r, h) =
    bind (fetch-At h (λ m. m.hardware) (pos pid)) λ hp m₁ h₁ _.
      bind (table_case-IsSound hp.inmem pid vaddr (r, h₁)) λ u m₂ (r₂, h₂) _.
        bind (convert-At vaddr pid h₂) λ paddr m₃ h₃ _.
          branch (is_positive paddr) _ _ (sound (show_value-At vaddr paddr h₃))
            (returns (r₂, h₃) tt)

pub store-IsSound :
    {m : Machine} (pid vaddr val : ℕ)
    → IsByte val
    → IsSound m
    → Ends IsSound Any (store pid vaddr val m)
unfolding store
store-IsSound pid vaddr val byte (r, h) =
    bind (find_pte-At (pos pid) vaddr h) λ pte m₁ h₁ _. place pte (r, h₁)
  where
    place :
        (pte : ℤ) {m : Machine}
        → IsSound m
        → Ends IsSound Any (
            (let c : Cmd ℕ = elim pte [
              | pos a ↦ store_entry pid vaddr val (pos a)
              | negsuc zero ↦ do command store_op pid vaddr val; pure 1
              | negsuc (suc zero) ↦ do print (segfault vaddr); pure 0
              | _ ↦ pure 0
            ] in
                c)
              m)
    place (pos a) (r', h') = sound (store_entry-At pid vaddr val (pos a) byte h')
    place (negsuc zero) h' =
        bind (command-IsSound store_op pid vaddr val byte h') λ u m₁ h₁ _. returns h₁ tt
    place (negsuc (suc zero)) (r', h') = returns (r', search h') tt
    place (negsuc (suc (suc n))) h' = returns h' tt

load_swapped-At :
    {m : Machine} (pid vaddr : ℕ) → IsSound m → Ends IsSound Any (load_swapped pid vaddr m)
unfolding load_swapped
load_swapped-At pid vaddr (r, h) = bind (count_free-At h) λ space m₁ h₁ _.
    bind {P = IsSound} {Q = Any}
      (branch (ltb 0 space) _ _
        (bind (load_page-At pid vaddr h₁) λ page m₂ h₂ _. returns (r, h₂) tt)
        (bind (free_space-IsSound 1 (pos pid) (omega arith) (r, h₁))
          λ u m₂ (r₂, h₂) _. bind (load_page-At pid vaddr h₂) λ page m₃ h₃ _. returns (r₂, h₃) tt))
      λ u m₄ (r₄, h₄) _. bind (convert-At vaddr pid h₄) λ paddr m₅ h₅ _.
        branch (is_positive paddr) _ _
          (bind (show_value-At vaddr paddr h₅) λ u m₆ h₆ _. returns (r₄, h₆) tt)
          (returns (r₄, h₅) tt)

load_entry-IsSound :
    {m : Machine} (pid vaddr : ℕ) (pte : ℤ)
    → IsSound m
    → Ends IsSound Any (load_entry pid vaddr pte m)
unfolding load_entry
load_entry-IsSound pid vaddr pte (r, h) =
    bind (read_mem-At h (offset pte valpres_offset)) λ valpres m₁ h₁ _.
      branch (valpres == 1) _ _ (load_swapped-At pid vaddr (r, h₁)) (
        bind (convert-At vaddr pid h₁) λ paddr m₂ h₂ _. bind (read_mem-At h₂ paddr) λ v m₃ h₃ _.
          branch (valpres == 2) _ _ (returns (r, search h₃) tt) (returns (r, search h₃) tt))

pub load-IsSound :
    {m : Machine} (pid vaddr val : ℕ)
    → IsByte val
    → IsSound m
    → Ends IsSound Any (load pid vaddr val m)
unfolding load
load-IsSound pid vaddr val byte (r, h) =
    bind (find_pte-At (pos pid) vaddr h) λ pte m₁ h₁ _. place pte (r, h₁)
  where
    place :
        (pte : ℤ) {m : Machine}
        → IsSound m
        → Ends IsSound Any (
            (let c : Cmd ℕ = elim pte [
              | pos a ↦ load_entry pid vaddr (pos a)
              | negsuc zero ↦ do command load_op pid vaddr val; pure 1
              | negsuc (suc zero) ↦ do print (segfault vaddr); pure 0
              | _ ↦ pure 0
            ] in
                c)
              m)
    place (pos a) h' = load_entry-IsSound pid vaddr (pos a) h'
    place (negsuc zero) h' =
        bind (command-IsSound load_op pid vaddr val byte h') λ u m₁ h₁ _. returns h₁ tt
    place (negsuc (suc zero)) (r', h') = returns (r', search h') tt
    place (negsuc (suc (suc n))) h' = returns h' tt
