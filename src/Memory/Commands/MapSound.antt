-- ===== src/Memory/Commands/MapSound.antt =====
-- The machine's soundness through `map` of project4/memory.c.
use cs3013_operating_systems.Prelude.{
  ℕ, zero, suc, ◌+◌, ◌≤◌, arith, ℤ, pos, negsuc, offset, is_neg, to_uchar, ◌==◌,
}
use cs3013_operating_systems.Memory.State.{
  Machine, in_memory, Cmd, pure, protection_offset, valpres_offset, num_pages, table_created,
  table_at, already_has, altered, page_allocated,
}
use cs3013_operating_systems.Memory.Sound.{
  At, IsSound, Ends, returns, Any, bind, weaken, branch, sound, read_mem-At, printed-At,
  write_mem-At, write_pages-At, write_ispagetable-At, write_hardware-At,
}
use cs3013_operating_systems.Memory.Swap.Lines.{IsByte}
use cs3013_operating_systems.Memory.Swap.Sound.{to_uchar-IsByte}
use cs3013_operating_systems.Memory.Frames.{frame_of}
use cs3013_operating_systems.Memory.Frames.Sound.{find_free-At}
use cs3013_operating_systems.Memory.Paging.Sound.{find_pte-At, load_page_table-At}
use cs3013_operating_systems.Memory.Evict.Sound.{free_space-IsSound}
use cs3013_operating_systems.Memory.Commands.{
  number_entries, create_table, reload_table, take_frame, map_entry, map,
}

number_entries-At :
    {r : ℕ} {m : Machine} (n : ℕ) (address : ℤ) (i : ℕ)
    → n + i ≤ 256
    → At r m
    → Ends (At r) Any (number_entries n address i m)
unfolding number_entries
number_entries-At zero address i few h = returns h tt
number_entries-At (suc n) address i few h =
    bind (write_mem-At h _ i (omega (arith, few))) λ u m₁ h₁ _.
      bind (write_mem-At h₁ _ 0 (omega arith))
        λ u m₂ h₂ _. number_entries-At n address (i + 1) (omega (arith, few)) h₂

create_table-IsSound : {m : Machine} (pid : ℕ) → IsSound m → Ends IsSound Any (create_table pid m)
unfolding create_table
create_table-IsSound pid h =
    bind (free_space-IsSound 2 (pos pid) (omega arith) h) λ u m₁ (r₁, h₁) _.
      bind (find_free-At h₁) λ free m₂ h₂ _.
        let h₃ = printed-At h₂ (table_created pid free) in
        bind (write_hardware-At h₃ (pos pid) (record { address = free; inmem = in_memory }))
          λ u m₄ h₄ _. bind (write_pages-At h₄ (frame_of free) (pos pid)) λ u m₅ h₅ _.
            bind (write_ispagetable-At h₅ (frame_of free) 1 (omega arith))
              λ u m₆ h₆ _. sound (number_entries-At num_pages free 0 (omega arith) h₆)

reload_table-IsSound : {m : Machine} (pid : ℕ) → IsSound m → Ends IsSound Any (reload_table pid m)
unfolding reload_table
reload_table-IsSound pid h =
    bind (free_space-IsSound 1 (pos pid) (omega arith) h) λ u m₁ (r₁, h₁) _.
      bind (load_page_table-At pid h₁) λ pt m₂ h₂ _.
        bind (write_pages-At h₂ (frame_of pt) (pos pid)) λ u m₃ h₃ _.
          bind (write_ispagetable-At h₃ (frame_of pt) 1 (omega arith))
            λ u m₄ h₄ _. returns (r₁, printed-At h₄ (table_at pid pt)) tt

take_frame-IsSound : {m : Machine} (pid : ℕ) → IsSound m → Ends IsSound Any (take_frame pid m)
unfolding take_frame
take_frame-IsSound pid (r, h) = bind (find_free-At h) λ ppage m₁ h₁ _.
    branch (is_neg ppage) _ _
      (bind (free_space-IsSound 1 (pos pid) (omega arith) (r, h₁))
        λ u m₂ (r₂, h₂) _. sound (weaken (find_free-At h₂)))
      (returns (r, h₁) tt)

map_entry-IsSound :
    {m : Machine} (pid val : ℕ) (pte : ℤ)
    → IsByte val
    → IsSound m
    → Ends IsSound Any (map_entry pid val pte m)
unfolding map_entry
map_entry-IsSound pid val pte byte (r, h) =
    bind (read_mem-At h (offset pte valpres_offset)) λ valpres m₁ h₁ _.
      branch (valpres == 2) _ _
        (bind (read_mem-At h₁ (offset pte protection_offset)) λ protection m₂ h₂ _.
          bind
            (branch (protection == val) _ _ (returns (printed-At h₂ (already_has val)) tt)
              (write_mem-At (printed-At h₂ altered) (offset pte protection_offset) val byte))
            λ u m₄ h₄ _. returns (r, h₄) tt)
        (bind (take_frame-IsSound pid (r, h₁)) λ ppage m₂ (r₂, h₂) _.
          bind (write_pages-At h₂ (frame_of ppage) (pos pid)) λ u m₃ h₃ _.
            bind (read_mem-At h₃ pte) λ vpn m₄ h₄ _.
              let h₅ = printed-At h₄ (page_allocated vpn ppage) in
              bind (write_mem-At h₅ _ (to_uchar ppage) (to_uchar-IsByte ppage)) λ u m₆ h₆ _.
                bind (write_mem-At h₆ _ val byte) λ u m₇ h₇ _.
                  bind (write_mem-At h₇ _ 2 (omega arith)) λ u m₈ h₈ _. returns (r₂, h₈) tt)

pub map-IsSound :
    {m : Machine} (pid vaddr val : ℕ)
    → IsByte val
    → IsSound m
    → Ends IsSound Any (map pid vaddr val m)
unfolding map
map-IsSound pid vaddr val byte (r, h) = bind (find_pte-At (pos pid) vaddr h) λ found m₁ h₁ _.
    bind (table found (r, h₁)) λ u m₂ (r₂, h₂) _.
      bind (find_pte-At (pos pid) vaddr h₂)
        λ pte m₃ h₃ _. map_entry-IsSound pid val pte byte (r₂, h₃)
  where
    table :
        (found : ℤ) {m : Machine}
        → IsSound m
        → Ends IsSound Any (
            (let c : Cmd (Unit {0}) = elim found [
              | negsuc (suc zero) ↦ create_table pid
              | negsuc zero ↦ reload_table pid
              | _ ↦ pure tt
            ] in
                c)
              m)
    table (pos a) h' = returns h' tt
    table (negsuc zero) h' = reload_table-IsSound pid h'
    table (negsuc (suc zero)) h' = create_table-IsSound pid h'
    table (negsuc (suc (suc n))) h' = returns h' tt
