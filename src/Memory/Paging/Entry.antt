-- ===== src/Memory/Paging/Entry.antt =====
-- Address translation: `findpte` and `convert` where the page table is in memory.
use cs3013_operating_systems.Prelude.{
  ℕ, ◌+◌, ◌*◌, ◌/◌, ◌%◌, ◌≡◌, some, arith, ◌==◌, if◌then◌else◌, ℤ, pos, minus_one, minus_two,
  get_elem?,
}
use cs3013_operating_systems.Memory.State.{
  Machine, in_memory, on_disk, unset, ok, page_mem, pte_size, pfn_offset, protection_offset,
  valpres_offset,
}
use cs3013_operating_systems.Memory.Frames.Laws.{page_of_lem}
use cs3013_operating_systems.Memory.Paging.{find_pte, convert}

-- The address of the entry for `vaddr` in a table at `base`.
abbrev pub entry_address : ℕ → ℕ → ℕ
entry_address base vaddr = base + pte_size * (vaddr / page_mem)

-- The table of process `pid` is in memory at `base`, with these bytes in the entry for `vaddr`.
pub record EntryAt (m : Machine) (pid vaddr base pfn protection valpres : ℕ) : Type 0 where
  pub table : get_elem? m.hardware pid ≡ some (record { address = pos base; inmem = in_memory })
  pub pfn_byte : get_elem? m.mem (entry_address base vaddr + pfn_offset) ≡ some pfn
  pub protection_byte :
      get_elem? m.mem (entry_address base vaddr + protection_offset) ≡ some protection
  pub valpres_byte : get_elem? m.mem (entry_address base vaddr + valpres_offset) ≡ some valpres

pub find_pte-table :
    {m : Machine} {base : ℕ} (pid vaddr : ℕ)
    → get_elem? m.hardware pid ≡ some (record { address = pos base; inmem = in_memory })
    → find_pte (pos pid) vaddr m ≡ ok (pos (entry_address base vaddr)) m
unfolding find_pte
find_pte-table pid vaddr e = rw (e, page_of_lem)

-- A process with no page table.
pub find_pte-unset :
    {m : Machine} {line : ℤ} (pid vaddr : ℕ)
    → get_elem? m.hardware pid ≡ some (record { address = line; inmem = unset })
    → find_pte (pos pid) vaddr m ≡ ok minus_two m
unfolding find_pte
find_pte-unset pid vaddr e = rw e

-- A process whose page table is in the swap file.
pub find_pte-on_disk :
    {m : Machine} {line : ℤ} (pid vaddr : ℕ)
    → get_elem? m.hardware pid ≡ some (record { address = line; inmem = on_disk })
    → find_pte (pos pid) vaddr m ≡ ok minus_one m
unfolding find_pte
find_pte-on_disk pid vaddr e = rw e

module _ {m : Machine} {pid vaddr base pfn protection valpres : ℕ}
    (e : EntryAt m pid vaddr base pfn protection valpres) where
  pub find_pte-entry : find_pte (pos pid) vaddr m ≡ ok (pos (entry_address base vaddr)) m
  find_pte-entry = find_pte-table pid vaddr e.table

  -- With the page table in memory, `convert` gives the frame number plus the offset in the page, or -1 for a page never allocated.
  pub convert-entry :
      convert vaddr pid m ≡ ok (if valpres == 0 then minus_one else pos (pfn + vaddr % page_mem)) m
  unfolding convert
  convert-entry = rw (e.table, page_of_lem vaddr) (ground (arith, e.pfn_byte, e.valpres_byte))
