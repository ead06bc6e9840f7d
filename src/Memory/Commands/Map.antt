-- ===== src/Memory/Commands/Map.antt =====
-- `map` for a process that has no page table yet.
use cs3013_operating_systems.Prelude.{
  ℕ, ◌+◌, ◌*◌, ◌/◌, ◌<◌, ◌≤◌, ◌≡◌, ◌∙◌, some, arith, ℤ, pos, minus_two, length, get_elem?, set,
  get_elem?-set_self,
}
use cs3013_operating_systems.Memory.State.{
  Machine, ok, and_then, ◌>>=◌, unset, in_memory, valpres_offset, num_pages, page_mem,
}
use cs3013_operating_systems.Memory.Frames.Laws.{FirstFree, ones}
use cs3013_operating_systems.Memory.Paging.{find_pte}
use cs3013_operating_systems.Memory.Paging.Entry.{
  EntryAt, entry_address, find_pte-table, find_pte-unset,
}
use cs3013_operating_systems.Memory.Evict.Enough.{turn}
use cs3013_operating_systems.Memory.Commands.{create_table, map_entry, map}
use cs3013_operating_systems.Memory.Commands.NewPage.{
  Shape, with_table, create_table-with_table, with_page, map_entry-with_page, with_page-EntryAt,
  turn-Shape, with_table-Shape, with_page-Shape, entry_numbers,
}

map-unset :
    {m : Machine} (pid vaddr val : ℕ)
    → find_pte (pos pid) vaddr m ≡ ok minus_two m
    → map pid vaddr val m
      ≡ and_then (create_table pid m) (λ u. find_pte (pos pid) vaddr >>= map_entry pid val)
unfolding map
map-unset pid vaddr val e = rw e

-- The state that `map` leaves when it gives frame `i` to the page table and frame `j` to the page.
abbrev pub mapped : (pid vaddr val i j : ℕ) → Machine → Machine
mapped pid vaddr val i j m =
    with_page pid (entry_address (i * page_mem) vaddr) (vaddr / page_mem) j val
      (with_table pid i (turn m))

-- Where two frames are free, `map` for a process with no page table gives the first to the table
-- and the second to the page. The page is then present, with the protection asked for, and the arrays
-- keep their sizes.
pub map_fresh :
    {m : Machine} {hp : ℤ} (pid vaddr val i j : ℕ)
    → Shape m
    → pid < num_pages
    → vaddr < 64
    → get_elem? m.hardware pid ≡ some (record { address = hp; inmem = unset })
    → 2 ≤ ones m.freelist
    → FirstFree m.freelist i
    → FirstFree (set m.freelist i 0) j
    → (map pid vaddr val m ≡ ok 1 (mapped pid vaddr val i j m))
      × EntryAt (mapped pid vaddr val i j m) pid vaddr (i * page_mem) (j * page_mem) val 2
      × Shape (mapped pid vaddr val i j m)
map_fresh {m} pid vaddr val i j s lt low absent two first second = (run, entry, shape)
  where
    m₁ : Machine
    m₁ = with_table pid i (turn m)

    shape₁ : Shape m₁
    shape₁ = with_table-Shape pid i (turn m) (turn-Shape s)

    at : ℕ
    at = entry_address (i * page_mem) vaddr

    inside : at + valpres_offset < length m₁.mem
    inside = omega (arith, shape₁.mem, first.below)

    numbers :
        (get_elem? m₁.mem at ≡ some (vaddr / page_mem))
        × (get_elem? m₁.mem (at + valpres_offset) ≡ some 0)
    numbers = entry_numbers m i vaddr (omega (arith, s.mem, first.below)) low

    table :
        get_elem? m₁.hardware pid
        ≡ some (record { address = pos (i * page_mem); inmem = in_memory })
    table = get_elem?-set_self m.hardware pid _ (omega (arith, s.hardware, lt))

    run : map pid vaddr val m ≡ ok 1 (mapped pid vaddr val i j m)
    run =
        map-unset pid vaddr val (find_pte-unset pid vaddr absent)
        ∙ rw (create_table-with_table pid i s lt two first, find_pte-table {m = m₁} pid vaddr table)
            (map_entry-with_page pid at (vaddr / page_mem) j val 0 shape₁ inside numbers.0 numbers.1
              (omega arith) second)

    entry : EntryAt (mapped pid vaddr val i j m) pid vaddr (i * page_mem) (j * page_mem) val 2
    entry =
        with_page-EntryAt m₁ pid vaddr (i * page_mem) (vaddr / page_mem) j val table inside
          second.below

    shape : Shape (mapped pid vaddr val i j m)
    shape = with_page-Shape pid at (vaddr / page_mem) j val m₁ shape₁
