-- ===== src/Memory/Commands/Session.antt =====
-- `map`, `store` and `load` of one process, one after the other.
use cs3013_operating_systems.Prelude.{
  ℕ, ◌/◌, ◌<◌, ◌≤◌, ◌≡◌, ◌≢◌, some, List, arith, ℤ, length, get_elem?, set, get_elem?-set_self,
}
use cs3013_operating_systems.Memory.State.{
  Machine, ok, unset, num_pages, page_mem, max_mem, writeable, value_at,
}
use cs3013_operating_systems.Memory.Frames.Laws.{FirstFree, ones}
use cs3013_operating_systems.Memory.Paging.Entry.{EntryAt}
use cs3013_operating_systems.Memory.Commands.{map, store, load}
use cs3013_operating_systems.Memory.Commands.NewPage.{Shape}
use cs3013_operating_systems.Memory.Commands.Map.{mapped, map_fresh}
use cs3013_operating_systems.Memory.Commands.Resident.{say, after_store, store_then_load}

-- An entry is that of every address of its page.
same_page :
    {m : Machine} {pid vaddr vaddr' base pfn protection valpres : ℕ}
    → vaddr / page_mem ≡ vaddr' / page_mem
    → EntryAt m pid vaddr base pfn protection valpres
    → EntryAt m pid vaddr' base pfn protection valpres
same_page same e = record {
  table = e.table;
  pfn_byte = rw (← same) e.pfn_byte;
  protection_byte = rw (← same) e.protection_byte;
  valpres_byte = rw (← same) e.valpres_byte;
}

first_ne_second :
    (free : List ℕ) (i j : ℕ) → i < length free → get_elem? (set free i 0) j ≡ some 1 → i ≢ j
first_ne_second free i j h second e =
    let taken : get_elem? (set free i 0) i ≡ some 0 = get_elem?-set_self free i 0 h in
    ground (arith, e, second, taken)

-- From a state with two free frames, a process with no page table maps a writeable page, stores a
-- byte at any address of the page and loads it back: all three calls succeed, and the load prints
-- the byte that was stored.
pub map-store-load :
    {m : Machine} {hp : ℤ} (pid vaddr vaddr' val w i j : ℕ)
    → Shape m
    → pid < num_pages
    → vaddr < max_mem
    → vaddr / page_mem ≡ vaddr' / page_mem
    → get_elem? m.hardware pid ≡ some (record { address = hp; inmem = unset })
    → 2 ≤ ones m.freelist
    → FirstFree m.freelist i
    → FirstFree (set m.freelist i 0) j
    → let m₁ = mapped pid vaddr writeable i j m in
      let m₂ = after_store j vaddr' val m₁ in
      (map pid vaddr writeable m ≡ ok 1 m₁)
      × (store pid vaddr' val m₁ ≡ ok 1 m₂)
      × (load pid vaddr' w m₂ ≡ ok 1 (say (value_at vaddr' val) m₂))
map-store-load {m} pid vaddr vaddr' val w i j s lt low same absent two first second =
    let (run, entry, shape) = map_fresh pid vaddr writeable i j s lt low absent two first second in
    let apart : i ≢ j =
      first_ne_second m.freelist i j (omega (arith, s.freelist, first.below)) second.is_free in
    let (stored, loaded) =
      store_then_load i j (same_page same entry) apart (omega arith)
        (omega (arith, shape.mem, second.below)) val w in
    (run, stored, loaded)
