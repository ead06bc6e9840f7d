-- ===== src/Memory/Commands.antt =====
-- The commands of project4/memory.c: `command`, `store`, `map` and `load`.
pub mod Resident
pub mod Map
pub mod MapSound
pub mod NewPage
pub mod Session
pub mod Sound
pub mod Table
use cs3013_operating_systems.Prelude.{
  ℕ, zero, suc, ◌+◌, ◌-◌, ◌*◌, Bool, true, false, not, if◌then◌else◌, ltb, ◌==◌, ℤ, pos, negsuc,
  offset, is_neg, is_positive, to_uchar, minus_one, minus_two,
}
use cs3013_operating_systems.Memory.State.{
  Machine, Hp, Place, in_memory, on_disk, unset, ok, fault, Cmd, pure, ◌>>=◌, ◌>>◌, fetch, read_mem,
  write_mem, write_pages, write_ispagetable, write_hardware, print, stored, value_at,
  unallocated_value, segfault, not_writeable, table_created, table_at, already_has, altered,
  page_allocated, writeable, pte_size, pfn_offset, protection_offset, valpres_offset, num_pages,
}
use cs3013_operating_systems.Memory.Frames.{frame_of, find_free, count_free}
use cs3013_operating_systems.Memory.Paging.{
  hardware_of, find_pte, convert, load_page_table, load_page,
}
use cs3013_operating_systems.Memory.Evict.{free_space}

-- The `command` of a call: 's' or any other character.
pub data Op : Type 0 where
  store_op load_op : Op

-- `mem[paddr] = val` and the message
pub store_at : ℤ → ℕ → Cmd (Unit {0})
store_at paddr val = do write_mem paddr val; print (stored val paddr)

-- the message of a load
pub show_value : ℕ → ℤ → Cmd (Unit {0})
show_value vaddr paddr = do v ← read_mem paddr; print (value_at vaddr v)

-- The first part of `command`: bring in the page table, and the page if it is on disk.
pub fetch_table : ℕ → ℕ → Cmd (Unit {0})
fetch_table pid vaddr = do
  space ← count_free
  if ltb space 1 then free_space 1 (pos pid) else pure tt
  table ← load_page_table pid
  pte ← find_pte (pos pid) vaddr
  valpres ← read_mem (offset pte valpres_offset)
  if valpres == 1
      then (do
        if ltb space 2 then free_space 1 (pos pid) else pure tt
        page ← load_page pid vaddr
        pure tt)
      else pure tt

unfoldable pub command : Op → ℕ → ℕ → ℕ → Cmd (Unit {0})
unfolding fetch_table store_at show_value
command op pid vaddr val = do
  h ← hardware_of (pos pid)
  elim h.inmem [ on_disk ↦ fetch_table pid vaddr | _ ↦ pure tt ]
  elim op [
    | store_op ↦ do
      pte ← find_pte (pos pid) vaddr
      protection ← read_mem (offset pte protection_offset)
      if protection == writeable
          then (do paddr ← convert vaddr pid; store_at paddr val)
          else print (not_writeable vaddr)
    | load_op ↦ do
      paddr ← convert vaddr pid
      if is_positive paddr then show_value vaddr paddr else pure tt
  ]

pub store_entry : ℕ → ℕ → ℕ → ℤ → Cmd ℕ
unfolding store_at
store_entry pid vaddr val pte = do
  paddr ← convert vaddr pid
  if is_neg paddr then (do print (segfault vaddr); pure 0) else (do
    protection ← read_mem (offset pte protection_offset)
    if protection == writeable
        then (do store_at paddr val; pure 1)
        else (do print (not_writeable vaddr); pure 0))

unfoldable pub store : ℕ → ℕ → ℕ → Cmd ℕ
unfolding store_entry command
store pid vaddr val = do
  pte ← find_pte (pos pid) vaddr
  elim pte [
    | pos a ↦ store_entry pid vaddr val (pos a)
    | negsuc zero ↦ do command store_op pid vaddr val; pure 1
    | negsuc (suc zero) ↦ do print (segfault vaddr); pure 0
    | _ ↦ pure 0
  ]

-- `for (i = 0; i < NUMPAGES; i++)`: the page numbers, with no page present
pub number_entries : ℕ → ℤ → ℕ → Cmd (Unit {0})
number_entries zero address i = pure tt
number_entries (suc n) address i = do
  write_mem (offset address (pte_size * i)) i
  write_mem (offset address (pte_size * i + valpres_offset)) 0
  number_entries n address (i + 1)

-- The case of `map` where the process has no page table.
pub create_table : ℕ → Cmd (Unit {0})
unfolding number_entries
create_table pid = do
  free_space 2 (pos pid)
  free ← find_free
  print (table_created pid free)
  write_hardware (pos pid) (record { address = free; inmem = in_memory })
  write_pages (frame_of free) (pos pid)
  write_ispagetable (frame_of free) 1
  number_entries num_pages free 0

-- The case of `map` where the page table is on disk.
pub reload_table : ℕ → Cmd (Unit {0})
reload_table pid = do
  free_space 1 (pos pid)
  pt ← load_page_table pid
  write_pages (frame_of pt) (pos pid)
  write_ispagetable (frame_of pt) 1
  print (table_at pid pt)

-- `int ppage = findfree(); if (ppage < 0) { freespace(1, pid); ppage = findfree(); }`
pub take_frame : ℕ → Cmd ℤ
take_frame pid = do
  ppage ← find_free
  if is_neg ppage then (do free_space 1 (pos pid); find_free) else pure ppage

-- The end of `map`, at the entry `pte`.
pub map_entry : ℕ → ℕ → ℤ → Cmd ℕ
unfolding take_frame
map_entry pid val pte = do
  valpres ← read_mem (offset pte valpres_offset)
  if valpres == 2
      then (do
        protection ← read_mem (offset pte protection_offset)
        if protection == val
            then print (already_has val)
            else (do print altered; write_mem (offset pte protection_offset) val)
        pure 1)
      else (do
        ppage ← take_frame pid
        write_pages (frame_of ppage) (pos pid)
        vpn ← read_mem pte
        print (page_allocated vpn ppage)
        write_mem (offset pte pfn_offset) (to_uchar ppage)
        write_mem (offset pte protection_offset) val
        write_mem (offset pte valpres_offset) 2
        pure 1)

unfoldable pub map : ℕ → ℕ → ℕ → Cmd ℕ
unfolding create_table reload_table map_entry
map pid vaddr val = do
  found ← find_pte (pos pid) vaddr
  elim found [ negsuc (suc zero) ↦ create_table pid | negsuc zero ↦ reload_table pid | _ ↦ pure tt ]
  pte ← find_pte (pos pid) vaddr
  map_entry pid val pte

-- The case of `load` where the page is on disk.
pub load_swapped : ℕ → ℕ → Cmd ℕ
unfolding show_value
load_swapped pid vaddr = do
  space ← count_free
  if ltb 0 space
      then (do page ← load_page pid vaddr; pure tt)
      else (do free_space 1 (pos pid); page ← load_page pid vaddr; pure tt)
  paddr ← convert vaddr pid
  if is_positive paddr then (do show_value vaddr paddr; pure 1) else pure 0

pub load_entry : ℕ → ℕ → ℤ → Cmd ℕ
unfolding load_swapped
load_entry pid vaddr pte = do
  valpres ← read_mem (offset pte valpres_offset)
  if valpres == 1 then load_swapped pid vaddr else (do
    paddr ← convert vaddr pid
    v ← read_mem paddr
    if valpres == 2
        then (do print (value_at vaddr v); pure 1)
        else (do print (unallocated_value vaddr v); pure 0))

unfoldable pub load : ℕ → ℕ → ℕ → Cmd ℕ
unfolding load_entry command
load pid vaddr val = do
  pte ← find_pte (pos pid) vaddr
  elim pte [
    | pos a ↦ load_entry pid vaddr (pos a)
    | negsuc zero ↦ do command load_op pid vaddr val; pure 1
    | negsuc (suc zero) ↦ do print (segfault vaddr); pure 0
    | _ ↦ pure 0
  ]
