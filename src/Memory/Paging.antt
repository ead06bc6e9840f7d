-- ===== src/Memory/Paging.antt =====
-- Page tables in project4/memory.c: `findpte`, `convert`, and moving tables and pages between
-- memory and the swap file.
pub mod Entry
pub mod RoundTrip
pub mod Sound
use cs3013_operating_systems.Prelude.{
  ℕ, zero, suc, ◌+◌, ◌-◌, ◌*◌, ◌/◌, Bool, true, false, Option, none, some, if◌then◌else◌, ◌==◌, ℤ,
  pos, negsuc, minus_one, minus_two, offset, pred_ℤ, to_uchar,
}
use cs3013_operating_systems.Memory.State.{
  Machine, Hp, Place, unset, on_disk, in_memory, Run, ok, fault, Cmd, pure, ◌>>=◌, ◌>>◌, or_fault,
  fetch, read_mem, write_mem, write_freelist, write_pages, write_ispagetable, write_hardware, print,
  table_loaded, table_swapped, page_loaded, page_mem, pte_size, pfn_offset, valpres_offset,
}
use cs3013_operating_systems.Memory.Swap.{page_to_file, page_from_file, swap_to_mem}
use cs3013_operating_systems.Memory.Frames.{page_of, frame_of, find_free, clear_frame}

abbrev pub hardware_of : ℤ → Cmd Hp
hardware_of pid = fetch (λ m. m.hardware) pid

abbrev pub pte_address : Hp → ℕ → ℤ
pte_address h vaddr = elim h.inmem [
  | in_memory ↦ offset h.address (pte_size * page_of vaddr)
  | on_disk ↦ minus_one
  | unset ↦ minus_two
]

unfoldable pub find_pte : ℤ → ℕ → Cmd ℤ
find_pte pid vaddr = do h ← hardware_of pid; pure (pte_address h vaddr)

-- `linecount++`, with the value before. The `int` of the source is not bounded here.
unfoldable pub next_line : Cmd ℕ
next_line m = ok m.linecount (record m { linecount = m.linecount + 1 })

-- `pageFromFile` into a local buffer, and `swaptomem`.
unfoldable pub bring_in : ℤ → ℤ → Cmd (Unit {0})
bring_in line free = do found ← page_from_file line; temp ← or_fault found; swap_to_mem temp free

unfoldable pub load_page_table : ℕ → Cmd ℤ
unfolding bring_in
load_page_table pid = do
  h ← hardware_of (pos pid)
  free ← find_free
  bring_in h.address free
  write_pages (frame_of free) (pos pid)
  write_hardware (pos pid) (record { address = free; inmem = in_memory })
  write_ispagetable (frame_of free) 1
  print (table_loaded pid free)
  pure free

unfoldable pub load_page : ℕ → ℕ → Cmd ℤ
unfolding find_pte bring_in
load_page pid vaddr = do
  pte ← find_pte (pos pid) vaddr
  line ← read_mem (offset pte pfn_offset)
  free ← find_free
  bring_in (pos line) free
  write_pages (frame_of free) (pos pid)
  pte' ← find_pte (pos pid) vaddr
  write_mem (offset pte' pfn_offset) (to_uchar free)
  pte'' ← find_pte (pos pid) vaddr
  write_mem (offset pte'' valpres_offset) 2
  print (page_loaded (vaddr / 16) pid free)
  pure free

unfoldable pub remove_page_table : ℤ → Cmd (Unit {0})
unfolding find_pte next_line
remove_page_table pid = do
  pt ← find_pte pid 0
  n ← next_line
  line ← page_to_file n pt
  write_hardware pid (record { address = pos line; inmem = on_disk })
  write_freelist (frame_of pt) 1
  write_ispagetable (frame_of pt) 0
  clear_frame pt
  write_pages (frame_of pt) minus_one
  print (table_swapped pid)

-- The loop of `removePage`: the byte before the last one that equals `paddr`.
unfoldable pub owner_loop : ℕ → ℕ → ℤ → ℕ → ℕ → Cmd ℕ
owner_loop zero paddr pte i vp = pure vp
owner_loop (suc n) paddr pte i vp = do
  b ← read_mem (offset pte i)
  vp' ← if b == paddr then read_mem (pred_ℤ (offset pte i)) else pure vp
  owner_loop n paddr pte (i + 1) vp'

unfoldable pub remove_page : ℤ → ℕ → Cmd (Unit {0})
unfolding find_pte next_line owner_loop
remove_page pid paddr = do
  pte ← find_pte pid 0
  vp ← owner_loop 16 paddr pte 0 0
  n ← next_line
  fadr ← page_to_file n (pos paddr)
  write_mem (offset pte (4 * vp + pfn_offset)) (to_uchar (pos fadr))
  write_mem (offset pte (4 * vp + valpres_offset)) 1
  clear_frame (pos paddr)
  write_freelist (frame_of (pos paddr)) 1
  write_pages (frame_of (pos paddr)) minus_one

-- What `convert` reads from the entry at `pte`. `vaddr - 16 * vpage` is not negative, as `vpage` counts
-- the times that 16 was taken off `vaddr`.
abbrev pub entry_target : ℕ → ℤ → Cmd ℤ
entry_target vaddr pte = do
  valpres ← read_mem (offset pte valpres_offset)
  if valpres == 0 then pure minus_one else (do
    pfn ← read_mem (offset pte pfn_offset)
    pure (pos (pfn + (vaddr - 16 * page_of vaddr))))

unfoldable pub convert : ℕ → ℕ → Cmd ℤ
convert vaddr pid = do
  h ← hardware_of (pos pid)
  elim h.inmem [
    | in_memory ↦ entry_target vaddr (offset h.address (pte_size * page_of vaddr))
    | _ ↦ pure minus_one
  ]
