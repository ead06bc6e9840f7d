-- ===== src/Memory/Commands/Resident.antt =====
-- `store` and `load` of a process whose page table is in memory.
use cs3013_operating_systems.Prelude.{
  ℕ, ◌+◌, ◌*◌, ◌%◌, ◌<◌, ◌≡◌, ◌≢◌, refl, some, arith, ◌==◌, if◌then◌else◌, ltb, pos, get_elem?, set,
  length, [], ◌∷◌, ◌++◌, get_elem?-set_self, get_elem?-set_ne, ◌∙◌,
}
use cs3013_operating_systems.Memory.State.{
  Machine, Event, Run, ok, fault, page_mem, writeable, stored, segfault, not_writeable, value_at,
}
use cs3013_operating_systems.Memory.Paging.Entry.{
  EntryAt, entry_address, find_pte-entry, convert-entry,
}
use cs3013_operating_systems.Memory.Commands.{store, load}

-- `m` after a message, and with a byte written.
abbrev pub say : Event → Machine → Machine
say e m = record m { out = m.out ++ (e ∷ []) }

abbrev pub poke : ℕ → ℕ → Machine → Machine
poke paddr val m = record m { mem = set m.mem paddr val }

-- What a store does, by the protection and valid bytes of the entry.
abbrev pub store_result : (pfn protection valpres vaddr val : ℕ) → Machine → Run ℕ
store_result pfn protection valpres vaddr val m =
    let paddr = pfn + vaddr % page_mem in
    if valpres == 0
    then ok 0 (say (segfault vaddr) m)
    else if protection == writeable
    then if ltb paddr (length m.mem)
      then ok 1 (say (stored val (pos paddr)) (poke paddr val m))
      else fault
    else ok 0 (say (not_writeable vaddr) m)

module _ {m : Machine} {pid vaddr base pfn protection valpres : ℕ}
    (e : EntryAt m pid vaddr base pfn protection valpres) where
  -- With the page table in memory, `store` does what `store_result` says of the protection and valid
  -- bytes of the entry: a segfault message for a page never allocated, the write for a writeable one,
  -- a fault where that is out of bounds, and else a message.
  pub store-entry :
      (val : ℕ) → store pid vaddr val m ≡ store_result pfn protection valpres vaddr val m
  unfolding store
  store-entry val = rw (find_pte-entry e) (ground (arith, convert-entry e, e.protection_byte))

-- A load of a page that is present prints the byte at the frame number plus the offset.
pub load_present :
    {m : Machine} {pid vaddr base pfn protection : ℕ} (val b : ℕ)
    → EntryAt m pid vaddr base pfn protection 2
    → get_elem? m.mem (pfn + vaddr % page_mem) ≡ some b
    → load pid vaddr val m ≡ ok 1 (say (value_at vaddr b) m)
unfolding load
load_present val b e h = rw (find_pte-entry e) (ground (arith, convert-entry e, e.valpres_byte, h))

-- Frames do not overlap: a byte of one frame is not a byte of another.
pub frames_apart :
    (b f i j : ℕ) → b ≢ f → i < page_mem → j < page_mem → f * page_mem + i ≢ b * page_mem + j
frames_apart b f i j ne hi hj = omega arith

poke-EntryAt :
    {m : Machine} {pid vaddr base pfn protection valpres : ℕ} (paddr val : ℕ)
    → EntryAt m pid vaddr base pfn protection valpres
    → ((k : ℕ) → k < 4 → paddr ≢ entry_address base vaddr + k)
    → EntryAt (poke paddr val m) pid vaddr base pfn protection valpres
poke-EntryAt {m} paddr val e apart = record {
  table = e.table;
  pfn_byte = get_elem?-set_ne m.mem val (apart 1 (omega arith)) ∙ e.pfn_byte;
  protection_byte = get_elem?-set_ne m.mem val (apart 2 (omega arith)) ∙ e.protection_byte;
  valpres_byte = get_elem?-set_ne m.mem val (apart 3 (omega arith)) ∙ e.valpres_byte;
}

-- A write into the frame `pf` leaves the table in another frame alone.
poke-EntryAt_frame :
    {m : Machine} {pid vaddr pfn protection valpres : ℕ} (bf pf i val : ℕ)
    → bf ≢ pf
    → vaddr < 64
    → i < page_mem
    → EntryAt m pid vaddr (bf * page_mem) pfn protection valpres
    → EntryAt (poke (pf * page_mem + i) val m) pid vaddr (bf * page_mem) pfn protection valpres
poke-EntryAt_frame {vaddr} bf pf i val ne hv hi e =
    poke-EntryAt (pf * page_mem + i) val e (λ k hk. omega arith)

pub say-EntryAt :
    {m : Machine} {pid vaddr base pfn protection valpres : ℕ} (ev : Event)
    → EntryAt m pid vaddr base pfn protection valpres
    → EntryAt (say ev m) pid vaddr base pfn protection valpres
say-EntryAt ev e = record {
  table = e.table;
  pfn_byte = e.pfn_byte;
  protection_byte = e.protection_byte;
  valpres_byte = e.valpres_byte;
}

-- The state after a store that succeeds.
abbrev pub after_store : (pf vaddr val : ℕ) → Machine → Machine
after_store pf vaddr val m =
    let paddr = pf * page_mem + vaddr % page_mem in say (stored val (pos paddr)) (poke paddr val m)

-- A store leaves the entries of the tables in other frames alone.
pub stored-EntryAt :
    {m : Machine} {pid' vaddr' pfn protection valpres : ℕ} (bf pf vaddr val : ℕ)
    → bf ≢ pf
    → vaddr' < 64
    → EntryAt m pid' vaddr' (bf * page_mem) pfn protection valpres
    → EntryAt (after_store pf vaddr val m) pid' vaddr' (bf * page_mem) pfn protection valpres
stored-EntryAt bf pf vaddr val apart low e =
    say-EntryAt _ (poke-EntryAt_frame bf pf (vaddr % page_mem) val apart low (omega arith) e)

module _ {m : Machine} {pid vaddr : ℕ} (bf pf : ℕ)
    (e : EntryAt m pid vaddr (bf * page_mem) (pf * page_mem) writeable 2) (apart : bf ≢ pf)
    (in_space : vaddr < 64) (in_bounds : pf * page_mem + vaddr % page_mem < length m.mem) where
  pub store_present : (val : ℕ) → store pid vaddr val m ≡ ok 1 (after_store pf vaddr val m)
  store_present val = store-entry e val ∙ ground arith

  -- A store to a present, writeable page whose frame is not the frame of the process's page table
  -- succeeds, and a load of the same address then prints the value stored.
  pub store_then_load :
      (val w : ℕ)
      → let m' = after_store pf vaddr val m in
        (store pid vaddr val m ≡ ok 1 m')
        × (load pid vaddr w m' ≡ ok 1 (say (value_at vaddr val) m'))
  store_then_load val w = (
    store_present val,
    load_present w val (stored-EntryAt bf pf vaddr val apart in_space e)
        (get_elem?-set_self m.mem (pf * page_mem + vaddr % page_mem) val in_bounds),
  )

  -- A store to a present, writeable page, whose own page table is in another frame, leaves the bytes
  -- that another process sees as they were, where the other's page and page table stand in frames other
  -- than the page's.
  pub store_isolated :
      (val w : ℕ) {pid' vaddr' protection' b : ℕ} (bf' pf' : ℕ)
      → EntryAt m pid' vaddr' (bf' * page_mem) (pf' * page_mem) protection' 2
      → bf' ≢ pf
      → pf' ≢ pf
      → vaddr' < 64
      → get_elem? m.mem (pf' * page_mem + vaddr' % page_mem) ≡ some b
      → let m' = after_store pf vaddr val m in
        (store pid vaddr val m ≡ ok 1 m')
        × (load pid' vaddr' w m' ≡ ok 1 (say (value_at vaddr' b) m'))
  store_isolated val w {vaddr'} bf' pf' e' ne_table ne_page hv' h = (
    store_present val,
    load_present w _ (stored-EntryAt bf' pf vaddr val ne_table hv' e') (
        get_elem?-set_ne m.mem val (
          frames_apart pf' pf (vaddr % page_mem) (vaddr' % page_mem) ne_page (omega arith)
            (omega arith))
        ∙ h),
  )

module _ {m : Machine} {pid vaddr base : ℕ} where
  -- A store to a writeable page that was swapped out, where the line number plus the offset is inside
  -- memory, takes the line of the swap file for a frame: the byte of physical memory there is
  -- overwritten, and the swap file and the list of free frames stay as they are.
  pub store_swapped :
      {line : ℕ} (val : ℕ)
      → EntryAt m pid vaddr base line writeable 1
      → line + vaddr % page_mem < length m.mem
      → (m' : Machine) × (store pid vaddr val m ≡ ok 1 m')
        × (get_elem? m'.mem (line + vaddr % page_mem) ≡ some val)
        × (m'.swapspace ≡ m.swapspace)
        × (m'.freelist ≡ m.freelist)
  store_swapped {line} val e h = (
    say (stored val (pos (line + vaddr % page_mem))) (poke (line + vaddr % page_mem) val m),
    store-entry e val ∙ ground arith,
    get_elem?-set_self m.mem (line + vaddr % page_mem) val h,
    refl,
    refl,
  )

  -- A load of a page that was never allocated reads `mem[-1]`, which is a fault.
  pub load_unallocated :
      {pfn protection : ℕ} (val : ℕ)
      → EntryAt m pid vaddr base pfn protection 0
      → load pid vaddr val m ≡ fault
  unfolding load
  load_unallocated val e = rw (find_pte-entry e) (ground (arith, convert-entry e, e.valpres_byte))
