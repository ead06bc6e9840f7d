-- ===== src/Memory/Commands/NewPage.antt =====
-- The states that `map` goes through: a page table is set up, and a page is given a frame.
use cs3013_operating_systems.Prelude.{
  ℕ, ◌+◌, ◌*◌, ◌/◌, ◌%◌, ◌<◌, ◌≤◌, ◌≡◌, ◌≢◌, ◌∙◌, some, List, [], ◌∷◌, ◌++◌, arith, pos, length,
  length-set, get_elem?, set, ltb, true, false, get_elem?-set_self, get_elem?-set_ne, ◌==◌, ap,
}
use cs3013_operating_systems.Memory.State.{
  Machine, ok, in_memory, pte_size, pfn_offset, protection_offset, valpres_offset, num_pages,
  max_mem, page_mem, table_created, page_allocated,
}
use cs3013_operating_systems.Memory.Frames.Laws.{FirstFree, find_free-first, ones}
use cs3013_operating_systems.Memory.Paging.Entry.{EntryAt, entry_address}
use cs3013_operating_systems.Memory.Evict.Enough.{turn, free_space_enough}
use cs3013_operating_systems.Memory.Commands.{create_table, map_entry}
use cs3013_operating_systems.Memory.Commands.Table.{
  numbered, number_entries-numbered, length-numbered, get_elem?-numbered,
}

-- The arrays have the sizes of their declarations.
pub record Shape (m : Machine) : Type 0 where
  pub mem : length m.mem ≡ max_mem
  pub freelist : length m.freelist ≡ num_pages
  pub pages : length m.pages ≡ num_pages
  pub ispagetable : length m.ispagetable ≡ num_pages
  pub hardware : length m.hardware ≡ num_pages

-- The state after the page table of `pid` is set up in frame `i`.
abbrev pub with_table : ℕ → ℕ → Machine → Machine
with_table pid i m = record m {
  mem = numbered num_pages (i * page_mem) 0 m.mem;
  freelist = set m.freelist i 0;
  pages = set m.pages i (pos pid);
  ispagetable = set m.ispagetable i 1;
  hardware = set m.hardware pid (record { address = pos (i * page_mem); inmem = in_memory });
  out = m.out ++ (table_created pid (pos (i * page_mem)) ∷ []);
}

pub create_table-with_table :
    {m : Machine} (pid i : ℕ)
    → Shape m
    → pid < num_pages
    → 2 ≤ ones m.freelist
    → FirstFree m.freelist i
    → create_table pid m ≡ ok tt (with_table pid i (turn m))
unfolding create_table
create_table-with_table {m} pid i s lt two first =
    let frame : i * page_mem / page_mem ≡ i = omega arith in
    let below : i < num_pages = first.below in
    let known : ltb pid (length m.hardware) ≡ true = ground (arith, s.hardware) in
    let page : ltb i (length m.pages) ≡ true = ground (arith, s.pages, below) in
    let table : ltb i (length m.ispagetable) ≡ true = ground (arith, s.ispagetable, below) in
    rw
      (
        free_space_enough m 2 (pos pid) s.freelist two,
        find_free-first (turn m) i s.freelist first,
        known,
        frame,
        page,
        table,
      )
      (number_entries-numbered num_pages (i * page_mem) 0 _ (omega (arith, s.mem, below)))

-- The state after frame `j` is given to the page with the entry at `e`.
abbrev pub with_page : (pid e vpn j val : ℕ) → Machine → Machine
with_page pid e vpn j val m = record m {
  mem =
      set (set (set m.mem (e + pfn_offset) (j * page_mem % 256)) (e + protection_offset) val)
        (e + valpres_offset) 2;
  freelist = set m.freelist j 0;
  pages = set m.pages j (pos pid);
  out = m.out ++ (page_allocated vpn (pos (j * page_mem)) ∷ []);
}

pub map_entry-with_page :
    {m : Machine} (pid e vpn j val valpres : ℕ)
    → Shape m
    → e + valpres_offset < length m.mem
    → get_elem? m.mem e ≡ some vpn
    → get_elem? m.mem (e + valpres_offset) ≡ some valpres
    → valpres ≢ 2
    → FirstFree m.freelist j
    → map_entry pid val (pos e) m ≡ ok 1 (with_page pid e vpn j val m)
unfolding map_entry
map_entry-with_page {m} pid e vpn j val valpres s inside number bits absent first =
    let frame : j * page_mem / page_mem ≡ j = omega arith in
    let below : j < num_pages = first.below in
    let other : (valpres == 2) ≡ false = ground arith in
    let page : ltb j (length m.pages) ≡ true = ground (arith, s.pages, below) in
    let at₁ : ltb (e + pfn_offset) (length m.mem) ≡ true = ground arith in
    let at₂ : ltb (e + protection_offset) (length m.mem) ≡ true = ground arith in
    let at₃ : ltb (e + valpres_offset) (length m.mem) ≡ true = ground arith in
    rw (
      bits,
      other,
      find_free-first m j s.freelist first,
      frame,
      page,
      number,
      at₁,
      length-set,
      at₂,
      length-set,
      length-set,
      at₃,
    )

-- The three bytes that the end of `map` writes.
entry_bytes :
    (mem : List ℕ) (e a b c : ℕ)
    → e + valpres_offset < length mem
    → let mem' =
        set (set (set mem (e + pfn_offset) a) (e + protection_offset) b) (e + valpres_offset) c in
      (get_elem? mem' (e + pfn_offset) ≡ some a)
      × (get_elem? mem' (e + protection_offset) ≡ some b)
      × (get_elem? mem' (e + valpres_offset) ≡ some c)
entry_bytes mem e a b c h =
    let mem₁ = set mem (e + pfn_offset) a in
    let mem₂ = set mem₁ (e + protection_offset) b in
    let l₁ : length mem₁ ≡ length mem = length-set mem (e + pfn_offset) a in
    let l₂ : length mem₂ ≡ length mem₁ = length-set mem₁ (e + protection_offset) b in
    (
      get_elem?-set_ne mem₂ {i = e + valpres_offset} {j = e + pfn_offset} c (omega arith)
          ∙ get_elem?-set_ne mem₁ {i = e + protection_offset} {j = e + pfn_offset} b (omega arith)
          ∙ get_elem?-set_self mem (e + pfn_offset) a (omega arith),
      get_elem?-set_ne mem₂ {i = e + valpres_offset} {j = e + protection_offset} c (omega arith)
          ∙ get_elem?-set_self mem₁ (e + protection_offset) b (omega arith),
      get_elem?-set_self mem₂ (e + valpres_offset) c (omega arith),
    )

pub with_page-EntryAt :
    (m : Machine) (pid vaddr base vpn j val : ℕ)
    → get_elem? m.hardware pid ≡ some (record { address = pos base; inmem = in_memory })
    → entry_address base vaddr + valpres_offset < length m.mem
    → j < num_pages
    → EntryAt
        (with_page pid (entry_address base vaddr) vpn j val m)
        pid
        vaddr
        base
        (j * page_mem)
        val
        2
with_page-EntryAt m pid vaddr base vpn j val table inside below =
    let small : j * page_mem % 256 ≡ j * page_mem = omega arith in
    let (pfn, protection, valpres) =
      entry_bytes m.mem (entry_address base vaddr) (j * page_mem % 256) val 2 inside in
    record {
      table = table;
      pfn_byte = pfn ∙ ap some small;
      protection_byte = protection;
      valpres_byte = valpres;
    }

pub turn-Shape : {m : Machine} → Shape m → Shape (turn m)
turn-Shape s = record {
  mem = s.mem;
  freelist = s.freelist;
  pages = s.pages;
  ispagetable = s.ispagetable;
  hardware = s.hardware;
}

pub with_table-Shape : (pid i : ℕ) (m : Machine) → Shape m → Shape (with_table pid i m)
with_table-Shape pid i m s = record {
  mem = length-numbered num_pages (i * page_mem) 0 m.mem ∙ s.mem;
  freelist = length-set m.freelist i 0 ∙ s.freelist;
  pages = length-set m.pages i (pos pid) ∙ s.pages;
  ispagetable = length-set m.ispagetable i 1 ∙ s.ispagetable;
  hardware = length-set m.hardware pid _ ∙ s.hardware;
}

pub with_page-Shape :
    (pid e vpn j val : ℕ) (m : Machine) → Shape m → Shape (with_page pid e vpn j val m)
with_page-Shape pid e vpn j val m s = record {
  mem = rw (length-set, length-set, length-set) s.mem;
  freelist = length-set m.freelist j 0 ∙ s.freelist;
  pages = length-set m.pages j (pos pid) ∙ s.pages;
  ispagetable = s.ispagetable;
  hardware = s.hardware;
}

-- The entry for `vaddr` in a table that was just set up.
pub entry_numbers :
    (m : Machine) (i vaddr : ℕ)
    → i * page_mem + page_mem ≤ length m.mem
    → vaddr < 64
    → let mem = numbered num_pages (i * page_mem) 0 m.mem in
      let at = entry_address (i * page_mem) vaddr in
      (get_elem? mem at ≡ some (vaddr / page_mem)) × (get_elem? mem (at + valpres_offset) ≡ some 0)
entry_numbers m i vaddr h low =
    let (number, bits) =
      get_elem?-numbered num_pages (i * page_mem) 0 m.mem (vaddr / page_mem) (omega arith)
        (omega arith) (omega arith) in
    let same : i * page_mem + (pte_size * (vaddr / page_mem) + valpres_offset)
        ≡ i * page_mem + pte_size * (vaddr / page_mem) + valpres_offset =
      omega arith in
    (number, rw same at bits)
