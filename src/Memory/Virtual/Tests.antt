-- ===== src/Memory/Virtual/Tests.antt =====
-- A run of maps, stores and loads of two processes.
use cs3013_operating_systems.Prelude.{
  ℕ, zero, suc, ◌+◌, ◌*◌, ◌/◌, ◌%◌, ◌<◌, ◌≤◌, ◌≡◌, refl, List, [], ◌∷◌, ◌++◌, arith, some, none,
  pos, replicate, get_elem?, length, ◌∙◌, ap,
}
use cs3013_operating_systems.Memory.State.{
  Machine, table_created, page_allocated, ok, init, in_memory, unset, page_mem, writeable,
}
use cs3013_operating_systems.Memory.Paging.Entry.{EntryAt}
use cs3013_operating_systems.Memory.Frames.{robin, count_free, find_free, page_of}
use cs3013_operating_systems.Memory.Paging.{find_pte}
use cs3013_operating_systems.Memory.Evict.{free_space}
use cs3013_operating_systems.Memory.Commands.{map}
use cs3013_operating_systems.Memory.Virtual.{
  View, Access, put, get, Layout, IsWithin, IsApart, Holds, shown, specified,
}
use cs3013_operating_systems.Memory.Console.{set_up, main}
use cs3013_operating_systems.Memory.Virtual.Console.{
  Mapping, map_all, maps_text, MapsInRange, text_of, IsInRange, main-specified,
}

abbrev first_table : List ℕ
first_table = 0 ∷ 16 ∷ 1 ∷ 2 ∷ 1 ∷ 0 ∷ 0 ∷ 0 ∷ 2 ∷ 0 ∷ 0 ∷ 0 ∷ 3 ∷ 0 ∷ 0 ∷ 0 ∷ []

abbrev second_table : List ℕ
second_table = 0 ∷ 48 ∷ 1 ∷ 2 ∷ 1 ∷ 0 ∷ 0 ∷ 0 ∷ 2 ∷ 0 ∷ 0 ∷ 0 ∷ 3 ∷ 0 ∷ 0 ∷ 0 ∷ []

-- The page tables in frames 0 and 2, a page of each process in frames 1 and 3.
abbrev two_pages : Machine
two_pages = record init {
  mem = first_table ++ (replicate 16 0 ++ (second_table ++ replicate 16 0));
  freelist = replicate 4 0;
  roundrobin = 2;
  pages = pos 0 ∷ pos 0 ∷ pos 1 ∷ pos 1 ∷ [];
  ispagetable = 1 ∷ 0 ∷ 1 ∷ 0 ∷ [];
  out =
      table_created 0 (pos 0)
      ∷ page_allocated 0 (pos 16)
      ∷ table_created 1 (pos 32)
      ∷ page_allocated 0 (pos 48)
      ∷ [];
  hardware =
      record { address = pos 0; inmem = in_memory }
      ∷ record { address = pos 32; inmem = in_memory }
      ∷ record { address = pos 0; inmem = unset }
      ∷ record { address = pos 0; inmem = unset }
      ∷ [];
}

abbrev layout : Layout
layout zero zero = some (0, 1)
layout (suc zero) zero = some (2, 3)
layout _ _ = none

abbrev zeros : View
zeros pid vaddr = 0

abbrev accesses : List Access
accesses = put 0 3 99 ∷ get 1 3 ∷ get 0 3 ∷ get 0 4 ∷ []

-- The frames of a page of the layout.
layout-frames :
    (pid vpage : ℕ) (f : ℕ × ℕ)
    → layout pid vpage ≡ some f
    → (pid ≤ 1) × (vpage ≡ 0) × (f.0 ≡ 2 * pid) × (f.1 ≡ 2 * pid + 1)
layout-frames zero zero f e =
    let same : (0, 1) ≡ f = cc in rw (← same) (omega arith, refl, refl, refl)
layout-frames zero (suc vpage) f e = cc
layout-frames (suc zero) zero f e =
    let same : (2, 3) ≡ f = cc in rw (← same) (omega arith, refl, refl, refl)
layout-frames (suc zero) (suc vpage) f e = cc
layout-frames (suc (suc pid)) vpage f e = cc

get_elem?-replicate_append :
    (n i : ℕ) (rest : List ℕ) → i < n → get_elem? (replicate n 0 ++ rest) i ≡ some 0
get_elem?-replicate_append zero i rest h = absurd (omega (arith, h))
get_elem?-replicate_append (suc n) zero rest h = refl
get_elem?-replicate_append (suc n) (suc i) rest h =
    get_elem?-replicate_append n i rest (omega (arith, h))

get_elem?-append_add :
    (xs ys : List ℕ) (i : ℕ) → get_elem? (xs ++ ys) (length xs + i) ≡ get_elem? ys i
get_elem?-append_add [] ys i = ap (get_elem? ys) (omega arith)
get_elem?-append_add (x ∷ xs) ys i =
    let next : suc (length xs) + i ≡ suc (length xs + i) = omega arith in
    rw next (get_elem?-append_add xs ys i)

first_page : (r : ℕ) → r < 16 → get_elem? two_pages.mem (16 + r) ≡ some 0
first_page r h =
    get_elem?-append_add first_table (replicate 16 0 ++ (second_table ++ replicate 16 0)) r
    ∙ get_elem?-replicate_append 16 r (second_table ++ replicate 16 0) h

second_page : (r : ℕ) → r < 16 → get_elem? two_pages.mem (48 + r) ≡ some 0
second_page r h =
    get_elem?-append_add (first_table ++ (replicate 16 0 ++ second_table)) (replicate 16 0) r
    ∙ get_elem?-replicate_append 16 r [] h

layout-IsApart : IsApart layout
layout-IsApart = record {
  tables = λ pid vpage pid' vpage' f f' at at'.
      (let a = layout-frames pid vpage f at in
        let b = layout-frames pid' vpage' f' at' in omega (arith, a.2, b.2));
  pages = λ pid vpage pid' vpage' f f' at at' same.
      (let a = layout-frames pid vpage f at in
        let b = layout-frames pid' vpage' f' at' in
        (omega (arith, a.2, b.2, same), omega (arith, a.2, b.2)));
}

entry_at :
    (pid vaddr : ℕ)
    → vaddr / page_mem ≡ 0
    → pid ≤ 1
    → EntryAt two_pages pid vaddr (2 * pid * page_mem) ((2 * pid + 1) * page_mem) writeable 2
entry_at zero vaddr page h = record {
  table = refl;
  pfn_byte = rw page refl;
  protection_byte = rw page refl;
  valpres_byte = rw page refl;
}
entry_at (suc zero) vaddr page h = record {
  table = refl;
  pfn_byte = rw page refl;
  protection_byte = rw page refl;
  valpres_byte = rw page refl;
}
entry_at (suc (suc pid)) vaddr page h = absurd (omega (arith, h))

byte_at :
    (pid vaddr : ℕ)
    → pid ≤ 1
    → get_elem? two_pages.mem ((2 * pid + 1) * page_mem + vaddr % page_mem) ≡ some 0
byte_at zero vaddr h = first_page (vaddr % page_mem) (omega arith)
byte_at (suc zero) vaddr h = second_page (vaddr % page_mem) (omega arith)
byte_at (suc (suc pid)) vaddr h = absurd (omega (arith, h))

layout-Holds : Holds layout zeros two_pages
layout-Holds = record {
  entry = λ pid vaddr f low at.
      let (known, page, table, frame) = layout-frames pid (vaddr / page_mem) f at in
      rw table (rw frame (entry_at pid vaddr page known));
  byte = λ pid vaddr f low at.
      let (known, page, table, frame) = layout-frames pid (vaddr / page_mem) f at in
      rw frame (byte_at pid vaddr known);
}

accesses-IsWithin : IsWithin layout accesses
unfolding IsWithin
accesses-IsWithin = (
  ((0, 1), omega arith, refl),
  (((2, 3), omega arith, refl), (((0, 1), omega arith, refl), (((0, 1), omega arith, refl), tt))),
)

accesses-IsInRange : IsInRange accesses
unfolding IsInRange
accesses-IsInRange = (
  (omega arith, omega arith, omega arith),
  ((omega arith, omega arith), ((omega arith, omega arith), ((omega arith, omega arith), tt))),
)

abbrev maps : List Mapping
maps = (0, 0, 1) ∷ (1, 0, 1) ∷ []

maps-run : map_all maps (set_up init) ≡ ok tt two_pages
unfolding map_all map find_pte free_space robin count_free find_free page_of
maps-run = refl

maps-MapsInRange : MapsInRange maps
maps-MapsInRange =
    ((omega arith, omega arith, omega arith), ((omega arith, omega arith, omega arith), tt))

main-specified_example :
    (m' : Machine) × (main (maps_text maps ++ text_of accesses) init ≡ ok tt m')
    × (shown m'.out ≡ (3, 0) ∷ (3, 99) ∷ (4, 0) ∷ [])
unfolding specified shown
main-specified_example =
    main-specified init maps accesses maps-MapsInRange accesses-IsInRange maps-run layout-IsApart
      accesses-IsWithin layout-Holds
