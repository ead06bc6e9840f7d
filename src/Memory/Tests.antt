-- ===== src/Memory/Tests.antt =====
-- The theorems about project4/memory.c at concrete states.
use cs3013_operating_systems.Prelude.{
  ℕ, zero, suc, ◌+◌, ◌<◌, ◌*◌, ◌%◌, ◌≡◌, refl, ◌≢◌, some, [], ◌∷◌, ◌++◌, arith, pos, replicate,
  get_elem?, set,
}
use cs3013_operating_systems.Memory.State.{Machine, ok, init, unset, in_memory, writeable, value_at}
use cs3013_operating_systems.Memory.Frames.Laws.{FirstFree, ones}
use cs3013_operating_systems.Memory.Paging.Entry.{EntryAt}
use cs3013_operating_systems.Memory.Commands.{map, store, load}
use cs3013_operating_systems.Memory.Commands.NewPage.{Shape}
use cs3013_operating_systems.Memory.Commands.Map.{mapped, map_fresh}
use cs3013_operating_systems.Memory.Commands.Resident.{
  say, after_store, store_isolated, store_swapped,
}
use cs3013_operating_systems.Memory.Commands.Session.{map-store-load}

-- Two processes, each with a page table and one page: tables in frames 0 and 2, pages in 1 and 3.
-- The second page of process 0 is in the swap file, and its third was never allocated.
abbrev two_processes : Machine
two_processes = record init {
  mem =
      (0 ∷ 16 ∷ 1 ∷ 2 ∷ 1 ∷ 5 ∷ 1 ∷ 1 ∷ 2 ∷ 0 ∷ 0 ∷ replicate 21 0)
      ++ (0 ∷ 48 ∷ 1 ∷ 2 ∷ replicate 28 7);
  freelist = replicate 4 0;
  hardware =
      record { address = pos 0; inmem = in_memory }
      ∷ record { address = pos 32; inmem = in_memory }
      ∷ record { address = pos 0; inmem = unset }
      ∷ record { address = pos 0; inmem = unset }
      ∷ [];
}

init-Shape : Shape init
init-Shape = record {
  mem = refl;
  freelist = refl;
  pages = refl;
  ispagetable = refl;
  hardware = refl;
}

first_frame : FirstFree init.freelist 0
first_frame = record {
  below = omega arith;
  is_free = refl;
  none_before = λ j h. absurd (omega arith);
}

second_frame : FirstFree (set init.freelist 0 0) 1
second_frame = record { below = omega arith; is_free = refl; none_before = taken }
  where
    taken : (j : ℕ) → j < 1 → get_elem? (set init.freelist 0 0) j ≢ some 1
    taken zero h e = ground (arith, e)
    taken (suc j) h e = absurd (omega arith)

map-store-load_example :
    let m₁ = mapped 0 12 writeable 0 1 init in
    let m₂ = after_store 1 13 200 m₁ in
    (map 0 12 writeable init ≡ ok 1 m₁)
    × (store 0 13 200 m₁ ≡ ok 1 m₂)
    × (load 0 13 0 m₂ ≡ ok 1 (say (value_at 13 200) m₂))
unfolding ones
map-store-load_example =
    map-store-load 0 12 13 200 0 0 1 init-Shape (omega arith) (omega arith) refl refl (omega arith)
      first_frame second_frame

map_fresh_example :
    (map 0 12 0 init ≡ ok 1 (mapped 0 12 0 0 1 init))
    × EntryAt (mapped 0 12 0 0 1 init) 0 12 0 16 0 2
    × Shape (mapped 0 12 0 0 1 init)
unfolding ones
map_fresh_example =
    map_fresh 0 12 0 0 1 init-Shape (omega arith) (omega arith) refl (omega arith) first_frame
      second_frame

entry₀ : EntryAt two_processes 0 12 (0 * 16) (1 * 16) 1 2
entry₀ = record { table = refl; pfn_byte = refl; protection_byte = refl; valpres_byte = refl }

entry₁ : EntryAt two_processes 1 5 (2 * 16) (3 * 16) 1 2
entry₁ = record { table = refl; pfn_byte = refl; protection_byte = refl; valpres_byte = refl }

swapped_entry : EntryAt two_processes 0 20 0 5 1 1
swapped_entry = record {
  table = refl;
  pfn_byte = refl;
  protection_byte = refl;
  valpres_byte = refl;
}

store_isolated_example :
    let m' = after_store 1 12 200 two_processes in
    (store 0 12 200 two_processes ≡ ok 1 m') × (load 1 5 0 m' ≡ ok 1 (say (value_at 5 7) m'))
store_isolated_example =
    store_isolated 0 1 entry₀ (λ e. cc) (omega arith) (omega arith) 200 0 2 3 entry₁ (λ e. cc)
      (λ e. cc) (omega arith) refl

-- The byte that is overwritten is the frame number in the entry of another page.
store_swapped_example :
    (m' : Machine) × (store 0 20 99 two_processes ≡ ok 1 m')
    × (get_elem? m'.mem (5 + 20 % 16) ≡ some 99)
    × (m'.swapspace ≡ two_processes.swapspace)
    × (m'.freelist ≡ two_processes.freelist)
store_swapped_example = store_swapped 99 swapped_entry (omega arith)
