-- ===== src/Memory/Runs.antt =====
-- The program of project4/memory.c on its own inputs project4/test1.txt and test3.txt: the messages
-- are those recorded in project4/output.
use Prim.Native.String.{String}
use Prim.Native.Char.{code}
use cs3013_operating_systems.Prelude.{ℕ, ◌≡◌, refl, List, [], ◌∷◌, pos, replicate}
use cs3013_operating_systems.Memory.State.{
  Event, Machine, Place, num_pages, Run, ok, init, value_at, table_created, page_allocated, stored,
  altered, not_writeable, segfault, frame_swapped, page_loaded, table_swapped, table_loaded,
}
use cs3013_operating_systems.Memory.Text.{fgets, strtok, atoi, decimal}
use cs3013_operating_systems.Memory.Swap.{page_to_file, page_from_file, swap_to_mem}
use cs3013_operating_systems.Memory.Frames.{robin, count_free, find_free, page_of, clear_frame}
use cs3013_operating_systems.Memory.Paging.{
  find_pte, convert, remove_page, remove_page_table, load_page, load_page_table,
}
use cs3013_operating_systems.Memory.Evict.{free_space}
use cs3013_operating_systems.Memory.Commands.{map, store, load, command}
use cs3013_operating_systems.Memory.Console.{set_up, main}

abbrev printed : {A : Type 0} → Run A → List Event
printed (ok a m) = m.out
printed _ = []

abbrev codes : String → List ℕ
codes String.[] = []
codes (String.◌∷◌ c s) = code c ∷ codes s

abbrev test1 : String
test1 = "0,map,12,1\n0,store,13,1\n0,map,12,0\n0,store,13,0\n0,load,13,0\n0,store,33,12\n"

test1-printed :
    printed (main (codes test1) init)
    ≡ table_created 0 (pos 0)
      ∷ page_allocated 0 (pos 16)
      ∷ stored 1 (pos 29)
      ∷ altered
      ∷ not_writeable 13
      ∷ value_at 13 1
      ∷ segfault 33
      ∷ []
unfolding main fgets strtok atoi map find_pte free_space robin count_free find_free page_of store
    convert load
test1-printed = refl

-- Pages and a page table are swapped out and loaded again.
abbrev test3 : String
test3 =
    "0,map,1,1\n1,map,1,1\n0,store,5,232\n1,store,12,12\n2,map,1,1\n0,load,5,0\n1,load,12,0\n1,map,16,1\n3,map,1,1\n0,store,5,1\n0,load,5,0"

test3-printed :
    printed (main (codes test3) init)
    ≡ table_created 0 (pos 0)
      ∷ page_allocated 0 (pos 16)
      ∷ table_created 1 (pos 32)
      ∷ page_allocated 0 (pos 48)
      ∷ stored 232 (pos 21)
      ∷ stored 12 (pos 60)
      ∷ frame_swapped 3 1
      ∷ frame_swapped 1 2
      ∷ table_created 2 (pos 16)
      ∷ page_allocated 0 (pos 48)
      ∷ frame_swapped 3 3
      ∷ page_loaded 0 0 (pos 48)
      ∷ value_at 5 232
      ∷ frame_swapped 3 4
      ∷ page_loaded 0 1 (pos 48)
      ∷ value_at 12 12
      ∷ frame_swapped 3 5
      ∷ page_allocated 1 (pos 48)
      ∷ frame_swapped 3 6
      ∷ table_swapped (pos 0)
      ∷ table_created 3 (pos 0)
      ∷ page_allocated 0 (pos 48)
      ∷ frame_swapped 3 8
      ∷ table_loaded 0 (pos 48)
      ∷ frame_swapped 1 9
      ∷ page_loaded 0 0 (pos 16)
      ∷ stored 1 (pos 21)
      ∷ value_at 5 1
      ∷ []
unfolding main fgets strtok atoi decimal map find_pte free_space robin count_free find_free page_of
    store convert load command remove_page remove_page_table load_page load_page_table clear_frame
    page_to_file page_from_file swap_to_mem
test3-printed = refl

-- The globals before `main`, which C sets to zero.
abbrev globals : Machine
globals = record init {
  freelist = replicate num_pages 0;
  pages = replicate num_pages (pos 0);
  hardware = replicate num_pages (record { address = pos 0; inmem = Place.on_disk });
}

globals-set_up : set_up globals ≡ init
globals-set_up = refl
