-- ===== src/Memory/Evict/Enough.antt =====
-- `freespace` where enough frames are free already.
use cs3013_operating_systems.Prelude.{ℕ, ◌+◌, ◌%◌, ◌≤◌, ◌≡◌, arith, ℤ, length, ltb, false}
use cs3013_operating_systems.Memory.State.{Machine, ok, num_pages}
use cs3013_operating_systems.Memory.Frames.{robin}
use cs3013_operating_systems.Memory.Frames.Laws.{ones, count_free-ones}
use cs3013_operating_systems.Memory.Evict.{free_space, page_rounds, table_rounds}

abbrev pub turn : Machine → Machine
turn m = record m { roundrobin = (m.roundrobin + 1) % 4 }

-- With `n` frames free, `freespace` only moves its counter on.
pub free_space_enough :
    (m : Machine) (n : ℕ) (pid : ℤ)
    → length m.freelist ≡ num_pages
    → n ≤ ones m.freelist
    → free_space n pid m ≡ ok tt (turn m)
unfolding free_space page_rounds table_rounds robin
free_space_enough m n pid l h =
    let enough : ltb (ones m.freelist) n ≡ false = ground arith in
    rw (count_free-ones (turn m) l, enough) (rw enough)
