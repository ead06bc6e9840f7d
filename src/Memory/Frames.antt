-- ===== src/Memory/Frames.antt =====
-- Frames and virtual pages in project4/memory.c: `findfree`, `robin`, and the loop that finds the
-- virtual page of an address.
pub mod Laws
pub mod Sound
use mathlib.Core.WellFounded.{Acc}
use cs3013_operating_systems.Prelude.{
  ℕ, zero, suc, ◌+◌, ◌-◌, ◌*◌, ◌/◌, ◌%◌, ◌<◌, if◌then◌else◌, ◌==◌, dite, dec_lt, arith, ℤ, pos,
  negsuc, minus_one, sub_ℕ, offset,
}
use cs3013_operating_systems.Prelude.Order.{lt_wf}
use cs3013_operating_systems.Memory.State.{
  Machine, ok, Cmd, pure, ◌>>=◌, ◌>>◌, fetch, write_freelist, write_mem, page_mem, num_pages,
}

-- `while (v > 16) { v -= 16; vpage++; } if (v == 16) vpage++;`
page_loop : (v vpage : ℕ) → Acc ◌<◌ v → ℕ
page_loop v vpage (Acc.intro _ smaller) =
    dite (dec_lt 16 v) (λ more. page_loop (v - 16) (vpage + 1) (smaller (v - 16) (omega arith)))
      (λ _. if v == 16 then vpage + 1 else vpage)

unfoldable pub page_of : ℕ → ℕ
unfolding page_loop lt_wf dec_lt
page_of vaddr = page_loop vaddr 0 (lt_wf.apply vaddr)

-- `a / PAGEMEM`, which rounds towards zero
abbrev pub frame_of : ℤ → ℤ
frame_of (pos a) = pos (a / page_mem)
frame_of (negsuc a) = sub_ℕ 0 (suc a / page_mem)

find_free_loop : ℕ → ℕ → Cmd ℤ
find_free_loop zero i = pure minus_one
find_free_loop (suc n) i = do
  free ← fetch (λ m. m.freelist) (pos i)
  if free == 1
      then (do write_freelist (pos i) 0; pure (pos (i * page_mem)))
      else find_free_loop n (i + 1)

unfoldable pub find_free : Cmd ℤ
unfolding find_free_loop
find_free = find_free_loop num_pages 0

unfoldable pub robin : Cmd (Unit {0})
robin m = ok tt (record m { roundrobin = (m.roundrobin + 1) % 4 })

-- `for (i = 0; i < PAGEMEM; i++) mem[base + i] = 0;`
clear_loop : ℕ → ℤ → ℕ → Cmd (Unit {0})
clear_loop zero base i = pure tt
clear_loop (suc n) base i = do write_mem (offset base i) 0; clear_loop n base (i + 1)

unfoldable pub clear_frame : ℤ → Cmd (Unit {0})
unfolding clear_loop
clear_frame base = clear_loop page_mem base 0

-- The number of ones in `freelist`.
count_loop : ℕ → ℕ → ℕ → Cmd ℕ
count_loop zero i f = pure f
count_loop (suc n) i f = do
  free ← fetch (λ m. m.freelist) (pos i)
  count_loop n (i + 1) (if free == 1 then f + 1 else f)

unfoldable pub count_free : Cmd ℕ
unfolding count_loop
count_free = count_loop num_pages 0 0
