-- ===== src/Memory/Frames/Sound.antt =====
-- The machine's soundness through `findfree`, the counting loop and the clearing loop of
-- project4/memory.c.
use cs3013_operating_systems.Prelude.{ℕ, zero, suc, ◌+◌, arith, ℤ, pos, offset, ◌==◌, if◌then◌else◌}
use cs3013_operating_systems.Memory.State.{Machine, num_pages, page_mem}
use cs3013_operating_systems.Memory.Sound.{
  At, Ends, returns, Any, bind, branch, fetch-At, write_mem-At, write_freelist-At,
}
use cs3013_operating_systems.Memory.Frames.{
  find_free_loop, find_free, clear_loop, clear_frame, count_loop, count_free,
}

find_free_loop-At :
    {r : ℕ} {m : Machine} (n i : ℕ) → At r m → Ends (At r) Any (find_free_loop n i m)
unfolding find_free_loop
find_free_loop-At zero i h = returns h tt
find_free_loop-At (suc n) i h = bind (fetch-At h (λ m. m.freelist) (pos i)) λ free m₁ h₁ _.
    branch (free == 1) _ _
      (bind (write_freelist-At h₁ (pos i) 0 (omega arith)) λ u m₂ h₂ _. returns h₂ tt)
      (find_free_loop-At n (i + 1) h₁)

pub find_free-At : {r : ℕ} {m : Machine} → At r m → Ends (At r) Any (find_free m)
unfolding find_free
find_free-At h = find_free_loop-At num_pages 0 h

clear_loop-At :
    {r : ℕ} {m : Machine} (n : ℕ) (base : ℤ) (i : ℕ)
    → At r m
    → Ends (At r) Any (clear_loop n base i m)
unfolding clear_loop
clear_loop-At zero base i h = returns h tt
clear_loop-At (suc n) base i h =
    bind (write_mem-At h (offset base i) 0 (omega arith))
      λ u m₁ h₁ _. clear_loop-At n base (i + 1) h₁

pub clear_frame-At :
    {r : ℕ} {m : Machine} (base : ℤ) → At r m → Ends (At r) Any (clear_frame base m)
unfolding clear_frame
clear_frame-At base h = clear_loop-At page_mem base 0 h

count_loop-At : {r : ℕ} {m : Machine} (n i f : ℕ) → At r m → Ends (At r) Any (count_loop n i f m)
unfolding count_loop
count_loop-At zero i f h = returns h tt
count_loop-At (suc n) i f h =
    bind (fetch-At h (λ m. m.freelist) (pos i))
      λ free m₁ h₁ _. count_loop-At n (i + 1) (if free == 1 then f + 1 else f) h₁

pub count_free-At : {r : ℕ} {m : Machine} → At r m → Ends (At r) Any (count_free m)
unfolding count_free
count_free-At h = count_loop-At num_pages 0 0 h
