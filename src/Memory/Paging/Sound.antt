-- ===== src/Memory/Paging/Sound.antt =====
-- The machine's soundness through translation and the moves of tables and pages in project4/memory.c.
use cs3013_operating_systems.Prelude.{
  ℕ, zero, suc, ◌+◌, ◌*◌, arith, ℤ, pos, minus_one, offset, pred_ℤ, to_uchar, ◌==◌, some, none,
  Option, List,
}
use cs3013_operating_systems.Memory.State.{
  Machine, Hp, and_then, or_fault, on_disk, in_memory, unset, Cmd, pure, pte_size, Place,
  pfn_offset, valpres_offset,
}
use cs3013_operating_systems.Memory.Sound.{
  At, Ends, returns, faults, Any, bind, weaken, branch, read_mem-At, fetch-At, write_mem-At,
  write_freelist-At, write_pages-At, write_ispagetable-At, write_hardware-At,
}
use cs3013_operating_systems.Memory.Swap.Sound.{
  to_uchar-IsByte, Buffer, page_to_file-At, page_from_file-At, swap_to_mem-At,
}
use cs3013_operating_systems.Memory.Swap.{swap_to_mem}
use cs3013_operating_systems.Memory.Frames.{frame_of, page_of}
use cs3013_operating_systems.Memory.Frames.Sound.{find_free-At, clear_frame-At}
use cs3013_operating_systems.Memory.Paging.{
  find_pte, bring_in, load_page_table, load_page, remove_page_table, owner_loop, remove_page,
  entry_target, convert,
}

pub find_pte-At :
    {r : ℕ} {m : Machine} (pid : ℤ) (vaddr : ℕ) → At r m → Ends (At r) Any (find_pte pid vaddr m)
unfolding find_pte
find_pte-At pid vaddr h = bind (fetch-At h (λ m. m.hardware) pid) λ hp m₁ h₁ _. returns h₁ tt

bring_in-At :
    {r : ℕ} {m : Machine} (line free : ℤ) → At r m → Ends (At r) Any (bring_in line free m)
unfolding bring_in
bring_in-At {r} line free h = bind (page_from_file-At line h) copied
  where
    copied :
        (found : Option (List ℕ)) (m₁ : Machine)
        → At r m₁
        → Buffer found
        → Ends (At r) Any (and_then (or_fault found m₁) (λ temp. swap_to_mem temp free))
    copied none m₁ h₁ b = faults
    copied (some temp) m₁ h₁ b = swap_to_mem-At temp free b h₁

pub load_page_table-At :
    {r : ℕ} {m : Machine} (pid : ℕ) → At r m → Ends (At r) Any (load_page_table pid m)
unfolding load_page_table
load_page_table-At pid h = bind (fetch-At h (λ m. m.hardware) (pos pid)) λ hp m₁ h₁ _.
    bind (find_free-At h₁) λ free m₂ h₂ _. bind (bring_in-At hp.address free h₂) λ u m₃ h₃ _.
      bind (write_pages-At h₃ (frame_of free) (pos pid)) λ u m₄ h₄ _.
        bind (write_hardware-At h₄ (pos pid) (record { address = free; inmem = in_memory }))
          λ u m₅ h₅ _.
            bind (write_ispagetable-At h₅ (frame_of free) 1 (omega arith))
              λ u m₆ h₆ _. returns (search h₆) tt

pub load_page-At :
    {r : ℕ} {m : Machine} (pid vaddr : ℕ) → At r m → Ends (At r) Any (load_page pid vaddr m)
unfolding load_page
load_page-At pid vaddr h = bind (find_pte-At (pos pid) vaddr h) λ pte m₁ h₁ _.
    bind (read_mem-At h₁ (offset pte pfn_offset)) λ line m₂ h₂ _.
      bind (find_free-At h₂) λ free m₃ h₃ _. bind (bring_in-At (pos line) free h₃) λ u m₄ h₄ _.
        bind (write_pages-At h₄ (frame_of free) (pos pid)) λ u m₅ h₅ _.
          bind (find_pte-At (pos pid) vaddr h₅) λ pte' m₆ h₆ _.
            bind (write_mem-At h₆ (offset pte' pfn_offset) (to_uchar free) (to_uchar-IsByte free))
              λ u m₇ h₇ _. bind (find_pte-At (pos pid) vaddr h₇) λ pte'' m₈ h₈ _.
                bind (write_mem-At h₈ (offset pte'' valpres_offset) 2 (omega arith))
                  λ u m₉ h₉ _. returns (search h₉) tt

pub remove_page_table-At :
    {r : ℕ} {m : Machine} (pid : ℤ) → At r m → Ends (At r) Any (remove_page_table pid m)
unfolding remove_page_table
remove_page_table-At {r} pid h = bind (find_pte-At pid 0 h) λ pt m₁ h₁ _.
    let h₂ : At r (record m₁ { linecount = m₁.linecount + 1 }) = search h₁ in
    bind (page_to_file-At m₁.linecount pt h₂) λ line m₃ h₃ _.
      bind (write_hardware-At h₃ pid (record { address = pos line; inmem = on_disk })) λ u m₄ h₄ _.
        bind (write_freelist-At h₄ (frame_of pt) 1 (omega arith)) λ u m₅ h₅ _.
          bind (write_ispagetable-At h₅ (frame_of pt) 0 (omega arith)) λ u m₆ h₆ _.
            bind (clear_frame-At pt h₆) λ u m₇ h₇ _.
              bind (write_pages-At h₇ (frame_of pt) minus_one) λ u m₈ h₈ _. returns (search h₈) tt

owner_loop-At :
    {r : ℕ} {m : Machine} (n paddr : ℕ) (pte : ℤ) (i vp : ℕ)
    → At r m
    → Ends (At r) Any (owner_loop n paddr pte i vp m)
unfolding owner_loop
owner_loop-At zero paddr pte i vp h = returns h tt
owner_loop-At (suc n) paddr pte i vp h = bind (read_mem-At h (offset pte i)) λ b m₁ h₁ _.
    bind {Q = Any}
      (branch (b == paddr) _ _ (weaken (read_mem-At h₁ (pred_ℤ (offset pte i)))) (returns h₁ tt))
      λ vp' m₂ h₂ _. owner_loop-At n paddr pte (i + 1) vp' h₂

pub remove_page-At :
    {r : ℕ} {m : Machine} (pid : ℤ) (paddr : ℕ) → At r m → Ends (At r) Any (remove_page pid paddr m)
unfolding remove_page
remove_page-At {r} pid paddr h = bind (find_pte-At pid 0 h) λ pte m₁ h₁ _.
    bind (owner_loop-At 16 paddr pte 0 0 h₁) λ vp m₂ h₂ _.
      let h₃ : At r (record m₂ { linecount = m₂.linecount + 1 }) = search h₂ in
      bind (page_to_file-At m₂.linecount (pos paddr) h₃) λ fadr m₄ h₄ _.
        bind (write_mem-At h₄ _ (to_uchar (pos fadr)) (to_uchar-IsByte (pos fadr))) λ u m₅ h₅ _.
          bind (write_mem-At h₅ _ 1 (omega arith)) λ u m₆ h₆ _.
            bind (clear_frame-At (pos paddr) h₆) λ u m₇ h₇ _.
              bind (write_freelist-At h₇ (frame_of (pos paddr)) 1 (omega arith))
                λ u m₈ h₈ _. write_pages-At h₈ (frame_of (pos paddr)) minus_one

entry_target-At :
    {r : ℕ} {m : Machine} (vaddr : ℕ) (pte : ℤ)
    → At r m
    → Ends (At r) Any (entry_target vaddr pte m)
entry_target-At vaddr pte h = bind (read_mem-At h (offset pte valpres_offset)) λ valpres m₁ h₁ _.
    branch (valpres == 0) _ _ (returns h₁ tt)
      (bind (read_mem-At h₁ (offset pte pfn_offset)) λ pfn m₂ h₂ _. returns h₂ tt)

pub convert-At :
    {r : ℕ} {m : Machine} (vaddr pid : ℕ) → At r m → Ends (At r) Any (convert vaddr pid m)
unfolding convert
convert-At {r} vaddr pid h =
    bind (fetch-At h (λ m. m.hardware) (pos pid)) λ hp m₁ h₁ _. target hp hp.inmem h₁
  where
    target :
        (hp : Hp) (p : Place) {m : Machine}
        → At r m
        → Ends (At r) Any (
            (let c : Cmd ℤ = elim p [
              | in_memory ↦ entry_target vaddr (offset hp.address (pte_size * page_of vaddr))
              | _ ↦ pure minus_one
            ] in
                c)
              m)
    target hp in_memory h' = entry_target-At vaddr (offset hp.address (pte_size * page_of vaddr)) h'
    target hp on_disk h' = returns h' tt
    target hp unset h' = returns h' tt
