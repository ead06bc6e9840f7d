-- ===== src/Memory/Paging/RoundTrip.antt =====
-- A frame that is written to the swap file, and a page of the swap file that is brought back.
use cs3013_operating_systems.Prelude.{
  ℕ, ◌+◌, ◌^◌, ◌<◌, ◌≤◌, ◌≡◌, refl, some, List, [], ◌∷◌, ◌++◌, arith, ℤ, pos, length, length-append,
  get_elem?, All-append,
}
use cs3013_operating_systems.Memory.State.{Machine, ok, Cmd, ◌>>=◌, page_mem}
use cs3013_operating_systems.Memory.Swap.{page_to_file}
use cs3013_operating_systems.Memory.Swap.Lines.{IsPage}
use cs3013_operating_systems.Memory.Swap.RoundTrip.{Holds, file_of, page_from_file-Holds}
use cs3013_operating_systems.Memory.Swap.Copy.{
  StandsAt, page_to_file-file_of, overwrite, swap_to_mem-overwrite,
}
use cs3013_operating_systems.Memory.Paging.{bring_in, next_line}

-- `pageToFile(mem, linecount++, base)`
abbrev pub page_out : ℤ → Cmd ℕ
page_out base = do n ← next_line; page_to_file n base

-- Where the swap file holds pages and a page stands in memory at the base, `pageToFile` with
-- `linecount++` returns the line number from before, and the file then holds that page as its last.
pub page_out-Holds :
    {m : Machine} {ps : List (List ℕ)} (p : List ℕ) (base : ℕ)
    → Holds m ps
    → StandsAt m.mem base p
    → IsPage p
    → length ps < 10 ^ 10
    → let m' = record m { linecount = m.linecount + 1; swapspace = file_of 0 (ps ++ (p ∷ [])) } in
      (page_out (pos base) m ≡ ok m.linecount m') × Holds m' (ps ++ (p ∷ []))
unfolding next_line
page_out-Holds {m} {ps} p base h stands page few = (
  page_to_file-file_of ps m.linecount p base h.text h.lines stands page,
  record {
    text = refl;
    lines = rw length-append (omega (arith, h.lines));
    pages = All-append IsPage ps _ h.pages (page, tt);
    few = rw length-append (omega arith);
  },
)

-- Where the swap file holds the page `p` as number `i`, bringing line `i` in to the frame at `f`
-- writes the bytes of `p` there, makes one write behind the local buffer of sixteen bytes, and changes
-- nothing else of the globals.
pub bring_in-Holds :
    {m : Machine} {ps : List (List ℕ)} {p : List ℕ} (i f : ℕ)
    → Holds m ps
    → get_elem? ps i ≡ some p
    → IsPage p
    → f + page_mem ≤ length m.mem
    → bring_in (pos i) (pos f) m
      ≡ ok tt (record m { mem = overwrite f p m.mem; overruns = m.overruns + 1 })
unfolding bring_in
bring_in-Holds {m} {p} i f h e page fits =
    let counted : Machine = record m { overruns = m.overruns + 1 } in
    rw (page_from_file-Holds i h e, swap_to_mem-overwrite p (0 ∷ []) f counted page.size fits)
