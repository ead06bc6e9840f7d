-- ===== src/Memory/SwapTests.antt =====
-- The theorems about the swap file of project4/memory.c at a file with one page.
use cs3013_operating_systems.Prelude.{ℕ, ◌≡◌, refl, List, [], ◌∷◌, ◌++◌, arith, pos, replicate}
use cs3013_operating_systems.Memory.State.{Machine, ok, init}
use cs3013_operating_systems.Memory.Swap.Lines.{IsPage}
use cs3013_operating_systems.Memory.Swap.RoundTrip.{Holds, file_of}
use cs3013_operating_systems.Memory.Swap.Copy.{overwrite}
use cs3013_operating_systems.Memory.Paging.{bring_in}
use cs3013_operating_systems.Memory.Paging.RoundTrip.{page_out, page_out-Holds, bring_in-Holds}

abbrev page : List ℕ
page = 255 ∷ 0 ∷ 10 ∷ replicate 13 32

page-IsPage : IsPage page
page-IsPage = record {
  size = refl;
  bytes = (
    omega arith,
    (
      omega arith,
      (
        omega arith,
        (
          omega arith,
          (
            omega arith,
            (
              omega arith,
              (
                omega arith,
                (
                  omega arith,
                  (
                    omega arith,
                    (
                      omega arith,
                      (
                        omega arith,
                        (
                          omega arith,
                          (omega arith, (omega arith, (omega arith, (omega arith, tt)))),
                        ),
                      ),
                    ),
                  ),
                ),
              ),
            ),
          ),
        ),
      ),
    ),
  );
}

-- A swap file with one page, and a second one in the first frame.
abbrev with_swap_file : Machine
with_swap_file = record init {
  mem = page ++ replicate 48 0;
  linecount = 1;
  swapspace = file_of 0 (page ∷ []);
}

with_swap_file-Holds : Holds with_swap_file (page ∷ [])
with_swap_file-Holds = record {
  text = refl;
  lines = refl;
  pages = (page-IsPage, tt);
  few = omega arith;
}

page_out_example :
    let m' = record with_swap_file { linecount = 2; swapspace = file_of 0 (page ∷ page ∷ []) } in
    (page_out (pos 0) with_swap_file ≡ ok 1 m') × Holds m' (page ∷ page ∷ [])
page_out_example =
    page_out-Holds page 0 with_swap_file-Holds
      (
        refl,
        (
          refl,
          (
            refl,
            (
              refl,
              (
                refl,
                (
                  refl,
                  (
                    refl,
                    (refl, (refl, (refl, (refl, (refl, (refl, (refl, (refl, (refl, tt))))))))),
                  ),
                ),
              ),
            ),
          ),
        ),
      )
      page-IsPage (omega arith)

bring_in_example :
    bring_in (pos 0) (pos 32) with_swap_file
    ≡ ok tt (record with_swap_file { mem = overwrite 32 page with_swap_file.mem; overruns = 1 })
bring_in_example = bring_in-Holds 0 32 with_swap_file-Holds refl page-IsPage (omega arith)
