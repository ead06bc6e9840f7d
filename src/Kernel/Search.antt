-- ===== src/Kernel/Search.antt =====
-- `find_sys_call_table` of project2: the search of the kernel's memory for the system call table.
use cs3013_operating_systems.Prelude.{
  ℕ, zero, suc, ◌+◌, ◌-◌, ◌*◌, ◌%◌, ◌^◌, ◌<◌, ◌≡◌, ◌≢◌, true, false, if◌then◌else◌, ltb, ◌==◌,
  arith, ap, sym, subst, ==_iff,
}

-- `NULL`, a table at an address, or a search that is not finished.
pub data Found : Type 0 where
  null : Found
  table_at : ℕ → Found
  searching : Found

abbrev pub ullong_max : ℕ
ullong_max = 2 ^ 64 - 1

-- The words of memory, the number of `close`, and the address of `sys_close`.
module _ (word : ℕ → ℕ) (nr_close sys_close : ℕ) where
  -- `sct[__NR_close]` for a table at `offset`
  abbrev pub close_entry : ℕ → ℕ
  close_entry offset = word ((offset + 8 * nr_close) % 2 ^ 64)

  -- The loop, with the rounds that it is given; `offset += sizeof(void *)` wraps.
  unfoldable pub search : ℕ → ℕ → Found
  search zero offset = searching
  search (suc k) offset =
      let rest = search k ((offset + 8) % 2 ^ 64) in
      if ltb offset ullong_max
      then if close_entry offset == sys_close then table_at offset else rest
      else null

  -- With a round more than there are words before it, the search finds the first table from its start
  -- on, where that does not pass the end of the range.
  pub search-first :
      (k fuel offset : ℕ)
      → offset + 8 * k < ullong_max
      → k < fuel
      → close_entry (offset + 8 * k) ≡ sys_close
      → ((j : ℕ) → j < k → close_entry (offset + 8 * j) ≢ sys_close)
      → search fuel offset ≡ table_at (offset + 8 * k)
  unfolding search
  search-first k zero offset low enough here before = absurd (omega arith)
  search-first zero (suc fuel) offset low enough here before =
      let start : offset + 8 * 0 ≡ offset = omega arith in
      let inside : ltb offset ullong_max ≡ true = ground arith in
      let hit : (close_entry offset == sys_close) ≡ true =
        (==_iff _ _).1 (subst (λ a. close_entry a ≡ sys_close) start here) in
      rw (inside, hit) (ap table_at (sym start))
  search-first (suc k) (suc fuel) offset low enough here before =
      let start : offset + 8 * 0 ≡ offset = omega arith in
      let inside : ltb offset ullong_max ≡ true = ground arith in
      let step : (j : ℕ) → offset + 8 * suc j ≡ offset + 8 + 8 * j = λ j. omega arith in
      let next : (offset + 8) % 2 ^ 64 ≡ offset + 8 = omega arith in
      let other : close_entry offset ≢ sys_close =
        subst (λ a. close_entry a ≢ sys_close) start (before 0 (omega arith)) in
      let miss : (close_entry offset == sys_close) ≡ false = ground (arith, other) in
      rw (inside, miss, next, step k)
        (search-first k fuel (offset + 8) (omega arith) (omega arith)
          (subst (λ a. close_entry a ≡ sys_close) (step k) here)
          (λ j l. subst (λ a. close_entry a ≢ sys_close) (step j) (before (suc j) (omega arith))))

  -- From an aligned address the search never gives up: the offset wraps to 0 before it can reach
  -- the end of the range, so that NULL is never returned.
  pub search-ne-null :
      (fuel offset : ℕ) → offset % 8 ≡ 0 → offset < 2 ^ 64 → search fuel offset ≢ null
  unfolding search
  search-ne-null zero offset aligned low e = cc
  search-ne-null (suc fuel) offset aligned low e =
      ground (arith, search-ne-null fuel ((offset + 8) % 2 ^ 64), e)
