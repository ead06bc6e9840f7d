-- ===== src/Kernel/Part2.antt =====
-- `interceptor_start` and `interceptor_end` of project2/part2/kernMod/kernsysinfo.c.
use cs3013_operating_systems.Prelude.{
  ℕ, ◌≡◌, Option, none, some, if◌then◌else◌, ◌==◌, arith, pos, minus_one,
}
use cs3013_operating_systems.Kernel.Control.{
  protect_bit, disable_page_protection, enable_page_protection, protect_bit-disable, enable-disable,
}
use cs3013_operating_systems.Kernel.Search.{Found, null, table_at, searching}
use cs3013_operating_systems.Kernel.Interceptor.{
  Kernel, boot, update, write_entry, ◌>>=◌, unprotect, protect, Calls, Loaded,
}

unfoldable pub interceptor_start : Calls → Found → Kernel → Loaded
interceptor_start c searching k = none
interceptor_start c null k = some (minus_one, record k { sys_call_table = none })
interceptor_start c (table_at a) k = do
  let saved = record k { sys_call_table = some a; ref_sys_cs3013_syscall2 = k.table c.nr_syscall2 }
  k' ← write_entry c.nr_syscall2 c.new_sys_syscall2 (unprotect saved)
  some (pos 0, protect k')

unfoldable pub interceptor_end : Calls → Kernel → Option Kernel
interceptor_end c k = elim k.sys_call_table [
  | none ↦ some k
  | some a ↦ do
    k' ← write_entry c.nr_syscall2 k.ref_sys_cs3013_syscall2 (unprotect k)
    some (protect k')
]

-- Loading succeeds and redirects one call; unloading then leaves the table and the control register
-- as they were.
pub unload_after_load :
    (c : Calls) (table : ℕ → ℕ) (cr0 a : ℕ)
    → protect_bit cr0 ≡ 1
    → (k : Kernel) × (k' : Kernel) × (interceptor_start c (table_at a) (boot table cr0)
        ≡ some (pos 0, k))
      × ((i : ℕ) → k.table i ≡ (if i == c.nr_syscall2 then c.new_sys_syscall2 else table i))
      × (interceptor_end c k ≡ some k')
      × ((i : ℕ) → k'.table i ≡ table i)
      × (k'.cr0 ≡ cr0)
unfolding interceptor_start interceptor_end
unload_after_load c table cr0 a on =
    (k, k', run, λ i. ground arith, back, λ i. ground arith, restored)
  where
    k : Kernel
    k = record (boot table cr0) {
      table = update table c.nr_syscall2 c.new_sys_syscall2;
      cr0 = enable_page_protection (disable_page_protection cr0);
      sys_call_table = some a;
      ref_sys_cs3013_syscall2 = table c.nr_syscall2;
    }

    k' : Kernel
    k' = record k {
      table = update k.table c.nr_syscall2 (table c.nr_syscall2);
      cr0 = enable_page_protection (disable_page_protection k.cr0);
    }

    run : interceptor_start c (table_at a) (boot table cr0) ≡ some (pos 0, k)
    run = rw (protect_bit-disable cr0)

    back : interceptor_end c k ≡ some k'
    back = rw (protect_bit-disable k.cr0)

    restored : k'.cr0 ≡ cr0
    restored = rw (enable-disable cr0 on) (enable-disable cr0 on)
