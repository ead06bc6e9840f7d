-- ===== src/Kernel/Part1.antt =====
-- `interceptor_start` and `interceptor_end` of project2/part1/part1.c.
use cs3013_operating_systems.Prelude.{
  ℕ, ◌≡◌, ◌≢◌, Option, none, some, if◌then◌else◌, ◌==◌, arith, pos, minus_one,
}
use cs3013_operating_systems.Kernel.Control.{
  protect_bit, disable_page_protection, enable_page_protection, protect_bit-disable, enable-disable,
}
use cs3013_operating_systems.Kernel.Search.{Found, null, table_at, searching}
use cs3013_operating_systems.Kernel.Interceptor.{
  Kernel, boot, update, write_entry, ◌>>=◌, unprotect, protect, Calls, Loaded,
}

install : Calls → Kernel → Option Kernel
install c k = do
  k₁ ← write_entry c.nr_open c.new_sys_open (unprotect k)
  k₂ ← write_entry c.nr_close c.new_sys_close k₁
  k₃ ← write_entry c.nr_read c.new_sys_read k₂
  k₄ ← write_entry c.nr_syscall1 c.new_sys_syscall1 k₃
  some (protect k₄)

-- `interceptor_start`, on the result of the search
unfoldable pub interceptor_start : Calls → Found → Kernel → Loaded
unfolding install
interceptor_start c searching k = none
interceptor_start c null k = some (minus_one, record k { sys_call_table = none })
interceptor_start c (table_at a) k = do
  k' ← install c (record k {
    sys_call_table = some a;
    ref_sys_open = k.table c.nr_open;
    ref_sys_close = k.table c.nr_close;
    ref_sys_read = k.table c.nr_read;
  })
  some (pos 0, k')

unfoldable pub interceptor_end : Calls → Kernel → Option Kernel
interceptor_end c k = elim k.sys_call_table [
  | none ↦ some k
  | some a ↦ do
    k₁ ← write_entry c.nr_open k.ref_sys_open (unprotect k)
    k₂ ← write_entry c.nr_close k.ref_sys_close k₁
    k₃ ← write_entry c.nr_read k.ref_sys_read k₂
    k₄ ← write_entry c.nr_syscall1 k.ref_sys_cs3013_syscall1 k₃
    some (protect k₄)
]

-- The calls have numbers of their own.
pub record Distinct (c : Calls) : Type 0 where
  pub open_close : c.nr_open ≢ c.nr_close
  pub open_read : c.nr_open ≢ c.nr_read
  pub open_call : c.nr_open ≢ c.nr_syscall1
  pub close_read : c.nr_close ≢ c.nr_read
  pub close_call : c.nr_close ≢ c.nr_syscall1
  pub read_call : c.nr_read ≢ c.nr_syscall1

-- Loading succeeds and redirects the four calls and no other; unloading puts the handlers of
-- `open`, `close` and `read` back, but the entry of the fourth call, whose handler was never saved,
-- becomes NULL. The control register is in the end as it was.
pub unload_loses_call :
    (c : Calls) (table : ℕ → ℕ) (cr0 a : ℕ)
    → Distinct c
    → protect_bit cr0 ≡ 1
    → (k : Kernel) × (k' : Kernel) × (interceptor_start c (table_at a) (boot table cr0)
        ≡ some (pos 0, k))
      × (k.table c.nr_open ≡ c.new_sys_open)
      × (k.table c.nr_close ≡ c.new_sys_close)
      × (k.table c.nr_read ≡ c.new_sys_read)
      × (k.table c.nr_syscall1 ≡ c.new_sys_syscall1)
      × (interceptor_end c k ≡ some k')
      × ((i : ℕ) → k'.table i ≡ (if i == c.nr_syscall1 then 0 else table i))
      × (k'.cr0 ≡ cr0)
unfolding interceptor_start interceptor_end
unload_loses_call c table cr0 a d on = (
  k,
  k',
  simp (protect_bit-disable cr0),
  ground arith,
  ground arith,
  ground arith,
  ground arith,
  simp (protect_bit-disable k.cr0),
  λ i. ground arith,
  rw (enable-disable cr0 on) (enable-disable cr0 on),
)
  where
    k : Kernel
    k = record {
      table =
          update
            (update (update (update table c.nr_open c.new_sys_open) c.nr_close c.new_sys_close)
              c.nr_read c.new_sys_read)
            c.nr_syscall1 c.new_sys_syscall1;
      cr0 = enable_page_protection (disable_page_protection cr0);
      sys_call_table = some a;
      ref_sys_open = table c.nr_open;
      ref_sys_close = table c.nr_close;
      ref_sys_read = table c.nr_read;
      ref_sys_cs3013_syscall1 = 0;
      ref_sys_cs3013_syscall2 = 0;
    }

    k' : Kernel
    k' = record k {
      table =
          update
            (update
              (update (update k.table c.nr_open (table c.nr_open)) c.nr_close (table c.nr_close))
              c.nr_read (table c.nr_read))
            c.nr_syscall1 0;
      cr0 = enable_page_protection (disable_page_protection k.cr0);
    }
