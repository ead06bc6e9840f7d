-- ===== src/Kernel/Interceptor.antt =====
-- Loading and unloading of project2/part1/part1.c and project2/part2/kernMod/kernsysinfo.c. The
-- numbers of the calls and the addresses of the handlers come from the kernel and the compiler.
use cs3013_operating_systems.Prelude.{ℕ, Option, none, some, if◌then◌else◌, ◌==◌, ℤ}
use cs3013_operating_systems.Kernel.Control.{
  protect_bit, disable_page_protection, enable_page_protection,
}

-- The entries of the system call table by number, the control register, and the globals of the
-- modules. A handler is an address, and 0 is NULL.
pub record Kernel : Type 0 where
  pub table : ℕ → ℕ
  pub cr0 : ℕ
  pub sys_call_table : Option ℕ
  pub ref_sys_open : ℕ
  pub ref_sys_close : ℕ
  pub ref_sys_read : ℕ
  pub ref_sys_cs3013_syscall1 : ℕ
  pub ref_sys_cs3013_syscall2 : ℕ

-- The kernel as a module finds it, with its own globals zero.
abbrev pub boot : (ℕ → ℕ) → ℕ → Kernel
boot table cr0 = record {
  table = table;
  cr0 = cr0;
  sys_call_table = none;
  ref_sys_open = 0;
  ref_sys_close = 0;
  ref_sys_read = 0;
  ref_sys_cs3013_syscall1 = 0;
  ref_sys_cs3013_syscall2 = 0;
}

abbrev pub update : (ℕ → ℕ) → ℕ → ℕ → ℕ → ℕ
update f i v j = if i == j then v else f j

-- A write to the table, which is read only while the protect bit is on: then it faults (`none`).
abbrev pub write_entry : ℕ → ℕ → Kernel → Option Kernel
write_entry i v k =
    if protect_bit k.cr0 == 0 then some (record k { table = update k.table i v }) else none

infixl 5 ◌>>=◌
abbrev pub ◌>>=◌ : {A B : Type 0} → Option A → (A → Option B) → Option B
some a >>= f = f a
none >>= f = none

abbrev pub unprotect : Kernel → Kernel
unprotect k = record k { cr0 = disable_page_protection k.cr0 }

abbrev pub protect : Kernel → Kernel
protect k = record k { cr0 = enable_page_protection k.cr0 }

-- The numbers of the calls, and the addresses of the module's handlers.
pub record Calls : Type 0 where
  pub nr_open : ℕ
  pub nr_close : ℕ
  pub nr_read : ℕ
  pub nr_syscall1 : ℕ
  pub nr_syscall2 : ℕ
  pub new_sys_open : ℕ
  pub new_sys_close : ℕ
  pub new_sys_read : ℕ
  pub new_sys_syscall1 : ℕ
  pub new_sys_syscall2 : ℕ

-- What `insmod` gets: the return value, and the kernel. `none` is a fault or an endless search.
abbrev pub Loaded : Type 0
Loaded = Option (ℤ × Kernel)
