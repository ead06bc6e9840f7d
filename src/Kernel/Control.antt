-- ===== src/Kernel/Control.antt =====
-- Write protection in project2/part1/part1.c and project2/part2/kernMod/kernsysinfo.c: bit 16 of
-- the control register, written as arithmetic on a register of any width above it.
use cs3013_operating_systems.Prelude.{ℕ, ◌+◌, ◌*◌, ◌/◌, ◌%◌, ◌^◌, ◌≡◌, arith}

abbrev pub protect_bit : ℕ → ℕ
protect_bit cr0 = cr0 / 2 ^ 16 % 2

-- `cr0 & ~0x10000`
unfoldable pub disable_page_protection : ℕ → ℕ
disable_page_protection cr0 = cr0 / 2 ^ 17 * 2 ^ 17 + cr0 % 2 ^ 16

-- `cr0 | 0x10000`
unfoldable pub enable_page_protection : ℕ → ℕ
enable_page_protection cr0 = cr0 / 2 ^ 17 * 2 ^ 17 + 2 ^ 16 + cr0 % 2 ^ 16

pub protect_bit-disable : (cr0 : ℕ) → protect_bit (disable_page_protection cr0) ≡ 0
unfolding disable_page_protection
protect_bit-disable cr0 = omega arith

-- Turning the protection off and on again leaves the register as it was, where it was on.
pub enable-disable :
    (cr0 : ℕ) → protect_bit cr0 ≡ 1 → enable_page_protection (disable_page_protection cr0) ≡ cr0
unfolding disable_page_protection enable_page_protection
enable-disable cr0 on = omega arith
