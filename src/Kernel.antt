-- ===== src/Kernel.antt =====
-- The kernel modules of project2, which rewrite the system call table, and a program that uses one.
pub mod Ancestry
pub mod ProcAncestry
pub mod Control
pub mod Search
pub mod Interceptor
pub mod Calls
pub mod Part1
pub mod Part2
mod Tests
