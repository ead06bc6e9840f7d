-- ===== src/Bathroom.antt =====
-- project3/bathroom.c, a bathroom shared by two genders, and the threads and times of
-- project3/bathroomsim.c.
pub mod Monitor
pub mod Rand
pub mod Simulation
pub mod Statistics
pub mod System
pub mod Timers
pub mod Threads
mod Tests
