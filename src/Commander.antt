-- ===== src/Commander.antt =====
-- project1/mc0.c, mc1.c and mc2.c, the three versions of the Mid-Day Commander.
pub mod Queue
pub mod Children
pub mod Menu
pub mod Numbers
pub mod Report
pub mod Shell
pub mod Version0
pub mod Version1
mod Tests
