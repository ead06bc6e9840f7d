-- ===== src/Memory.antt =====
-- project4/memory.c, the memory simulator: four processes, four 16-byte frames, a swap file.
pub mod State
pub mod Text
pub mod Sound
pub mod Swap
pub mod Frames
pub mod Paging
pub mod Evict
pub mod Commands
pub mod Console
pub mod Virtual
mod Runs
mod SoundTests
mod SwapTests
mod Tests
