-- ===== src/Process.antt =====
-- process.c: processes. Its child models the page tables of a new process.
pub mod PageTable
pub mod Kernel
pub mod Fork
pub mod Steps
pub mod Exec
mod Tests
