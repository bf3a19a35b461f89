-- ===== src/Process.antt =====
-- kernel/process.c and process.h: the process table and the round-robin scheduler.
pub mod Defs
pub mod Invariant
pub mod Scheduling
pub mod Create
pub mod Kill
pub mod Tick
pub mod Fairness
pub mod Frame
