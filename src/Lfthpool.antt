-- ===== src/Lfthpool.antt =====
-- include/threads/lfthpool.h, src/threads/lfthpool.c: a pool whose queue is a ring of another
-- library.
pub mod Queue
pub mod Step
pub mod Create
pub mod Invariant
pub mod Safety
pub mod EarlyWait
pub mod Join
pub mod Shutdown
pub mod OneClose
pub mod Refinement
pub mod Once
pub mod Memory
pub mod Remaining
pub mod Progress
pub mod Ending
pub mod Nearer
pub mod Fair
pub mod Finish
pub mod Kinds
pub mod Closing
pub mod AddTry
mod Tests
mod Endings
mod FairRuns
