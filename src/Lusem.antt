-- ===== src/Lusem.antt =====
-- include/threads/lusem.h and src/threads/lusem.c: the lightweight semaphore.
pub mod State
pub mod Step
pub mod Views
pub mod Invariant
pub mod Safety
pub mod Refinement
pub mod Doubled
pub mod Posting
mod Tests
