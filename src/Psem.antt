-- ===== src/Psem.antt =====
-- include/threads/psem.h: a mutex and a condition variable, wrapped one call at a time.
pub mod Step
pub mod Invariant
pub mod Safety
pub mod Alone
pub mod Wake
pub mod Destroy
mod Tests
