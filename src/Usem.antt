-- ===== src/Usem.antt =====
-- include/threads/usem.h, the POSIX branch: the wrappers of `sem_t`. What the system calls answer
-- is given to the model: a list of answers, one for each call.
pub mod Retry
pub mod Deadline
pub mod Post
pub mod Dispatch
pub mod Mach
pub mod Branches
mod Tests
mod DispatchTests
