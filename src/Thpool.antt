-- ===== src/Thpool.antt =====
-- src/threads/thpool.c: the mutex-locked thread pool.
pub mod Pool
pub mod Ring
pub mod Add
pub mod Create
pub mod Shared
pub mod Worker
pub mod Client
pub mod System
mod Tests
mod Schedules
mod Endings
mod FairRuns
