-- ===== src/ProcessLock.antt =====
-- ProcessLock.cc and ProcessLock.hh, the version for Linux: locks in shared memory whose word names
-- the process that holds them.
pub mod Token
pub mod Processes
pub mod Acquire
pub mod Turning
pub mod Progress
pub mod Query
pub mod Guard
pub mod Exclusion
pub mod Release
pub mod ReadWrite
mod Examples
