-- ===== src/LogarithmicAllocator.antt =====
-- LogarithmicAllocator.cc and LogarithmicAllocator.hh: the lists of free blocks, one for each order.
pub mod Blocks
pub mod Lists
pub mod Span
pub mod Listed
pub mod Append
pub mod Places
pub mod Unlink
mod Examples
