-- ===== src/HashTable.antt =====
-- HashTable.cc and HashTable.hh: a table of slots, each of which holds a key with its value, or a
-- chain of them.
pub mod Memory
pub mod Walk
pub mod Update
pub mod Incr
pub mod Iterate
pub mod Contents
pub mod Lookup
pub mod Frame
pub mod Held
pub mod Chains
pub mod Appended
pub mod Put
pub mod PutChain
pub mod PutSplit
pub mod Insert
pub mod InsertLookup
pub mod Clear
pub mod Create
pub mod Erase
pub mod IncrChain
mod Sample
mod Examples
