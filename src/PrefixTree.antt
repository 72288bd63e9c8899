-- ===== src/PrefixTree.antt =====
-- PrefixTree.cc and PrefixTree.hh: a tree of nodes with a slot per character, in a pool.
pub mod Contents
pub mod Node
pub mod Traverse
pub mod Query
pub mod Clear
pub mod Update
pub mod Erase
pub mod Incr
pub mod Iterate
pub mod Inspect
pub mod Encoding
pub mod ShortString
pub mod Store
pub mod StoreString
pub mod Reading
pub mod Exists
pub mod IncrDouble
pub mod Links
pub mod Create
pub mod Move
pub mod Widen
pub mod Shape
pub mod Growth
pub mod Drop
pub mod Prune
pub mod Keys
pub mod Write
mod GrowthExamples
pub mod Bump
mod Examples
