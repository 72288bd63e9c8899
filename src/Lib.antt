-- ===== src/Lib.antt =====
-- sharedstructures: data structures in memory that several processes share.
--
-- A pool is a shared segment, mapped by each process that uses it. An allocator hands out blocks
-- of a pool and keeps its header at the start of it. A data structure stands in blocks of an
-- allocator and refers to them by offsets from the start of the pool, since processes map it at
-- different addresses.
--
-- * Pool (Pool.cc, Pool.hh): one process' view of the segment and its mapping. `expand` and
--   `check_size_and_remap` are the functions of these names, `open_pool` is the constructor, and
--   `called_offset` the file offset that `map_and_call` hands to its callback. The operating
--   system is the record Os: whether a file can be opened, a segment be resized and be mapped.
--   Pool/Expand and Pool/Window are about them.
-- * SimpleAllocator (SimpleAllocator.cc, SimpleAllocator.hh): the header and, at each offset,
--   what is read there as an AllocatedBlock. `allocate`, `free`, `block_size`, `repair`, `lock`
--   and `construct` are the functions of these names, the last one the constructor; their
--   branches are functions of their own. Arithmetic wraps at 2 ^ 64. SimpleAllocator/Layout says
--   which blocks a state stands for, as a list in address order; Links, Insert, Search, Place,
--   Request and Allocate lead to `allocate`, Unlink and Free to `free`, Apart and Repair are
--   about the bytes of the blocks and `repair`.
-- * Allocator (Allocator.hh): what a data structure relies on in an allocator, as a record of
--   operations and laws.
-- * PrefixTree (PrefixTree.cc, PrefixTree.hh), over any Allocator: a tree of nodes with one slot
--   per character of a range. Contents has the encoding of slots, Node the nodes and the memory,
--   which is read at an offset as a node, as an eight-byte number or as a string's bytes;
--   Traverse, Query, Clear, Update, Erase, Incr, Iterate and Inspect have the operations. The
--   record Doubles holds the arithmetic of doubles, on their bits. Encoding, ShortString, Store
--   and StoreString are about values in slots; Reading, Exists and IncrDouble about lookups;
--   Links, Create, Move, Widen, Shape and Growth about the nodes that a traversal creates, Drop
--   and Prune about those that erase deletes, Keys and Write about the slot of a key.
--
-- * HashTable (HashTable.cc, HashTable.hh), over any Allocator. Memory has the structs, with the
--   slots by their index and the pool's bytes where pairs stand; Walk, Update, Incr and Iterate
--   have the operations, under their names. A loop over a chain is given its number of rounds as
--   `fuel`, and a chain needs one round for each node and one more. Contents says what a slot
--   holds, Held that all slots do, in blocks of their own; Lookup is about what is found, Frame,
--   Chains, Appended, Put, PutChain and PutSplit lead to Insert and InsertLookup, and Create,
--   Clear, Erase and IncrChain are about the operations of these names. The table's slots are in
--   a block that is there, so walk_tables' answer for a slots_offset of 0 is left out. Slot
--   numbers are a hash modulo 2 ^ bits, with fewer than 31 bits.
-- * LogarithmicAllocator (LogarithmicAllocator.cc, LogarithmicAllocator.hh): the words that a
--   block begins with, in Blocks, and the lists of free blocks, one for each order, in Lists,
--   with `create_free_block`, which has no result where its assertion fails, and `unlink_block`;
--   the reports `block_size` and `bytes_free`. Span says which blocks are linked in both
--   directions, Listed what each list holds; Append and Unlink are about the two operations,
--   Places about lists of different places.
-- * ProcessLock (ProcessLock.cc, ProcessLock.hh), the version for Linux. Token has the words that
--   name a process, Acquire and Release the functions acquire_process_lock and
--   wait_for_reader_release, one atomic access, system call or question about a process at a
--   time; Guard and ReadWrite have the constructors and destructors of the two guards in these
--   steps, and worlds of processes that start, die and take steps in any order. Processes says
--   what is assumed of ids: they fit in the eighteen bits of a token, and none is given again
--   while its token would be that of a process that has ended. A futex wait that ends as woken
--   does so at a changed word; a wake-up call does not fail. Query has is_locked and
--   reader_count.
--
-- A call that may throw gives an Outcome: a value or an exception, and the state it leaves. Locks
-- are taken around whole operations, so an operation of an allocator or a data structure is one
-- step; that a lock was stolen from a process that died is an argument of SimpleAllocator's
-- `lock`.
--
-- Loops over blocks have as many rounds of fuel as the pool has bytes, and one more: blocks lie
-- apart. Recursion over the tree has a level of fuel for each node and two more, and iteration a
-- number of rounds for each node: in a tree in order each of its slots is passed once.
--
-- Not modelled: ProcessLock for Mac OS; of LogarithmicAllocator what is not named above; of
-- PrefixTree the iterator class; of PrefixTree and HashTable the constructor that looks for a
-- base object, and the output for people (print, get_structure, str); the Python module, tests
-- and benchmarks.
mod Base
pub mod Outcome
pub mod Pool
pub mod SimpleAllocator
pub mod Allocator
pub mod PrefixTree
pub mod HashTable
pub mod LogarithmicAllocator
pub mod ProcessLock
