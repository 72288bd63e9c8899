-- ===== src/PrefixTree/IncrDouble.antt =====
-- PrefixTree::incr of a double where there was none, by zero.
use sharedstructures.Allocator.{Allocator}
