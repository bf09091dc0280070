-- ===== src/NeighCache.antt =====
-- mstack/mstack/neigh_cache.hpp. A link address is the list of its bytes.
pub mod Laws
use mstack_cpp.Base.{ℕ, List, Option}
use mstack_cpp.AddrMap
use mstack_cpp.AddrMap.{AddrMap}

abbrev pub NeighCache : Type 0
NeighCache = AddrMap (List ℕ)

pub reset : ℕ → NeighCache → NeighCache
reset addr cache = AddrMap.erase addr cache

pub update : ℕ × List ℕ → NeighCache → NeighCache
update kv cache = AddrMap.insert kv.0 kv.1 cache

unfoldable pub query : ℕ → NeighCache → Option (List ℕ)
query addr cache = AddrMap.find addr cache
