-- ===== src/NeighCache/Laws.antt =====
-- What a query finds after the cache's operations.
use mstack_cpp.Base.{ℕ, ◌≡◌, List, ◌==◌, if◌then◌else◌, none, some}
use mstack_cpp.AddrMap.Laws.{or_else, find-insert, find-erase}
use mstack_cpp.NeighCache.{NeighCache, reset, update, query}

-- After an update an address that was known keeps its old link address, the updated one has the
-- new link address only where it was not known, and a reset makes it unknown; no operation
-- changes what another address has.
pub query-update :
    (addr key : ℕ) (mac : List ℕ) (cache : NeighCache)
    → (query addr (update (key, mac) cache)
        ≡ (if key == addr then some (or_else (query key cache) mac) else query addr cache))
      × (query addr (reset key cache) ≡ (if key == addr then none else query addr cache))
unfolding query update reset
query-update addr key mac cache = (find-insert addr key mac cache, find-erase addr key cache)
