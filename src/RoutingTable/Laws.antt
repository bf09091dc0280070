-- ===== src/RoutingTable/Laws.antt =====
-- What a query finds after the routing table's operations.
use mstack_cpp.Base.{ℕ, ◌≡◌, refl, ◌==◌, if◌then◌else◌, none, some, ok}
use mstack_cpp.AddrMap.Laws.{or_else, find-insert, find-erase}
use mstack_cpp.RoutingTable.{
  Route, RoutingTable, reset, update, update_default, query, query_default,
}

-- An update with a device succeeds and adds the route only where its hop has none; the default
-- route stays. An update of the default route replaces it and no other. A reset removes the
-- hop's route.
pub query-update_default :
    (addr hop : ℕ) (route : Route) (dev : ℕ) (t : RoutingTable)
    → route.dev ≡ some dev
    → (t' : RoutingTable) × (d : RoutingTable) × (update hop route t ≡ ok t')
      × (query addr t' ≡ (if hop == addr then some (or_else (query hop t) route) else query addr t))
      × (query_default t' ≡ query_default t)
      × (update_default route t ≡ ok d)
      × (query_default d ≡ some route)
      × (query addr d ≡ query addr t)
      × (query addr (reset hop t) ≡ (if hop == addr then none else query addr t))
unfolding query update reset update_default query_default
query-update_default addr hop route dev t h = (
  _,
  _,
  rw h refl,
  find-insert addr hop route t.table,
  refl,
  rw h refl,
  refl,
  refl,
  find-erase addr hop t.table,
)
