-- ===== src/RoutingTable.antt =====
-- mstack/mstack/routing_table.hpp and routing_table.cpp. A device has a number; a null pointer
-- is `none`.
pub mod Laws
use mstack_cpp.Base.{ℕ, Option, none, some, Result, ok, ◌>>=◌, ◌>>◌, assert}
use mstack_cpp.AddrMap
use mstack_cpp.AddrMap.{AddrMap}
use mstack_cpp.Tcb.{is_some}

pub record Route : Type 0 where
  pub via_addrv4 : ℕ
  pub from_addrv4 : ℕ
  pub dev : Option ℕ

pub record RoutingTable : Type 0 where
  pub table : AddrMap Route
  pub default : Option Route

pub reset : ℕ → RoutingTable → RoutingTable
reset addr t = record t { table = AddrMap.erase addr t.table }

pub update : ℕ → Route → RoutingTable → Result RoutingTable
update hop route t = do
  assert (is_some route.dev)
  ok (record t { table = AddrMap.insert hop route t.table })

pub update_default : Route → RoutingTable → Result RoutingTable
update_default route t = do assert (is_some route.dev); ok (record t { default = some route })

unfoldable pub query : ℕ → RoutingTable → Option Route
query addr t = AddrMap.find addr t.table

unfoldable pub query_default : RoutingTable → Option Route
query_default t = t.default
