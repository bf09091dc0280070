-- ===== src/AddrMap.antt =====
-- `std::unordered_map` keyed by a number, an IPv4 address or a protocol's, as
-- mstack/mstack/neigh_cache.hpp, routing_table.cpp, arp.cpp and base_protocol.hpp use it: the list
-- of its entries.
pub mod Laws
use mstack_cpp.Base.{ℕ, List, [], ◌∷◌, ◌++◌, ◌==◌, if◌then◌else◌, Option, none, some}

abbrev pub AddrMap : Type 0 → Type 0
AddrMap Value = List (ℕ × Value)

unfoldable pub find : {Value : Type 0} → ℕ → AddrMap Value → Option Value
find addr [] = none
find addr ((key, value) ∷ table) = if key == addr then some value else find addr table

pub erase : {Value : Type 0} → ℕ → AddrMap Value → AddrMap Value
erase addr [] = []
erase addr ((key, value) ∷ table) =
    let rest = erase addr table in if key == addr then rest else (key, value) ∷ rest

-- `insert` and `emplace` do nothing where the key stands already.
pub insert : {Value : Type 0} → ℕ → Value → AddrMap Value → AddrMap Value
unfolding find
insert addr value table = elim (find addr table) [
  | none ↦ table ++ (addr, value) ∷ []
  | some old ↦ table
]

-- `table[addr] = value`.
pub assign : {Value : Type 0} → ℕ → Value → AddrMap Value → AddrMap Value
assign addr value [] = (addr, value) ∷ []
assign addr value ((key, old) ∷ table) =
    let rest = assign addr value table in
    if key == addr then (addr, value) ∷ table else (key, old) ∷ rest
