-- ===== src/EndpointText.antt =====
-- The text of an endpoint: `operator<<` and `make_from` of mstack/mstack/endpoint.hpp.
pub mod Roundtrip
use mstack_cpp.Base.{ℕ, ◌^◌, List, ◌∷◌, ◌++◌, Option, none, some}
use mstack_cpp.Endpoint.{Endpoint}
use mstack_cpp.Text.{Text, decimal, from_chars}
use mstack_cpp.Ipv4Addr

-- `operator<<`.
pub print : Endpoint → Text
print p = Ipv4Addr.to_string p.addrv4 ++ (b':' ∷ decimal p.addrv4_port)

-- What `std::from_chars` returns is not looked at.
pub make_from : (Text → Option ℕ) → Text → Text → Option Endpoint
make_from make_address_v4 host port =
    let port_u = from_chars (2 ^ 16) 0 port in
    elim (Ipv4Addr.make_from make_address_v4 host) [
      | none ↦ none
      | some addr ↦ some (record { addrv4 = addr; addrv4_port = port_u })
    ]
