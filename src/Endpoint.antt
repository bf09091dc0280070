-- ===== src/Endpoint.antt =====
-- mstack/mstack/ipv4_addr.hpp, endpoint.hpp, packets.hpp and tcp_packet.hpp.
use mstack_cpp.Base.{ℕ, ◌≡◌, ◌↔◌, Bool, true, ◌&&◌, ◌==◌, arith}
use mstack_cpp.Skbuff.{Skbuff}

-- An address is its `raw_` word.
pub record Endpoint : Type 0 where
  pub addrv4 : ℕ
  pub addrv4_port : ℕ

pub record TwoEnds : Type 0 where
  pub remote_ep : Endpoint
  pub local_ep : Endpoint

-- `operator<=>` is defaulted, so equality is that of the members.
abbrev pub endpoint_eq : Endpoint → Endpoint → Bool
endpoint_eq a b = (a.addrv4 == b.addrv4) && (a.addrv4_port == b.addrv4_port)

abbrev pub two_ends_eq : TwoEnds → TwoEnds → Bool
two_ends_eq a b = endpoint_eq a.remote_ep b.remote_ep && endpoint_eq a.local_ep b.local_ep

pub two_ends_eq_iff : (a b : TwoEnds) → (two_ends_eq a b ≡ true) ↔ (a ≡ b)
two_ends_eq_iff a b = ground arith

pub record TcpPacket : Type 0 where
  pub proto : ℕ
  pub remote_ep : Endpoint
  pub local_ep : Endpoint
  pub skb : Skbuff
