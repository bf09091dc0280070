-- ===== src/EthernetHeader.antt =====
-- mstack/mstack/ethernet_header.hpp.
pub mod Roundtrip
use mstack_cpp.Base.{ℕ, List, ◌++◌, Result, ok, ◌>>=◌}
use mstack_cpp.Wire.{consume_from_net, produce_to_net}
use mstack_cpp.MacAddr
use mstack_cpp.MacAddr.{MacAddr}

pub record EthernetHeader : Type 0 where
  pub dst_mac_addr : MacAddr
  pub src_mac_addr : MacAddr
  pub proto : ℕ

abbrev pub size : ℕ
size = 14

pub consume : List ℕ → Result EthernetHeader
consume ptr0 = do
  (dst_mac_addr, ptr1) ← MacAddr.consume ptr0
  (src_mac_addr, ptr2) ← MacAddr.consume ptr1
  (proto, ptr3) ← consume_from_net 2 ptr2
  ok (record { dst_mac_addr = dst_mac_addr; src_mac_addr = src_mac_addr; proto = proto })

pub produce : EthernetHeader → List ℕ
produce h =
    MacAddr.produce h.dst_mac_addr ++ (MacAddr.produce h.src_mac_addr ++ produce_to_net 2 h.proto)
