-- ===== src/Packets.antt =====
-- mstack/mstack/ipv4_packet.hpp and ethernetv2_frame.hpp. A device has a number; a null pointer is
-- `none`.
use mstack_cpp.Base.{ℕ, Option}
use mstack_cpp.Skbuff.{Skbuff}
use mstack_cpp.MacAddr.{MacAddr}

pub record Ipv4Packet : Type 0 where
  pub src_addrv4 : ℕ
  pub dst_addrv4 : ℕ
  pub proto : ℕ
  pub skb : Skbuff

pub record EthernetFrame : Type 0 where
  pub src_mac_addr : MacAddr
  pub dst_mac_addr : MacAddr
  pub proto : ℕ
  pub skb : Skbuff
  pub dev : Option ℕ
