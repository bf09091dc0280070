-- ===== src/Netns.antt =====
-- mstack/mstack/netns.cpp: which layers a namespace puts above which. The layers have numbers.
pub mod Laws
use mstack_cpp.Base.{ℕ, []}
use mstack_cpp.Protocol.{Uppers, upper_proto_update}
use mstack_cpp.Arp.{proto_arp}
use mstack_cpp.Ipv4.{proto_ipv4}
use mstack_cpp.Tcp.{proto_tcp}
use mstack_cpp.Icmp.{proto_icmp}

abbrev pub tcb_m : ℕ
tcb_m = 0

abbrev pub tcp : ℕ
tcp = 1

abbrev pub icmp : ℕ
icmp = 2

abbrev pub ipv4 : ℕ
ipv4 = 3

abbrev pub arp : ℕ
arp = 4

-- What the constructor registers with `tcp_`, `ipv4_` and `eth_`.
pub above_tcp : Uppers
above_tcp = upper_proto_update proto_tcp tcb_m []

pub above_ipv4 : Uppers
above_ipv4 = upper_proto_update proto_tcp tcp (upper_proto_update proto_icmp icmp [])

pub above_eth : Uppers
above_eth = upper_proto_update proto_arp arp (upper_proto_update proto_ipv4 ipv4 [])
