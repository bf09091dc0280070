-- ===== src/Netns/Laws.antt =====
-- Where packets go in a namespace.
use mstack_cpp.Base.{◌≡◌, ◌∙◌, some, []}
use mstack_cpp.Protocol.{dispatch, upper_proto_update}
use mstack_cpp.Protocol.Dispatch.{dispatch-update}
use mstack_cpp.Arp.{proto_arp}
use mstack_cpp.Ipv4.{proto_ipv4}
use mstack_cpp.Tcp.{proto_tcp}
use mstack_cpp.Icmp.{proto_icmp}
use mstack_cpp.Netns.{above_tcp, above_ipv4, above_eth, tcb_m, tcp, icmp, ipv4, arp}

pub dispatch-ipv4 : dispatch proto_ipv4 above_eth ≡ some ipv4
unfolding above_eth
dispatch-ipv4 =
    dispatch-update proto_ipv4 proto_arp arp (upper_proto_update proto_ipv4 ipv4 [])
    ∙ dispatch-update proto_ipv4 proto_ipv4 ipv4 []

pub dispatch-tcp : dispatch proto_tcp above_ipv4 ≡ some tcp
unfolding above_ipv4
dispatch-tcp = dispatch-update proto_tcp proto_tcp tcp (upper_proto_update proto_icmp icmp [])

pub dispatch-tcb_m : dispatch proto_tcp above_tcp ≡ some tcb_m
unfolding above_tcp
dispatch-tcb_m = dispatch-update proto_tcp proto_tcp tcb_m []

pub dispatch-icmp : dispatch proto_icmp above_ipv4 ≡ some icmp
unfolding above_ipv4
dispatch-icmp =
    dispatch-update proto_icmp proto_tcp tcp (upper_proto_update proto_icmp icmp [])
    ∙ dispatch-update proto_icmp proto_icmp icmp []
