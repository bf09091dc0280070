-- ===== src/Stack.antt =====
-- The layers of mstack/mstack/tcp.cpp, ipv4.cpp, arp.cpp and ethernet.cpp on top of each other: a
-- segment on its way down one stack and up another. The queues between the layers are in Protocol.
pub mod Descent
pub mod Transfer
use mstack_cpp.Base.{
  ℕ, ◌+◌, ◌-◌, ◌%◌, ◌^◌, ◌≤◌, ◌<◌, ◌≡◌, refl, ◌∙◌, ap, sym, List, [], ◌∷◌, ◌++◌, arith, Bool,
  Option, none, some, Result, ok, ◌>>=◌, length,
}
use mstack_cpp.Wire.{ntoh}
use mstack_cpp.Wire.Roundtrip.{IsBytes}
use mstack_cpp.Wire.Patch.{Verifies, ntoh-lt}
use mstack_cpp.Skbuff.{Skbuff, payload}
use mstack_cpp.Skbuff.Laws.{IsValid}
use mstack_cpp.Skbuff.Stores.{payload-push_store, push_store-IsValid}
use mstack_cpp.MacAddr.{MacAddr}
use mstack_cpp.MacAddr.Laws.{IsMac}
use mstack_cpp.Endpoint.{Endpoint, TwoEnds, TcpPacket}
use mstack_cpp.TcpHeader
use mstack_cpp.TcpHeader.{TcpHeader}
use mstack_cpp.TcpHeader.Roundtrip.{Fits as SegmentFits}
use mstack_cpp.NeighCache
use mstack_cpp.RoutingTable.{Route, RoutingTable}
use mstack_cpp.Packets.{Ipv4Packet, EthernetFrame}
use mstack_cpp.Protocol.{Lower, enqueue, dispatch}
use mstack_cpp.Netns.{above_eth, above_ipv4, above_tcp, ipv4, tcp, tcb_m}
use mstack_cpp.Arp.{Arp}
use mstack_cpp.Arp.Resolve.{async_resolve-known}
use mstack_cpp.Ethernet
use mstack_cpp.Ethernet.{header_of}
use mstack_cpp.Ethernet.Laws.{sent_skb, process_lem, make_packet_lem as make_packet_ethernet}
use mstack_cpp.EthernetHeader
use mstack_cpp.EthernetHeader.Roundtrip.{Fits as FrameFits, length-produce}
use mstack_cpp.Ipv4Header
use mstack_cpp.Ipv4
use mstack_cpp.Ipv4.{Ipv4, next_hop}
use mstack_cpp.Ipv4.Laws.{
  out_frame, process-Written, header_of-Fits, make_packet_lem as make_packet_ipv4,
}
use mstack_cpp.Ipv4.Header.{checked}
use mstack_cpp.Tcp
use mstack_cpp.Tcp.{Tcp, Rule, passed, pseudo_header}
use mstack_cpp.Tcp.States
use mstack_cpp.Tcp.Laws.{IsSent, process-IsSent, make_packet-passed, Unmatched}

-- A segment that the stack can send: its header fits, and says its ports; its buffer at the address
-- `base` is valid, with room for the headers of the layers below, and is not too long.
pub record Sendable (base : ℕ) (h : TcpHeader) (rest : List ℕ) (pkt : TcpPacket) : Type 0 where
  pub proto : pkt.proto ≡ 6
  pub fits : SegmentFits h
  pub reserved : h.reserved ≡ 0
  pub src_port : h.src_port ≡ pkt.local_ep.addrv4_port
  pub dst_port : h.dst_port ≡ pkt.remote_ep.addrv4_port
  pub src : pkt.local_ep.addrv4 < 2 ^ 32
  pub dst : pkt.remote_ep.addrv4 < 2 ^ 32
  pub valid : IsValid pkt.skb
  pub bytes : payload pkt.skb ≡ TcpHeader.produce h ++ rest
  pub octets : IsBytes rest
  pub short : 32 + length rest < 2 ^ 16
  pub room : 34 ≤ pkt.skb.head
  pub even : (base + pkt.skb.head) % 2 ≡ 0

-- The next hop towards an address, its device, and the two link addresses.
pub record Reachable (dst : ℕ) (rt : RoutingTable) (arp : Arp EthernetFrame) (nh : Route) (dev : ℕ)
    (src_mac nh_mac : MacAddr) : Type 0 where
  pub hop : next_hop dst rt ≡ some nh
  pub has_dev : nh.dev ≡ some dev
  pub own : NeighCache.query nh.from_addrv4 arp.arp_cache ≡ some src_mac
  pub neighbour : NeighCache.query nh.via_addrv4 arp.arp_cache ≡ some nh_mac
  pub own_mac : IsMac src_mac
  pub neighbour_mac : IsMac nh_mac

-- What the sender's layers do, one after the other.
pub record Down (junk : ℕ → ℕ) (base : ℕ) (rt : RoutingTable) (pkt : TcpPacket)
    (lower_tcp : Lower Ipv4Packet) (b : Ipv4) (arp : Arp EthernetFrame)
    (lower_eth : Lower (Skbuff × Option ℕ)) (nh_mac : MacAddr) (wire : Skbuff) : Type 0 where
  pub datagram : Ipv4Packet
  pub frame : EthernetFrame
  pub ip : Ipv4
  pub tcp_step : Tcp.process base pkt lower_tcp ≡ ok (enqueue datagram lower_tcp)
  pub ipv4_step :
      Ipv4.process junk base rt arp.arp_cache datagram (b, arp)
      ≡ ok (ip, record arp { posted = arp.posted ++ (frame, nh_mac) ∷ [] })
  pub ethernet_step :
      Ethernet.process (record frame { dst_mac_addr = nh_mac }) lower_eth
      ≡ ok (enqueue (wire, frame.dev) lower_eth)

-- What the receiver's layers do, one after the other.
pub record Up {Waiter Cb : Type 0} (intercept : Cb → TwoEnds → Tcp Waiter Cb → Bool × Tcp Waiter Cb)
    (t : Tcp Waiter Cb) (at : Option ℕ) (wire : Skbuff) (received : TcpPacket) : Type 0 where
  pub frame : EthernetFrame
  pub datagram : Ipv4Packet
  pub ethernet_step : Ethernet.make_packet wire at ≡ ok frame
  pub ipv4_step : Ipv4.make_packet frame ≡ ok (some datagram)
  pub ethernet_dispatch : dispatch frame.proto above_eth ≡ some ipv4
  pub ipv4_dispatch : dispatch datagram.proto above_ipv4 ≡ some tcp
  pub tcp_step : Tcp.make_packet intercept datagram t ≡ ok (t, [], passed received)
  pub tcp_dispatch : dispatch received.proto above_tcp ≡ some tcb_m

-- The two ends as the receiver names them.
abbrev pub swapped : TcpPacket → TwoEnds
swapped pkt = record { remote_ep = pkt.local_ep; local_ep = pkt.remote_ep }
