-- ===== src/Stack/Transfer.antt =====
-- A segment that is sent is the segment that is received.
use mathlib.Core.Path.{subst}
use mstack_cpp.Base.{ℕ, ◌^◌, ◌<◌, ◌≡◌, refl, ◌∙◌, ap, sym, List, ◌++◌, arith, Bool, Option, none}
use mstack_cpp.Wire.{ntoh}
use mstack_cpp.Wire.Patch.{Verifies, ntoh-lt}
use mstack_cpp.Skbuff.{Skbuff, payload}
use mstack_cpp.Skbuff.Laws.{IsValid}
use mstack_cpp.MacAddr.{MacAddr}
use mstack_cpp.Endpoint.{Endpoint, TwoEnds, TcpPacket}
use mstack_cpp.TcpHeader
use mstack_cpp.TcpHeader.{TcpHeader}
use mstack_cpp.TcpHeader.Roundtrip.{Fits as SegmentFits}
use mstack_cpp.RoutingTable.{Route, RoutingTable}
use mstack_cpp.Packets.{Ipv4Packet, EthernetFrame}
use mstack_cpp.Protocol.{Lower, dispatch}
use mstack_cpp.Netns.Laws.{dispatch-ipv4, dispatch-tcp, dispatch-tcb_m}
use mstack_cpp.Netns.{above_eth, above_ipv4}
use mstack_cpp.Arp.{Arp}
use mstack_cpp.Ethernet.Laws.{make_packet_lem as make_packet_ethernet}
use mstack_cpp.Ipv4.{Ipv4}
use mstack_cpp.Ipv4.Laws.{header_of-Fits, make_packet_lem as make_packet_ipv4}
use mstack_cpp.Ipv4.Header.{checked}
use mstack_cpp.Tcp.{Tcp, pseudo_header, packet_of, ends_of}
use mstack_cpp.Tcp.States
use mstack_cpp.Tcp.Laws.{make_packet-passed, Unmatched}
use mstack_cpp.Stack.{Sendable, Reachable, Down, Up, swapped}
use mstack_cpp.Stack.Descent.{Wired, down}

endpoint_lem :
    (e : Endpoint) (addr port : ℕ)
    → addr ≡ e.addrv4
    → port ≡ e.addrv4_port
    → record { addrv4 = addr; addrv4_port = port } ≡ e
endpoint_lem e addr port a p = ground arith

-- The receiver reads the segment of a wired frame.
module _ {Waiter Cb : Type 0} (intercept : Cb → TwoEnds → Tcp Waiter Cb → Bool × Tcp Waiter Cb)
    (base : ℕ) (h : TcpHeader) (rest : List ℕ) (pkt : TcpPacket) (s : Sendable base h rest pkt)
    (seq : ℕ) (small : seq < 2 ^ 16) (datagram : Ipv4Packet) (frame : EthernetFrame)
    (wire arrived : Skbuff) (w : Wired h rest pkt seq datagram frame wire) (valid : IsValid arrived)
    (same : payload arrived ≡ payload wire) (at : Option ℕ) (t : Tcp Waiter Cb)
    (free : States.find (swapped pkt) t.rcv_raw_states ≡ none)
    (unmatched : Unmatched intercept (swapped pkt) t.rules) where
  up :
      (received : TcpPacket) × Up intercept t at arrived received
      × (received.remote_ep ≡ pkt.local_ep)
      × (received.local_ep ≡ pkt.remote_ep)
      × (payload received.skb ≡ payload datagram.skb)
      × IsValid received.skb
  up =
      let d = w.sent in
      let (eth_skb, e1, v1, p1, head1) =
        make_packet_ethernet arrived at frame valid w.fits (same ∙ w.wire_bytes) in
      let (ip_skb, e2, v2, p2, head2) =
        make_packet_ipv4 (record frame { skb = eth_skb; dev = at }) (checked seq datagram w.chsum)
          (payload datagram.skb) v1
          (header_of-Fits seq datagram w.chsum small (omega (arith, d.src_addrv4, s.src))
            (omega (arith, d.dst_addrv4, s.dst)) (omega (arith, d.proto, s.proto)))
          refl (p1 ∙ w.frame_bytes) in
      let summed = record h { chsum = ntoh 2 d.chsum } in
      let in_pkt : Ipv4Packet = record datagram { skb = ip_skb } in
      let summed_fits : SegmentFits summed = ground (arith, s.fits, ntoh-lt d.chsum) in
      let remote : (packet_of summed in_pkt).remote_ep ≡ pkt.local_ep =
        endpoint_lem pkt.local_ep datagram.src_addrv4 h.src_port d.src_addrv4 s.src_port in
      let local : (packet_of summed in_pkt).local_ep ≡ pkt.remote_ep =
        endpoint_lem pkt.remote_ep datagram.dst_addrv4 h.dst_port d.dst_addrv4 s.dst_port in
      let ends : swapped pkt ≡ ends_of summed in_pkt = rw (remote, local) refl in
      (
        packet_of summed in_pkt,
        record {
          frame = record frame { skb = eth_skb; dev = at };
          datagram = in_pkt;
          ethernet_step = e1;
          ipv4_step = e2;
          ethernet_dispatch = ap (λ k. dispatch k above_eth) w.proto ∙ dispatch-ipv4;
          ipv4_dispatch = ap (λ k. dispatch k above_ipv4) (d.proto ∙ s.proto) ∙ dispatch-tcp;
          tcp_dispatch = dispatch-tcb_m;
          tcp_step =
              make_packet-passed intercept summed rest in_pkt t summed_fits s.reserved
                (p2 ∙ d.bytes) (ap (λ e. States.find e t.rcv_raw_states) (sym ends) ∙ free)
                (subst (λ e. Unmatched intercept e t.rules) ends unmatched);
        },
        remote,
        local,
        p2,
        v2,
      )

-- A segment that can be sent to a neighbour whose link address is known goes down through `tcp`,
-- `ipv4` and `ethernet`; where the link carries the bytes unchanged into a valid buffer, and the
-- receiver has neither attached the pair nor a rule that matches it, the segment comes up through
-- `ethernet`, `ipv4` and `tcp` with the ends exchanged. Its header and data are those that were sent,
-- but for the checksum, which verifies with the sender's pseudo header.
pub process-make_packet_stack :
    {Waiter Cb : Type 0} (intercept : Cb → TwoEnds → Tcp Waiter Cb → Bool × Tcp Waiter Cb)
    (junk : ℕ → ℕ) (base : ℕ) (rt : RoutingTable) (h : TcpHeader) (rest : List ℕ) (pkt : TcpPacket)
    (lower_tcp : Lower Ipv4Packet) (b : Ipv4) (arp : Arp EthernetFrame)
    (lower_eth : Lower (Skbuff × Option ℕ)) (nh : Route) (dev : ℕ) (src_mac nh_mac : MacAddr)
    (link : Skbuff → Skbuff) (at : Option ℕ) (t : Tcp Waiter Cb)
    → Sendable base h rest pkt
    → Reachable pkt.remote_ep.addrv4 rt arp nh dev src_mac nh_mac
    → b.seq < 2 ^ 16
    → ((skb : Skbuff) → IsValid skb → IsValid (link skb))
    → ((skb : Skbuff) → IsValid skb → payload (link skb) ≡ payload skb)
    → States.find (swapped pkt) t.rcv_raw_states ≡ none
    → Unmatched intercept (swapped pkt) t.rules
    → (wire : Skbuff) × (received : TcpPacket) × (chsum : ℕ) × Down junk base rt pkt lower_tcp b arp
        lower_eth nh_mac wire
      × Up intercept t at (link wire) received
      × (received.remote_ep ≡ pkt.local_ep)
      × (received.local_ep ≡ pkt.remote_ep)
      × (payload received.skb ≡ TcpHeader.produce (record h { chsum = chsum }) ++ rest)
      × Verifies (pseudo_header pkt ++ payload received.skb)
process-make_packet_stack intercept junk base rt h rest pkt lower_tcp b arp lower_eth nh dev src_mac
      nh_mac link at t s r small keeps carries free unmatched =
    let (wire, d, w) =
      down junk base rt h rest pkt lower_tcp b arp lower_eth nh dev src_mac nh_mac s r in
    let (received, u, remote, local, same, valid) =
      up intercept base h rest pkt s b.seq small d.datagram
        (record d.frame { dst_mac_addr = nh_mac }) wire (link wire) w (keeps wire w.valid)
        (carries wire w.valid) at t free unmatched in
    (
      wire,
      received,
      ntoh 2 w.sent.chsum,
      d,
      u,
      remote,
      local,
      same ∙ w.sent.bytes,
      subst (λ ys. Verifies (pseudo_header pkt ++ ys)) (sym same) w.sent.verifies,
    )
