-- ===== src/Stack/Descent.antt =====
-- A segment on its way down: what its frame is.
use mstack_cpp.Base.{ℕ, ◌+◌, ◌%◌, ◌^◌, ◌≤◌, ◌≡◌, refl, ◌∙◌, ap, List, ◌++◌, arith, Option}
use mstack_cpp.Skbuff.{Skbuff, payload}
use mstack_cpp.Skbuff.Laws.{IsValid}
use mstack_cpp.MacAddr.{MacAddr}
use mstack_cpp.Endpoint.{TcpPacket}
use mstack_cpp.TcpHeader.{TcpHeader}
use mstack_cpp.RoutingTable.{Route, RoutingTable}
use mstack_cpp.Packets.{Ipv4Packet, EthernetFrame}
use mstack_cpp.Protocol.{Lower}
use mstack_cpp.Arp.{Arp}
use mstack_cpp.Ethernet.{header_of}
use mstack_cpp.Ethernet.Laws.{sent_skb, process_lem, sent_skb-bytes}
use mstack_cpp.EthernetHeader
use mstack_cpp.EthernetHeader.Roundtrip.{Fits as FrameFits}
use mstack_cpp.Ipv4Header
use mstack_cpp.Ipv4.{Ipv4, next_hop}
use mstack_cpp.Ipv4.Laws.{out_frame, process-posts}
use mstack_cpp.Ipv4.Header.{checked}
use mstack_cpp.Tcp.Laws.{IsSent, process-IsSent}
use mstack_cpp.Stack.{Sendable, Reachable, Down}

-- What is known of the frame that leaves the sender's stack.
pub record Wired (h : TcpHeader) (rest : List ℕ) (pkt : TcpPacket) (seq : ℕ) (datagram : Ipv4Packet)
    (frame : EthernetFrame) (wire : Skbuff) : Type 0 where
  pub chsum : ℕ
  pub sent : IsSent h rest pkt datagram
  pub proto : frame.proto ≡ 0x0800
  pub fits : FrameFits (header_of frame)
  pub valid : IsValid wire
  pub wire_bytes : payload wire ≡ EthernetHeader.produce (header_of frame) ++ payload frame.skb
  pub frame_bytes :
      payload frame.skb ≡ Ipv4Header.produce (checked seq datagram chsum) ++ payload datagram.skb

module _ (junk : ℕ → ℕ) (base : ℕ) (rt : RoutingTable) (h : TcpHeader) (rest : List ℕ)
    (pkt : TcpPacket) (lower_tcp : Lower Ipv4Packet) (b : Ipv4) (arp : Arp EthernetFrame)
    (lower_eth : Lower (Skbuff × Option ℕ)) (nh : Route) (dev : ℕ) (src_mac nh_mac : MacAddr)
    (s : Sendable base h rest pkt)
    (r : Reachable pkt.remote_ep.addrv4 rt arp nh dev src_mac nh_mac) where
  pub down :
      (wire : Skbuff) × (d : Down junk base rt pkt lower_tcp b arp lower_eth nh_mac wire) × Wired h
        rest pkt b.seq d.datagram
        (record d.frame { dst_mac_addr = nh_mac })
        wire
  down =
      let (datagram, e1, d) =
        process-IsSent base h rest pkt lower_tcp s.valid s.bytes (omega (arith, s.room))
          (omega (arith, s.room, s.even)) s.octets (omega (arith, s.short)) in
      let (skb, e2, w) =
        process-posts junk base rt datagram nh dev src_mac nh_mac b arp d.valid
          (omega (arith, s.room, d.room)) (omega (arith, s.room, s.even, d.room))
          (ap (λ a. next_hop a rt) d.dst_addrv4 ∙ r.hop) r.has_dev r.own r.neighbour in
      let frame = record (out_frame src_mac nh.dev skb) { dst_mac_addr = nh_mac } in
      let fits : FrameFits (header_of frame) = record {
        dst_mac_addr = r.neighbour_mac;
        src_mac_addr = r.own_mac;
        proto = omega arith;
      } in
      let room : EthernetHeader.size ≤ skb.head = omega (arith, s.room, d.room, w.room) in
      let (valid, bytes) = sent_skb-bytes frame w.valid fits room in
      (
        sent_skb frame,
        record {
          datagram = datagram;
          frame = out_frame src_mac nh.dev skb;
          ip = record b { seq = (b.seq + 1) % 2 ^ 16 };
          tcp_step = e1;
          ipv4_step = e2;
          ethernet_step = process_lem frame dev lower_eth r.has_dev room;
        },
        record {
          chsum = w.chsum;
          sent = d;
          proto = refl;
          fits = fits;
          valid = valid;
          wire_bytes = bytes;
          frame_bytes = w.bytes;
        },
      )
