-- ===== src/System/Ping/Ask.antt =====
-- What goes up: the request is read by each layer, and answered by `icmp`.
use mstack_cpp.Base.{
  ℕ, ◌%◌, ◌≤◌, ◌≡◌, refl, ◌∙◌, ap, sym, List, ◌++◌, some, ok, length, length-append, arith,
}
use mstack_cpp.Skbuff.Filled.{filled, filled-IsValid, payload-filled}
use mstack_cpp.EthernetHeader
use mstack_cpp.EthernetHeader.{EthernetHeader}
use mstack_cpp.EthernetHeader.Roundtrip.{length-produce as length-produce_frame}
use mstack_cpp.Ipv4Header
use mstack_cpp.Ipv4Header.{Ipv4Header}
use mstack_cpp.Ipv4Header.Roundtrip.{length-produce as length-produce_ipv4}
use mstack_cpp.IcmpHeader
use mstack_cpp.IcmpHeader.{IcmpHeader}
use mstack_cpp.IcmpHeader.Roundtrip.{length-produce as length-produce_icmp}
use mstack_cpp.Packets.{Ipv4Packet, EthernetFrame}
use mstack_cpp.Protocol.{Lower, enqueue}
use mstack_cpp.Ethernet
use mstack_cpp.Ethernet.{header_of}
use mstack_cpp.Ethernet.Laws.{make_packet_lem as make_packet_ethernet}
use mstack_cpp.Icmp
use mstack_cpp.Icmp.Laws.{IsReply, process-IsReply}
use mstack_cpp.Ipv4
use mstack_cpp.Ipv4.{Ipv4, next_hop, resolved}
use mstack_cpp.Ipv4.Laws.{packet_of, make_packet_lem as make_packet_ipv4}
use mstack_cpp.System.Steps.{read_skb}
use mstack_cpp.System.Ping.{IsPing}

pub length-IsPing :
    {he : EthernetHeader} {hi : Ipv4Header} {hc : IcmpHeader} {content bytes : List ℕ}
    → IsPing he hi hc content bytes
    → length bytes ≤ 1500
length-IsPing {he} {hi} {hc} {content} {bytes} p = omega (
  arith,
  ap length p.whole,
  length-append (EthernetHeader.produce he)
      (Ipv4Header.produce hi ++ (IcmpHeader.produce hc ++ content)),
  length-append (Ipv4Header.produce hi) (IcmpHeader.produce hc ++ content),
  length-append (IcmpHeader.produce hc) content,
  length-produce_frame he p.frame_fits,
  length-produce_ipv4 hi,
  length-produce_icmp hc,
  p.short,
)

-- What goes up: the datagram that `icmp` is given, and its reply.
pub record Asked (base dev : ℕ) (hi : Ipv4Header) (hc : IcmpHeader) (content bytes : List ℕ)
    (lower : Lower Ipv4Packet) : Type 0 where
  pub frame : EthernetFrame
  pub pkt : Ipv4Packet
  pub reply : Ipv4Packet
  pub frame_proto : frame.proto ≡ 0x0800
  pub pkt_proto : pkt.proto ≡ 1
  pub pkt_src : pkt.src_addrv4 ≡ hi.src_addr
  pub pkt_dst : pkt.dst_addrv4 ≡ hi.dst_addr
  pub ethernet_step : Ethernet.make_packet (read_skb bytes) (some dev) ≡ ok frame
  pub ipv4_step : Ipv4.make_packet frame ≡ ok (some pkt)
  pub icmp_step : Icmp.process base pkt lower ≡ ok (enqueue reply lower)
  pub is_reply : IsReply hc content pkt reply
  pub room : reply.skb.head ≡ 34

pub ask :
    {he : EthernetHeader} {hi : Ipv4Header} {hc : IcmpHeader} {content bytes : List ℕ}
    (base dev : ℕ) (lower : Lower Ipv4Packet)
    → base % 2 ≡ 0
    → IsPing he hi hc content bytes
    → Asked base dev hi hc content bytes lower
ask {he} {hi} {hc} {content} {bytes} base dev lower even p =
    let icmp_bytes = IcmpHeader.produce hc ++ content in
    let ip_bytes = Ipv4Header.produce hi ++ icmp_bytes in
    let frame : EthernetFrame = record {
      src_mac_addr = he.src_mac_addr;
      dst_mac_addr = he.dst_mac_addr;
      proto = he.proto;
      skb = filled 0 ip_bytes;
      dev = some dev;
    } in
    let (skb1, e1, v1, p1, h1) =
      make_packet_ethernet (read_skb bytes) (some dev) frame (filled-IsValid 0 bytes) p.frame_fits (
        payload-filled 0 bytes
        ∙ p.whole
        ∙ ap (λ ys. EthernetHeader.produce he ++ ys) (sym (payload-filled 0 ip_bytes))) in
    let (skb2, e2, v2, p2, h2) =
      make_packet_ipv4 (record frame { skb = skb1; dev = some dev }) hi icmp_bytes v1
        p.datagram_fits p.version (p1 ∙ payload-filled 0 ip_bytes) in
    let (reply, e3, r, h3) =
      process-IsReply base hc content (packet_of hi skb2) lower p.icmp_fits p.request v2 p2
        (omega (arith, h1, h2, even)) p.octets (omega (arith, p.short)) in
    record {
      frame = record frame { skb = skb1; dev = some dev };
      pkt = packet_of hi skb2;
      reply = reply;
      frame_proto = p.frame_proto;
      pkt_proto = p.datagram_proto;
      pkt_src = refl;
      pkt_dst = refl;
      ethernet_step = e1;
      ipv4_step = e2;
      icmp_step = e3;
      is_reply = r;
      room = omega (arith, h1, h2, h3);
    }
