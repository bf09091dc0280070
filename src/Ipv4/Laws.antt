-- ===== src/Ipv4/Laws.antt =====
-- A datagram that is sent is the datagram that is received.
use mstack_cpp.Base.{
  ℕ, ◌+◌, ◌-◌, ◌*◌, ◌%◌, ◌^◌, ◌≤◌, ◌<◌, ◌≡◌, refl, ◌∙◌, ap, List, [], ◌∷◌, ◌++◌, arith, Option,
  some, ok, ◌>>=◌, ltb, false, length, length-append, take, ◌==◌, true, low_bits, shr,
}
use mstack_cpp.Wire.Patch.{Verifies, ntoh-lt}
use mstack_cpp.Skbuff.{Skbuff, payload}
use mstack_cpp.Skbuff.Laws.{IsValid, popped}
use mstack_cpp.Skbuff.Stores.{pop_header}
use mstack_cpp.MacAddr.{MacAddr, zero_mac}
use mstack_cpp.Ipv4Header
use mstack_cpp.Ipv4Header.{Ipv4Header}
use mstack_cpp.Ipv4Header.Roundtrip.{Fits, consume-produce_ipv4, length-produce, produce-first}
use mstack_cpp.NeighCache
use mstack_cpp.NeighCache.{NeighCache}
use mstack_cpp.RoutingTable.{Route, RoutingTable}
use mstack_cpp.Packets.{Ipv4Packet, EthernetFrame}
use mstack_cpp.Arp.{Arp, async_resolve}
use mstack_cpp.Arp.Resolve.{async_resolve-known}
use mstack_cpp.Ipv4.{
  Ipv4, size, proto_ipv4, next_hop, send_by, asserted, process, first_byte, make_packet,
}
use mstack_cpp.Ipv4.Header.{checked, Written, datagram-Written}

-- The packet that a header and a buffer stand for.
abbrev pub packet_of : Ipv4Header → Skbuff → Ipv4Packet
packet_of h skb = record {
  src_addrv4 = h.src_addr;
  dst_addrv4 = h.dst_addr;
  proto = h.proto_type;
  skb = skb;
}

pub make_packet_lem :
    (frame : EthernetFrame) (h : Ipv4Header) (rest : List ℕ)
    → IsValid frame.skb
    → Fits h
    → h.version ≡ 4
    → payload frame.skb ≡ Ipv4Header.produce h ++ rest
    → (skb : Skbuff) × (make_packet frame ≡ ok (some (packet_of h skb)))
      × IsValid skb
      × (payload skb ≡ rest)
      × (skb.head ≡ frame.skb.head + size)
unfolding make_packet first_byte
make_packet_lem frame h rest v f four p =
    let off = pop_header size (Ipv4Header.produce h) rest frame.skb v (length-produce h) p in
    let (bs, first) = produce-first h f in
    let long : ltb (length (payload frame.skb)) size ≡ false =
      ground (arith, ap length p, length-append (Ipv4Header.produce h) rest, length-produce h) in
    let fb : first_byte (payload frame.skb) ≡ ok (h.version * 16 + h.header_length) =
      ap first_byte (p ∙ ap (λ ys. ys ++ rest) first) in
    let is_four : (low_bits (shr (h.version * 16 + h.header_length) 4) 4 == 4) ≡ true =
      ground (arith, f.header_length, f.version) in
    let read : Ipv4Header.consume (payload frame.skb) ≡ ok h =
      ap Ipv4Header.consume p ∙ consume-produce_ipv4 h rest f in
    (
      popped size frame.skb,
      rw (long, fb) (rw (is_four, read, off.pops) refl),
      off.valid,
      off.behind,
      refl,
    )

pub header_of-Fits :
    (seq : ℕ) (pkt : Ipv4Packet) (c : ℕ)
    → seq < 2 ^ 16
    → pkt.src_addrv4 < 2 ^ 32
    → pkt.dst_addrv4 < 2 ^ 32
    → pkt.proto < 2 ^ 8
    → Fits (checked seq pkt c)
header_of-Fits seq pkt c sq src dst pr = record {
  version = omega arith;
  header_length = omega arith;
  tos = omega arith;
  total_length = omega arith;
  id = sq;
  nop = omega arith;
  df = omega arith;
  mf = omega arith;
  frag_offset = omega arith;
  ttl = omega arith;
  proto_type = pr;
  header_chsum = ntoh-lt c;
  src_addr = src;
  dst_addr = dst;
}

-- The frame that asks the neighbour's address.
abbrev pub out_frame : MacAddr → Option ℕ → Skbuff → EthernetFrame
out_frame src_mac dev skb = record {
  src_mac_addr = src_mac;
  dst_mac_addr = zero_mac;
  proto = proto_ipv4;
  skb = skb;
  dev = dev;
}

send_by_lem :
    (junk : ℕ → ℕ) (arp_cache : NeighCache) (nh : Route) (dev : ℕ) (src_mac : MacAddr)
    (skb : Skbuff) (arp : Arp EthernetFrame)
    → nh.dev ≡ some dev
    → NeighCache.query nh.from_addrv4 arp_cache ≡ some src_mac
    → send_by junk arp_cache nh skb arp
      ≡ async_resolve junk src_mac nh.from_addrv4 nh.via_addrv4 nh.dev
          (out_frame src_mac nh.dev skb)
          arp
unfolding send_by asserted
send_by_lem junk arp_cache nh dev src_mac skb arp d m = rw (d, m) refl

-- What is handed to `arp`.
pub process-Written :
    (junk : ℕ → ℕ) (base : ℕ) (rt : RoutingTable) (arp_cache : NeighCache) (pkt : Ipv4Packet)
    (nh : Route) (dev : ℕ) (src_mac : MacAddr) (b : Ipv4) (arp : Arp EthernetFrame)
    → IsValid pkt.skb
    → size ≤ pkt.skb.head
    → (base + (pkt.skb.head - size)) % 2 ≡ 0
    → next_hop pkt.dst_addrv4 rt ≡ some nh
    → nh.dev ≡ some dev
    → NeighCache.query nh.from_addrv4 arp_cache ≡ some src_mac
    → (sent : Skbuff) × (process junk base rt arp_cache pkt (b, arp) ≡ (
        async_resolve junk src_mac nh.from_addrv4 nh.via_addrv4 nh.dev
          (out_frame src_mac nh.dev sent)
          arp
        >>= λ arp1. ok (record b { seq = (b.seq + 1) % 2 ^ 16 }, arp1)))
      × Written b.seq pkt sent
unfolding process
process-Written junk base rt arp_cache pkt nh dev src_mac b arp v room even hop d m =
    let (sent, e, w) = datagram-Written base b.seq pkt v room even in
    (sent, rw (e, hop, send_by_lem junk arp_cache nh dev src_mac sent arp d m) refl, w)

-- Where the neighbour is known, a task will send the frame to it.
pub process-posts :
    (junk : ℕ → ℕ) (base : ℕ) (rt : RoutingTable) (pkt : Ipv4Packet) (nh : Route) (dev : ℕ)
    (src_mac nh_mac : MacAddr) (b : Ipv4) (arp : Arp EthernetFrame)
    → IsValid pkt.skb
    → size ≤ pkt.skb.head
    → (base + (pkt.skb.head - size)) % 2 ≡ 0
    → next_hop pkt.dst_addrv4 rt ≡ some nh
    → nh.dev ≡ some dev
    → NeighCache.query nh.from_addrv4 arp.arp_cache ≡ some src_mac
    → NeighCache.query nh.via_addrv4 arp.arp_cache ≡ some nh_mac
    → (sent : Skbuff) × (process junk base rt arp.arp_cache pkt (b, arp)
        ≡ ok (
          record b { seq = (b.seq + 1) % 2 ^ 16 },
          record arp { posted = arp.posted ++ (out_frame src_mac nh.dev sent, nh_mac) ∷ [] },
        ))
      × Written b.seq pkt sent
process-posts junk base rt pkt nh dev src_mac nh_mac b arp v room even hop d m known =
    let (sent, e, w) =
      process-Written junk base rt arp.arp_cache pkt nh dev src_mac b arp v room even hop d m in
    (
      sent,
      rw e (
          rw
            (async_resolve-known junk src_mac nh.from_addrv4 nh.via_addrv4 nh.dev
              (out_frame src_mac nh.dev sent) arp nh_mac known)
            refl),
      w,
    )

-- A valid packet with room for the header at an even address, whose fields fit the header's, with a
-- next hop that has a device and an own address that the cache has, is handed to `arp` in a frame
-- that is received as the same packet. Its header has the layer's number as the identification, the
-- number moves on by 1 modulo 2 ^ 16, and the words of the header add up to 0 modulo 65535.
pub process-make_packet_ipv4 :
    (junk : ℕ → ℕ) (base : ℕ) (rt : RoutingTable) (arp_cache : NeighCache) (pkt : Ipv4Packet)
    (nh : Route) (dev : ℕ) (src_mac : MacAddr) (b : Ipv4) (arp : Arp EthernetFrame)
    → IsValid pkt.skb
    → size ≤ pkt.skb.head
    → (base + (pkt.skb.head - size)) % 2 ≡ 0
    → b.seq < 2 ^ 16
    → pkt.src_addrv4 < 2 ^ 32
    → pkt.dst_addrv4 < 2 ^ 32
    → pkt.proto < 2 ^ 8
    → next_hop pkt.dst_addrv4 rt ≡ some nh
    → nh.dev ≡ some dev
    → NeighCache.query nh.from_addrv4 arp_cache ≡ some src_mac
    → (sent received : Skbuff) × (h : Ipv4Header) × (process junk base rt arp_cache pkt (b, arp) ≡ (
        async_resolve junk src_mac nh.from_addrv4 nh.via_addrv4 nh.dev
          (out_frame src_mac nh.dev sent)
          arp
        >>= λ arp1. ok (record b { seq = (b.seq + 1) % 2 ^ 16 }, arp1)))
      × (payload sent ≡ Ipv4Header.produce h ++ payload pkt.skb)
      × (h.id ≡ b.seq)
      × Verifies (take size (payload sent))
      × (make_packet (out_frame src_mac nh.dev sent) ≡ ok (some (record pkt { skb = received })))
      × IsValid received
      × (payload received ≡ payload pkt.skb)
process-make_packet_ipv4 junk base rt arp_cache pkt nh dev src_mac b arp v room even sq src dst pr
      hop d m =
    let (sent, e, w) =
      process-Written junk base rt arp_cache pkt nh dev src_mac b arp v room even hop d m in
    let (received, r, valid, same, at_head) =
      make_packet_lem (out_frame src_mac nh.dev sent) (checked b.seq pkt w.chsum) (payload pkt.skb)
        w.valid (header_of-Fits b.seq pkt w.chsum sq src dst pr) refl w.bytes in
    (sent, received, checked b.seq pkt w.chsum, e, w.bytes, refl, w.verifies, r, valid, same)
