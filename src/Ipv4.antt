-- ===== src/Ipv4.antt =====
-- mstack/mstack/ipv4.cpp. `base` is the address of the packet's buffer. The callback that
-- `arp::async_resolve` takes is the frame that it sends.
pub mod Laws
pub mod Header
use mstack_cpp.Base.{
  ℕ, ◌+◌, List, [], ◌∷◌, not, ltb, ◌==◌, if◌then◌else◌, Option, none, some, Result, ok, fault,
  assertion, out_of_bounds, ◌>>=◌, ◌>>◌, assert, length, u16, shr, low_bits, take,
}
use mstack_cpp.Wire.{to_bytes, checksum}
use mstack_cpp.Skbuff.{Skbuff, payload, headroom, pop_front, push_front, store_head, store_off}
use mstack_cpp.MacAddr.{MacAddr, zero_mac}
use mstack_cpp.Ipv4Header
use mstack_cpp.Ipv4Header.{Ipv4Header}
use mstack_cpp.NeighCache
use mstack_cpp.NeighCache.{NeighCache}
use mstack_cpp.RoutingTable
use mstack_cpp.RoutingTable.{Route, RoutingTable}
use mstack_cpp.Packets.{Ipv4Packet, EthernetFrame}
use mstack_cpp.Protocol.{Lower, enqueue}
use mstack_cpp.Arp.{Arp, async_resolve}
use mstack_cpp.Tcb.{is_some}

-- `ipv4_header_t::fixed_size()`, the offset of `header_chsum` in it, and `ipv4::PROTO`.
abbrev pub size : ℕ
size = 20

abbrev pub chsum_off : ℕ
chsum_off = 10

abbrev pub proto_ipv4 : ℕ
proto_ipv4 = 0x0800

pub record Ipv4 : Type 0 where
  pub seq : ℕ
  pub lower : Lower EthernetFrame

abbrev pub header_of : ℕ → Ipv4Packet → Ipv4Header
header_of seq pkt_in = record {
  version = 0x4;
  header_length = 0x5;
  tos = 0x0;
  total_length = u16 (length (payload pkt_in.skb) + size);
  id = seq;
  nop = 0;
  df = 1;
  mf = 0;
  frag_offset = 0;
  ttl = 0x40;
  proto_type = pkt_in.proto;
  header_chsum = 0;
  src_addr = pkt_in.src_addrv4;
  dst_addr = pkt_in.dst_addrv4;
}

-- The datagram, before the route is looked up.
pub datagram : ℕ → ℕ → Ipv4Packet → Result Skbuff
datagram base seq pkt_in = do
  assert (not (ltb (headroom pkt_in.skb) size))
  pushed ← push_front size pkt_in.skb
  let skb_out = store_head (Ipv4Header.produce (header_of seq pkt_in)) pushed
  header_chsum_net ← checksum (base + skb_out.head) (take size (payload skb_out)) 0
  ok (store_off chsum_off (to_bytes 2 header_chsum_net) skb_out)

unfoldable pub next_hop : ℕ → RoutingTable → Option Route
next_hop dst rt = elim (RoutingTable.query dst rt) [
  | none ↦ RoutingTable.query_default rt
  | some nh ↦ some nh
]

-- The link address that `assert(src_mac_opt)` demands.
pub asserted : {A : Type 0} → Option A → Result A
asserted none = fault assertion
asserted (some a) = ok a

pub send_by : (ℕ → ℕ) → NeighCache → Route → Skbuff → Arp EthernetFrame → Result (Arp EthernetFrame)
unfolding asserted
send_by junk arp_cache nh skb_out arp = do
  assert (is_some nh.dev)
  src_mac ← asserted (NeighCache.query nh.from_addrv4 arp_cache)
  let out_frame : EthernetFrame = record {
    src_mac_addr = src_mac;
    dst_mac_addr = zero_mac;
    proto = proto_ipv4;
    skb = skb_out;
    dev = nh.dev;
  }
  async_resolve junk src_mac nh.from_addrv4 nh.via_addrv4 nh.dev out_frame arp

pub process :
    (ℕ → ℕ)
    → ℕ
    → RoutingTable
    → NeighCache
    → Ipv4Packet
    → Ipv4 × Arp EthernetFrame
    → Result (Ipv4 × Arp EthernetFrame)
unfolding datagram next_hop send_by
process junk base rt arp_cache pkt_in (b, arp) = do
  skb_out ← datagram base b.seq pkt_in
  let b1 = record b { seq = u16 (b.seq + 1) }
  elim (next_hop pkt_in.dst_addrv4 rt) [
    | none ↦ ok (b1, arp)
    | some nh ↦ do arp1 ← send_by junk arp_cache nh skb_out arp; ok (b1, arp1)
  ]

-- The callback.
unfoldable pub resolved : EthernetFrame → MacAddr → Ipv4 → Ipv4
resolved out_frame nh_addr b = record b {
  lower = enqueue (record out_frame { dst_mac_addr = nh_addr }) b.lower;
}

-- `payload()[0]`.
pub first_byte : List ℕ → Result ℕ
first_byte [] = fault out_of_bounds
first_byte (fb ∷ rest) = ok fb

pub make_packet : EthernetFrame → Result (Option Ipv4Packet)
unfolding first_byte
make_packet frame_in = do
  assert (not (ltb (length (payload frame_in.skb)) size))
  fb ← first_byte (payload frame_in.skb)
  if low_bits (shr fb 4) 4 == 4
      then (do
        ipv4_header ← Ipv4Header.consume (payload frame_in.skb)
        skb ← pop_front size frame_in.skb
        ok (
            some (record {
              src_addrv4 = ipv4_header.src_addr;
              dst_addrv4 = ipv4_header.dst_addr;
              proto = ipv4_header.proto_type;
              skb = skb;
            })))
      else ok none
