-- ===== src/Icmp.antt =====
-- mstack/mstack/icmp.hpp: the answer to an echo request. `base` is the address of the buffer.
pub mod Laws
use mstack_cpp.Base.{
  ℕ, ◌+◌, ◌==◌, Bool, not, ltb, if◌then◌else◌, Result, ok, ◌>>=◌, ◌>>◌, assert, length,
}
use mstack_cpp.Wire.{to_bytes, checksum}
use mstack_cpp.Skbuff.{Skbuff, payload, headroom, pop_front, push_front, store_head, store_off}
use mstack_cpp.IcmpHeader
use mstack_cpp.IcmpHeader.{IcmpHeader}
use mstack_cpp.Packets.{Ipv4Packet}
use mstack_cpp.Protocol.{Lower, enqueue}

-- `sizeof(icmp_header_t)`, and the offset of `chsum` in it.
abbrev pub size : ℕ
size = 8

abbrev pub chsum_off : ℕ
chsum_off = 2

abbrev pub proto_icmp : ℕ
proto_icmp = 0x01

abbrev pub reply_header : IcmpHeader → IcmpHeader
reply_header in_icmp_h = record {
  proto_type = 0;
  code = 0;
  chsum = 0;
  id = in_icmp_h.id;
  seq = in_icmp_h.seq;
}

pub async_reply : ℕ → IcmpHeader → Ipv4Packet → Lower Ipv4Packet → Result (Lower Ipv4Packet)
async_reply base in_icmp_h pkt_in lower = do
  assert (not (ltb (headroom pkt_in.skb) size))
  pushed ← push_front size pkt_in.skb
  let skb_out = store_head (IcmpHeader.produce (reply_header in_icmp_h)) pushed
  chsum_net ← checksum (base + skb_out.head) (payload skb_out) 0
  ok (
      enqueue
        (record {
          src_addrv4 = pkt_in.dst_addrv4;
          dst_addrv4 = pkt_in.src_addrv4;
          proto = pkt_in.proto;
          skb = store_off chsum_off (to_bytes 2 chsum_net) skb_out;
        })
        lower)

-- `process_request` only calls `async_reply`.
pub process : ℕ → Ipv4Packet → Lower Ipv4Packet → Result (Lower Ipv4Packet)
unfolding async_reply
process base pkt_in lower = do
  assert (not (ltb (length (payload pkt_in.skb)) size))
  in_icmp_h ← IcmpHeader.consume (payload pkt_in.skb)
  skb ← pop_front size pkt_in.skb
  if in_icmp_h.proto_type == 8
      then async_reply base in_icmp_h (record pkt_in { skb = skb }) lower
      else ok lower
