-- ===== src/Tests/Link.antt =====
-- The layers below TCP, one by one.
use mstack_cpp.Base.{
  ℕ, ◌+◌, ◌%◌, ◌^◌, ◌≡◌, refl, [], ◌∷◌, ◌++◌, map, arith, true, some, none, ok, ◌>>=◌, take, length,
}
use mstack_cpp.Wire.Patch.{Verifies}
use mstack_cpp.Skbuff.{Skbuff, payload}
use mstack_cpp.Skbuff.Laws.{IsValid}
use mstack_cpp.Skbuff.Filled.{filled, filled-IsValid, payload-filled}
use mstack_cpp.MacAddr.{MacAddr, is_broadcast, is_zero}
use mstack_cpp.ArpHeader
use mstack_cpp.ArpHeader.{ArpHeader}
use mstack_cpp.IcmpHeader
use mstack_cpp.IcmpHeader.{IcmpHeader}
use mstack_cpp.NeighCache
use mstack_cpp.RoutingTable
use mstack_cpp.RoutingTable.{Route, RoutingTable}
use mstack_cpp.AddrMap
use mstack_cpp.Packets.{Ipv4Packet, EthernetFrame}
use mstack_cpp.Protocol.{Lower, constructed, under_proto_update, enqueue}
use mstack_cpp.Protocol.Fifo
use mstack_cpp.Protocol.Fifo.{drain, drain-delivers}
use mstack_cpp.Arp
use mstack_cpp.Arp.{Arp, on_reply_at}
use mstack_cpp.Arp.Answer.{IsAnswer, process-IsAnswer}
use mstack_cpp.Arp.Resolve.{IsAsking, async_resolve-process_reply}
use mstack_cpp.Icmp
use mstack_cpp.Icmp.Laws.{IsReply, process-IsReply}
use mstack_cpp.Ipv4
use mstack_cpp.Ipv4.{Ipv4, next_hop}
use mstack_cpp.Ipv4Header
use mstack_cpp.Ipv4Header.{Ipv4Header}
use mstack_cpp.Ipv4.Laws.{out_frame, process-make_packet_ipv4}
use mstack_cpp.Device
use mstack_cpp.Device.{Device}
use mstack_cpp.Socket.{async_read}
use mstack_cpp.Socket.Laws.{async_read-completes}
use mstack_cpp.Device.Laws
use mstack_cpp.Device.Laws.{complete_all, complete_all-writes}
use mstack_cpp.Device.Errors.{process_all, process_all-stalled}

abbrev mac_a : MacAddr
mac_a = 2 ∷ 0 ∷ 0 ∷ 0 ∷ 0 ∷ 1 ∷ []

abbrev mac_b : MacAddr
mac_b = 2 ∷ 0 ∷ 0 ∷ 0 ∷ 0 ∷ 9 ∷ []

-- B asks for A's address, or answers A.
abbrev said : ℕ → ArpHeader
said oper = record {
  htype = 1;
  ptype = 0x0800;
  hlen = 6;
  plen = 4;
  oper = oper;
  sha = mac_b;
  spa = 0x0a0000fe;
  tha = mac_a;
  tpa = 0x0a000001;
}

abbrev arp_frame : ℕ → EthernetFrame
arp_frame oper = record {
  src_mac_addr = mac_b;
  dst_mac_addr = mac_a;
  proto = 0x0806;
  skb = filled 14 (ArpHeader.produce (said oper) ++ []);
  dev = some 0;
}

abbrev resolver : Arp ℕ
resolver = record {
  arp_cache = (0x0a000001, mac_a) ∷ [];
  on_replies = [];
  posted = [];
  lower = constructed;
}

process-IsAnswer_example :
    (reply : EthernetFrame) × (Arp.process (arp_frame 1) resolver
      ≡ ok (
        record (Arp.update (mac_b, 0x0a0000fe) resolver) { lower = enqueue reply constructed },
        [],
      ))
    × IsAnswer (said 1) mac_a (arp_frame 1) reply
process-IsAnswer_example =
    process-IsAnswer (said 1) [] mac_a (arp_frame 1) resolver (ground arith)
      (filled-IsValid 14 (ArpHeader.produce (said 1) ++ []))
      (payload-filled 14 (ArpHeader.produce (said 1) ++ [])) refl refl refl
      (unfold NeighCache.query AddrMap.find in refl) (ground arith)

async_resolve-process_reply_example :
    (asked : EthernetFrame) × (b1 b2 : Arp ℕ) × (Arp.async_resolve
        (λ i. i)
        mac_a
        0x0a000001
        0x0a0000fe
        (some 0)
        5
        resolver
      ≡ ok b1)
    × (b1.lower ≡ enqueue asked constructed)
    × IsAsking mac_a 0x0a000001 0x0a0000fe (some 0) asked
    × (Arp.process (arp_frame 2) b1
        ≡ ok (b2, map (λ w. (w, mac_b)) (on_reply_at 0x0a0000fe resolver ++ 5 ∷ [])))
    × (on_reply_at 0x0a0000fe b2 ≡ [])
    × (NeighCache.query 0x0a0000fe b2.arp_cache ≡ some mac_b)
async_resolve-process_reply_example =
    async_resolve-process_reply (λ i. i) mac_a 0x0a000001 (some 0) 5 resolver (said 2) []
      (arp_frame 2) (ground arith) (omega arith) (unfold NeighCache.query AddrMap.find in refl)
      (ground arith) (filled-IsValid 14 (ArpHeader.produce (said 2) ++ []))
      (payload-filled 14 (ArpHeader.produce (said 2) ++ [])) refl refl refl
      (unfold is_broadcast is_zero in refl)

abbrev echo : IcmpHeader
echo = record { proto_type = 8; code = 0; chsum = 0x1234; id = 7; seq = 1 }

abbrev ping : Ipv4Packet
ping = record {
  src_addrv4 = 0x0a0000fe;
  dst_addrv4 = 0x0a000001;
  proto = 1;
  skb = filled 34 (IcmpHeader.produce echo ++ 9 ∷ []);
}

process-IsReply_example :
    (reply : Ipv4Packet) × (Icmp.process 0 ping constructed ≡ ok (enqueue reply constructed))
    × IsReply echo (9 ∷ []) ping reply
    × (reply.skb.head ≡ 34)
process-IsReply_example =
    process-IsReply 0 echo (9 ∷ []) ping constructed (ground arith) refl
      (filled-IsValid 34 (IcmpHeader.produce echo ++ 9 ∷ []))
      (payload-filled 34 (IcmpHeader.produce echo ++ 9 ∷ [])) (omega arith) (ground arith)
      (omega arith)

abbrev route : Route
route = record { via_addrv4 = 0x0a0000fe; from_addrv4 = 0x0a000001; dev = some 0 }

abbrev routes : RoutingTable
routes = record { table = (0x0a000002, route) ∷ []; default = none }

abbrev neighbours : Arp EthernetFrame
neighbours = record {
  arp_cache = (0x0a000001, mac_a) ∷ [];
  on_replies = [];
  posted = [];
  lower = constructed;
}

abbrev ip : Ipv4
ip = record { seq = 65535; lower = constructed }

abbrev packet : Ipv4Packet
packet = record {
  src_addrv4 = 0x0a000001;
  dst_addrv4 = 0x0a000002;
  proto = 17;
  skb = filled 34 (1 ∷ 2 ∷ []);
}

process-make_packet_ipv4_example :
    (sent received : Skbuff) × (h : Ipv4Header) × (Ipv4.process
        (λ i. i)
        0
        routes
        neighbours.arp_cache
        packet
        (ip, neighbours)
      ≡ (Arp.async_resolve
            (λ i. i)
            mac_a
            0x0a000001
            0x0a0000fe
            (some 0)
            (out_frame mac_a (some 0) sent)
            neighbours
          >>= λ arp1. ok (record ip { seq = (65535 + 1) % 2 ^ 16 }, arp1)))
    × (payload sent ≡ Ipv4Header.produce h ++ payload packet.skb)
    × (h.id ≡ 65535)
    × Verifies (take 20 (payload sent))
    × (Ipv4.make_packet (out_frame mac_a (some 0) sent)
        ≡ ok (some (record packet { skb = received })))
    × IsValid received
    × (payload received ≡ payload packet.skb)
process-make_packet_ipv4_example =
    process-make_packet_ipv4 (λ i. i) 0 routes neighbours.arp_cache packet route 0 mac_a ip
      neighbours (filled-IsValid 34 (1 ∷ 2 ∷ [])) (omega arith) (omega arith) (omega arith)
      (omega arith) (omega arith) (omega arith)
      (unfold next_hop RoutingTable.query AddrMap.find in refl) refl
      (unfold NeighCache.query AddrMap.find in refl)

-- Two packets were enqueued.
abbrev queued : Lower ℕ
queued = record { under = true; packet_queue = 7 ∷ 8 ∷ []; posted = 2; delivered = [] }

queued-Life : Fifo.Life (7 ∷ 8 ∷ []) 0 queued
unfolding enqueue under_proto_update
queued-Life = Fifo.enqueues 8 (Fifo.enqueues 7 (Fifo.connects Fifo.start))

drain-delivers_example :
    (b' : Lower ℕ) × (drain 2 queued ≡ ok b')
    × (b'.delivered ++ b'.packet_queue ≡ 7 ∷ 8 ∷ [])
    × (length b'.packet_queue ≡ 0)
drain-delivers_example = drain-delivers queued queued-Life refl

abbrev first : Skbuff
first = filled 0 (1 ∷ [])

abbrev second : Skbuff
second = filled 0 (2 ∷ [])

abbrev busy : Device
busy = record { out_skb_q = first ∷ second ∷ []; writing = payload first ∷ []; written = [] }

busy-Life : Laws.Life (first ∷ second ∷ []) busy
unfolding Device.process Device.send_front_pkt_out
busy-Life =
    let one : Device = record {
      out_skb_q = first ∷ [];
      writing = payload first ∷ [];
      written = [];
    } in
    let life : Laws.Life (first ∷ []) one = Laws.processes first Laws.start refl in
    Laws.processes second life refl

complete_all-writes_example :
    (d' : Device) × (complete_all 2 busy ≡ ok d') × (d'.written ≡ map payload (first ∷ second ∷ []))
complete_all-writes_example = complete_all-writes busy busy-Life

process_all-stalled_example :
    (d1 d2 : Device) × (Device.completion true (payload first ∷ []) busy ≡ ok d1)
    × (process_all (second ∷ []) d1 ≡ ok d2)
    × (d2.writing ≡ [])
    × (d2.written ≡ [])
    × (d2.out_skb_q ≡ first ∷ second ∷ second ∷ [])
process_all-stalled_example =
    process_all-stalled first (second ∷ []) (second ∷ []) busy busy-Life refl

async_read-completes_example :
    async_read 3 (1 ∷ 1 ∷ 5 ∷ []) (7 ∷ 8 ∷ 9 ∷ 10 ∷ []) ≡ some (7 ∷ 8 ∷ 9 ∷ [], 10 ∷ [], 3)
async_read-completes_example =
    async_read-completes 3 1 (1 ∷ 5 ∷ []) (7 ∷ 8 ∷ 9 ∷ 10 ∷ []) (omega arith)
