-- ===== src/Tests/Transfer.antt =====
-- A segment on its way through two stacks, and packets that a program reads for itself.
use mstack_cpp.Base.{
  false, ap, Option, none, ℕ, ◌≡◌, refl, [], ◌∷◌, ◌++◌, arith, Bool, true, some, ok,
}
use mstack_cpp.Wire.Patch.{Verifies}
use mstack_cpp.Skbuff.{Skbuff, payload}
use mstack_cpp.Skbuff.Filled.{filled, filled-IsValid, payload-filled}
use mstack_cpp.MacAddr.{MacAddr}
use mstack_cpp.Endpoint.{TwoEnds, TcpPacket}
use mstack_cpp.TcpHeader
use mstack_cpp.TcpHeader.{TcpHeader}
use mstack_cpp.NeighCache
use mstack_cpp.RoutingTable
use mstack_cpp.RoutingTable.{Route, RoutingTable}
use mstack_cpp.AddrMap
use mstack_cpp.Packets.{Ipv4Packet, EthernetFrame}
use mstack_cpp.Protocol.{constructed, enqueue}
use mstack_cpp.Arp.{Arp}
use mstack_cpp.Ipv4.{Ipv4, next_hop}
use mstack_cpp.Tcp
use mstack_cpp.Tcp.{
  Tcp, Rule, kept, packet_of, ends_of, pseudo_header, set_state, no_packets, async_wait, wait_at,
}
use mstack_cpp.Interceptor.{Interceptor, RawSocket, raw_socket, called, intercept, async_read}
use mstack_cpp.Interceptor.Laws.{make_packet-async_read}
use mstack_cpp.Tcp.Meanwhile.{runs_task}
use mstack_cpp.Tcp.Queue.{intercepts, waits, meanwhile, IsOrdered, Reads-IsOrdered}
use mstack_cpp.Tcp.States
use mstack_cpp.Tcp.Laws.{IsSent, process-IsSent}
use mstack_cpp.Stack.{Sendable, Reachable, Down, Up}
use mstack_cpp.Stack.Transfer.{process-make_packet_stack}

abbrev header : TcpHeader
header = record {
  src_port = 4000;
  dst_port = 80;
  seq_no = 1;
  ack_no = 2;
  data_offset = 5;
  reserved = 0;
  cwr = 0;
  ece = 0;
  urg = 0;
  ack = 1;
  psh = 1;
  rst = 0;
  syn = 0;
  fin = 0;
  window = 1000;
  chsum = 0;
  urgent_pointer = 0;
}

abbrev segment : TcpPacket
segment = record {
  proto = 6;
  remote_ep = record { addrv4 = 0x0a000002; addrv4_port = 80 };
  local_ep = record { addrv4 = 0x0a000001; addrv4_port = 4000 };
  skb = filled 34 (TcpHeader.produce header ++ 7 ∷ 8 ∷ []);
}

segment-Sendable : Sendable 0 header (7 ∷ 8 ∷ []) segment
segment-Sendable = record {
  proto = refl;
  fits = ground arith;
  reserved = refl;
  src_port = refl;
  dst_port = refl;
  src = omega arith;
  dst = omega arith;
  valid = filled-IsValid 34 (TcpHeader.produce header ++ 7 ∷ 8 ∷ []);
  bytes = payload-filled 34 (TcpHeader.produce header ++ 7 ∷ 8 ∷ []);
  octets = ground arith;
  short = omega arith;
  room = omega arith;
  even = omega arith;
}

abbrev gateway : Route
gateway = record { via_addrv4 = 0x0a0000fe; from_addrv4 = 0x0a000001; dev = some 0 }

abbrev routes : RoutingTable
routes = record { table = []; default = some gateway }

abbrev own_mac : MacAddr
own_mac = 2 ∷ 0 ∷ 0 ∷ 0 ∷ 0 ∷ 1 ∷ []

abbrev gateway_mac : MacAddr
gateway_mac = 2 ∷ 0 ∷ 0 ∷ 0 ∷ 0 ∷ 9 ∷ []

abbrev resolver : Arp EthernetFrame
resolver = record {
  arp_cache = (0x0a000001, own_mac) ∷ (0x0a0000fe, gateway_mac) ∷ [];
  on_replies = [];
  posted = [];
  lower = constructed;
}

segment-Reachable : Reachable 0x0a000002 routes resolver gateway 0 own_mac gateway_mac
segment-Reachable = record {
  hop = unfold next_hop RoutingTable.query RoutingTable.query_default AddrMap.find in refl;
  has_dev = refl;
  own = unfold NeighCache.query AddrMap.find in refl;
  neighbour = unfold NeighCache.query AddrMap.find in refl;
  own_mac = ground arith;
  neighbour_mac = ground arith;
}

abbrev layer : Tcp ℕ ℕ
layer = record { rules = []; rcv_raw_states = []; posted = []; wrote = []; lower = constructed }

abbrev no_callback : ℕ → TwoEnds → Tcp ℕ ℕ → Bool × Tcp ℕ ℕ
no_callback cb two_end t = (true, t)

abbrev ip : Ipv4
ip = record { seq = 7; lower = constructed }

process-make_packet_stack_example :
    (wire : Skbuff) × (received : TcpPacket) × (chsum : ℕ) × Down
      (λ i. i)
      0
      routes
      segment
      constructed
      ip
      resolver
      constructed
      gateway_mac
      wire
    × Up no_callback layer (some 1) wire received
    × (received.remote_ep ≡ segment.local_ep)
    × (received.local_ep ≡ segment.remote_ep)
    × (payload received.skb ≡ TcpHeader.produce (record header { chsum = chsum }) ++ 7 ∷ 8 ∷ [])
    × Verifies (pseudo_header segment ++ payload received.skb)
process-make_packet_stack_example =
    process-make_packet_stack no_callback (λ i. i) 0 routes header (7 ∷ 8 ∷ []) segment constructed
      ip resolver constructed gateway 0 own_mac gateway_mac (λ skb. skb) (some 1) layer
      segment-Sendable segment-Reachable (omega arith) (λ skb v. v) (λ skb v. refl)
      (unfold States.find in refl) tt

process-IsSent_example :
    (sent : Ipv4Packet) × (Tcp.process 0 segment constructed ≡ ok (enqueue sent constructed))
    × IsSent header (7 ∷ 8 ∷ []) segment sent
process-IsSent_example =
    process-IsSent 0 header (7 ∷ 8 ∷ []) segment constructed segment-Sendable.valid
      segment-Sendable.bytes (omega arith) (omega arith) segment-Sendable.octets (omega arith)

abbrev ends : TwoEnds
ends = record { remote_ep = segment.remote_ep; local_ep = segment.local_ep }

-- A rule kept the first packet of the pair, and then a reader came.
abbrev intercepted : Tcp ℕ ℕ
intercepted = set_state ends (record { pq = segment ∷ []; on_data_receive = [] }) layer

abbrev read : Tcp ℕ ℕ
read = record {
  rules = [];
  rcv_raw_states = (ends, no_packets) ∷ [];
  posted = (5, segment) ∷ [];
  wrote = [];
  lower = constructed;
}

Reads-IsOrdered_example :
    IsOrdered ends (segment ∷ []) (5 ∷ []) ((5, segment) ∷ []) (record read { posted = [] })
Reads-IsOrdered_example = Reads-IsOrdered (
    meanwhile
      (waits intercepted read 5 (intercepts layer segment)
        (unfold async_wait wait_at States.find States.assign in refl))
      (runs_task read (5, segment) [] refl))

abbrev returned : Option (Tcp ℕ ℕ) → Tcp ℕ ℕ → Bool × Tcp ℕ ℕ
returned none t = (false, t)
returned (some t') t = (true, t')

-- An interceptor of everything, one of whose callbacks reads at once.
abbrev reads_at_once : ℕ → RawSocket → Tcp ℕ ℕ → Bool × Tcp ℕ ℕ
reads_at_once user sk t = returned (async_read sk user t) t

abbrev awaiting : Interceptor ℕ
awaiting = record { cbs = 5 ∷ [] }

abbrev everything : Rule ℕ
everything = record { matcher = λ remote_ep local_ep. true; cb = 0 }

abbrev ruled : Tcp ℕ ℕ
ruled = record layer { rules = everything ∷ [] }

abbrev incoming : Ipv4Packet
incoming = record { src_addrv4 = 0x0a000001; dst_addrv4 = 0x0a000002; proto = 6; skb = segment.skb }

make_packet-async_read_example :
    (t' : Tcp ℕ ℕ) × (Tcp.make_packet (intercept reads_at_once awaiting) incoming ruled
      ≡ ok (t', [], kept))
    × (called (ends_of header incoming) awaiting
        ≡ (record { cbs = [] }, some (5, raw_socket (ends_of header incoming))))
    × (t'.posted ≡ (5, packet_of header incoming) ∷ [])
    × (States.find (ends_of header incoming) t'.rcv_raw_states ≡ some no_packets)
make_packet-async_read_example =
    make_packet-async_read reads_at_once header (7 ∷ 8 ∷ []) incoming [] [] everything 5 [] 5
      awaiting ruled segment-Sendable.fits refl segment-Sendable.bytes refl
      (unfold States.find in refl) tt refl refl (λ sk t1 t2 e. ap (λ o. returned o t1) e)
