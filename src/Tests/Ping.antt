-- ===== src/Tests/Ping.antt =====
-- An echo request from the network and its answer.
use mstack_cpp.Base.{ℕ, refl, [], ◌∷◌, List, ◌++◌, arith, Bool, true, false, none, some}
use mstack_cpp.Ring.Bounded.{BoundedList, bounded_list}
use mstack_cpp.MacAddr.{MacAddr}
use mstack_cpp.AddrMap
use mstack_cpp.Endpoint.{TwoEnds}
use mstack_cpp.EthernetHeader
use mstack_cpp.EthernetHeader.{EthernetHeader}
use mstack_cpp.Ipv4Header
use mstack_cpp.Ipv4Header.{Ipv4Header}
use mstack_cpp.IcmpHeader
use mstack_cpp.IcmpHeader.{IcmpHeader}
use mstack_cpp.NeighCache
use mstack_cpp.RoutingTable
use mstack_cpp.RoutingTable.{Route}
use mstack_cpp.Protocol.{under_proto_update}
use mstack_cpp.Ipv4.{next_hop}
use mstack_cpp.Tcp.{Tcp}
use mstack_cpp.Manager.{Indeterminate}
use mstack_cpp.System.{
  System, netns, Runs, icmp_task, resolve_task, ipv4_task, eth_task, read, write,
}
use mstack_cpp.System.Descent.{CanSend, idle_device}
use mstack_cpp.System.Ping.{IsPing, IsPong, IsIdle}
use mstack_cpp.System.Ping.Loop.{on_read-IsPong}
use mstack_cpp.Tests.Data.{env, block, ring}
use mstack_cpp.Tcb.{listen}

abbrev pub junk_tcb : Indeterminate BoundedList
junk_tcb = record {
  send = (block listen listen none (ring [] 0xfaf0) []).send;
  rcv_next = 0;
  rcv_mss = 0;
  moved_from = none;
}

abbrev pub own_mac : MacAddr
own_mac = 2 ∷ 0 ∷ 0 ∷ 0 ∷ 0 ∷ 1 ∷ []

abbrev pub peer_mac : MacAddr
peer_mac = 2 ∷ 0 ∷ 0 ∷ 0 ∷ 0 ∷ 9 ∷ []

abbrev pub frame_header : EthernetHeader
frame_header = record { dst_mac_addr = own_mac; src_mac_addr = peer_mac; proto = 0x0800 }

abbrev pub ip_header : Ipv4Header
ip_header = record {
  version = 4;
  header_length = 5;
  tos = 0;
  total_length = 29;
  id = 77;
  nop = 0;
  df = 1;
  mf = 0;
  frag_offset = 0;
  ttl = 64;
  proto_type = 1;
  header_chsum = 0;
  src_addr = 0x0a000002;
  dst_addr = 0x0a000001;
}

abbrev echo_header : IcmpHeader
echo_header = record { proto_type = 8; code = 0; chsum = 0x1234; id = 7; seq = 1 }

abbrev request : List ℕ
request =
    EthernetHeader.produce frame_header
    ++ (Ipv4Header.produce ip_header ++ (IcmpHeader.produce echo_header ++ 9 ∷ []))

abbrev pub to_peer : Route
to_peer = record { via_addrv4 = 0x0a000002; from_addrv4 = 0x0a000001; dev = some 0 }

abbrev pub no_interception : ℕ → TwoEnds → Tcp ℕ ℕ → Bool × Tcp ℕ ℕ
no_interception cb two_end t = (true, t)

-- A new namespace, its tables, and one device.
abbrev empty : System BoundedList ℕ ℕ
empty = netns

abbrev pub quiet : System BoundedList ℕ ℕ
quiet = record empty {
  arp = record empty.arp { arp_cache = (0x0a000001, own_mac) ∷ (0x0a000002, peer_mac) ∷ [] };
  rt = record { table = []; default = some to_peer };
  devices = (0, idle_device []) ∷ [];
  reading = (0, true) ∷ [];
}

request-IsPing : IsPing frame_header ip_header echo_header (9 ∷ []) request
request-IsPing = record {
  frame_fits = ground arith;
  frame_proto = refl;
  datagram_fits = ground arith;
  version = refl;
  datagram_proto = refl;
  icmp_fits = ground arith;
  request = refl;
  octets = ground arith;
  short = omega arith;
  whole = refl;
}

pub quiet-CanSend :
    CanSend 0 to_peer own_mac peer_mac 0x0a000002 [] quiet.rt quiet.arp quiet.ipv4 quiet.eth
      quiet.devices
unfolding netns under_proto_update
quiet-CanSend = record {
  ipv4_under = refl;
  ipv4_queue = refl;
  eth_under = refl;
  eth_queue = refl;
  resolving = refl;
  reachable = record {
    hop = unfold next_hop RoutingTable.query RoutingTable.query_default AddrMap.find in refl;
    has_dev = refl;
    own = unfold NeighCache.query AddrMap.find in refl;
    neighbour = unfold NeighCache.query AddrMap.find in refl;
    own_mac = ground arith;
    neighbour_mac = ground arith;
  };
  device = unfold AddrMap.find in refl;
}

quiet-IsIdle : IsIdle 0 0 to_peer own_mac peer_mac 0x0a000002 [] quiet
unfolding netns under_proto_update
quiet-IsIdle = record {
  icmp_under = refl;
  icmp_queue = refl;
  sends = quiet-CanSend;
  reading = unfold AddrMap.find in refl;
}

on_read-IsPong_example :
    (pong : List ℕ) × (s' : System BoundedList ℕ ℕ) × Runs
      (λ i. i)
      0
      bounded_list
      env
      junk_tcb
      no_interception
      (read 0 false request ∷ icmp_task ∷ resolve_task ∷ ipv4_task ∷ eth_task ∷ write 0 false ∷ [])
      quiet
      s'
    × IsPong own_mac peer_mac quiet.ipv4.seq ip_header echo_header (9 ∷ []) pong
    × IsIdle 0 0 to_peer own_mac peer_mac 0x0a000002 (pong ∷ []) s'
on_read-IsPong_example =
    on_read-IsPong (λ i. i) 0 bounded_list env junk_tcb no_interception 0 0 to_peer own_mac peer_mac
      frame_header ip_header echo_header (9 ∷ []) request [] quiet (omega arith) request-IsPing
      quiet-IsIdle
