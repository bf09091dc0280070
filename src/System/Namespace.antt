-- ===== src/System/Namespace.antt =====
-- The state of a namespace and its devices, mstack/mstack/netns.cpp, and the tasks that its loop may
-- run. A link address that a frame asks for is in `arp`, which shares the neighbour cache with `ipv4`.
-- `called` has the calls of `async_wait`'s callbacks, oldest first; what these do to the stack are
-- calls of their own.
use mstack_cpp.Base.{
  ℕ, List, [], ◌∷◌, Bool, true, false, ◌&&◌, ltb, leb, Option, none, some, length,
}
use mstack_cpp.AddrMap
use mstack_cpp.AddrMap.{AddrMap}
use mstack_cpp.Skbuff.{Skbuff}
use mstack_cpp.Endpoint.{TcpPacket}
use mstack_cpp.RoutingTable.{RoutingTable}
use mstack_cpp.Packets.{Ipv4Packet, EthernetFrame}
use mstack_cpp.Protocol.{Lower, constructed, under_proto_update}
use mstack_cpp.Device.{Device}
use mstack_cpp.Arp.{Arp}
use mstack_cpp.Ipv4.{Ipv4}
use mstack_cpp.Tcp.{Tcp}
use mstack_cpp.Manager.{Manager}

-- `reading` says of a device whether a read is outstanding.
pub record System (Ring Waiter Cb : Type 0) : Type 0 where
  pub tcb_m : Manager Ring
  pub tcp : Tcp Waiter Cb
  pub icmp : Lower Ipv4Packet
  pub arp : Arp EthernetFrame
  pub rt : RoutingTable
  pub ipv4 : Ipv4
  pub eth : Lower (Skbuff × Option ℕ)
  pub devices : AddrMap Device
  pub reading : AddrMap Bool
  pub called : List (Waiter × TcpPacket)

-- `netns::impl::impl`: every layer but the first is told the layer below it.
unfoldable pub netns : {Ring Waiter Cb : Type 0} → System Ring Waiter Cb
unfolding under_proto_update
netns = record {
  tcb_m = record { rules = []; tcbs = []; packet_queue = [] };
  tcp = record {
    rules = [];
    rcv_raw_states = [];
    posted = [];
    wrote = [];
    lower = under_proto_update constructed;
  };
  icmp = under_proto_update constructed;
  arp = record {
    arp_cache = [];
    on_replies = [];
    posted = [];
    lower = under_proto_update constructed;
  };
  rt = record { table = []; default = none };
  ipv4 = record { seq = 0; lower = under_proto_update constructed };
  eth = under_proto_update constructed;
  devices = [];
  reading = [];
  called = [];
}

-- What the loop of `io_ctx_` may run next: a task that a layer posted, or the completion of a read
-- or a write of a device, with an error or not. A read gives the bytes that it stored.
pub data Task : Type 0 where
  tcb_m_task tcp_task icmp_task arp_task ipv4_task eth_task resolve_task wait_task : Task
  read : ℕ → Bool → List ℕ → Task
  write : ℕ → Bool → Task

abbrev pub is_cons : {A : Type 0} → List A → Bool
is_cons [] = false
is_cons (x ∷ xs) = true

abbrev pub is_writing : Option Device → Bool
is_writing none = false
is_writing (some d) = is_cons d.writing

abbrev pub is_reading : Option Bool → Bool
is_reading none = false
is_reading (some outstanding) = outstanding

abbrev pub read_size : ℕ
read_size = 1500

module _ {Ring Waiter Cb : Type 0} where
  -- Whether a task stands in the loop's queue. Every packet in the manager's queue has its task.
  unfoldable pub ready : Task → System Ring Waiter Cb → Bool
  unfolding AddrMap.find
  ready tcb_m_task s = is_cons s.tcb_m.packet_queue
  ready tcp_task s = ltb 0 s.tcp.lower.posted
  ready icmp_task s = ltb 0 s.icmp.posted
  ready arp_task s = ltb 0 s.arp.lower.posted
  ready ipv4_task s = ltb 0 s.ipv4.lower.posted
  ready eth_task s = ltb 0 s.eth.posted
  ready resolve_task s = is_cons s.arp.posted
  ready wait_task s = is_cons s.tcp.posted
  ready (read dev ec bytes) s =
      is_reading (AddrMap.find dev s.reading) && leb (length bytes) read_size
  ready (write dev ec) s = is_writing (AddrMap.find dev s.devices)
