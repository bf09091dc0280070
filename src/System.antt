-- ===== src/System.antt =====
-- What the tasks of a namespace do: mstack/mstack/netns.cpp, the tasks that the layers post to
-- `io_ctx_` (mstack/mstack/base_protocol.hpp), and the reads of mstack/mstack/device.cpp. `base` is
-- the address of the buffers, of which only the parity counts: memory from `new` is aligned.
pub mod Namespace
pub mod Steps
pub mod Descent
pub mod Opening
pub mod Ping
pub mod Segments
pub use mstack_cpp.System.Namespace.{
  System, Task, tcb_m_task, tcp_task, icmp_task, arp_task, ipv4_task, eth_task, resolve_task,
  wait_task, read, write, is_cons, is_writing, is_reading, read_size,
}
unfoldable pub use mstack_cpp.System.Namespace.{netns, ready}
use mstack_cpp.Base.{
  ℕ, ◌≡◌, List, [], ◌∷◌, ◌++◌, Bool, true, false, ◌||◌, ◌&&◌, ltb, leb, ◌==◌, if◌then◌else◌, Option,
  none, some, Result, ok, fault, null_deref, dangling, out_of_bounds, ◌>>=◌, length,
}
use mstack_cpp.AddrMap
use mstack_cpp.AddrMap.{AddrMap}
use mstack_cpp.Ring.{CircularBuffer}
use mstack_cpp.Skbuff.{Skbuff, skbuff, payload}
use mstack_cpp.MacAddr.{MacAddr}
use mstack_cpp.Endpoint.{TwoEnds, TcpPacket}
use mstack_cpp.TcpHeader
use mstack_cpp.RoutingTable.{RoutingTable}
use mstack_cpp.Packets.{Ipv4Packet, EthernetFrame}
use mstack_cpp.Protocol.{
  Lower, constructed, under_proto_update, run_posted, dispatch, receive_from_below,
}
use mstack_cpp.Netns
use mstack_cpp.Netns.{above_eth, above_ipv4, above_tcp}
use mstack_cpp.Device
use mstack_cpp.Device.{Device}
use mstack_cpp.Arp
use mstack_cpp.Arp.{Arp, Calls}
use mstack_cpp.Ethernet
use mstack_cpp.Icmp
use mstack_cpp.Ipv4
use mstack_cpp.Ipv4.{Ipv4, resolved}
use mstack_cpp.Tcp
use mstack_cpp.Tcp.{Tcp, kept, passed, passed_empty, ends_of}
use mstack_cpp.Tcb.{Env, is_some}
use mstack_cpp.Manager
use mstack_cpp.Manager.{Manager, Indeterminate, first_match}

-- What the layer below does with the front of a queue, in the task that takes it off.
pub handed :
    {Packet State : Type 0}
    → (Packet → State → Result State)
    → Bool
    → List Packet
    → State
    → Result State
handed receive under [] s = ok s
handed receive under (pkt ∷ rest) s = if under then receive pkt s else ok s

-- The callbacks that `arp` calls are those of `ipv4`.
pub call_all : Calls EthernetFrame → Ipv4 → Ipv4
call_all [] b = b
call_all ((out_frame, nh_addr) ∷ calls) b = call_all calls (resolved out_frame nh_addr b)

abbrev drop_front : {A : Type 0} → List A → List A
drop_front [] = []
drop_front (x ∷ xs) = xs

module _ {Ring Waiter Cb : Type 0} where
  -- `async_receive` of a device, which starts the next read.
  pub async_receive : ℕ → System Ring Waiter Cb → System Ring Waiter Cb
  async_receive dev s = record s { reading = AddrMap.assign dev true s.reading }

  -- The handler of `eth_`: a null pointer to a device is undefined behaviour, and a device that the
  -- namespace does not have is one that was destroyed.
  pub to_device : Skbuff × Option ℕ → System Ring Waiter Cb → Result (System Ring Waiter Cb)
  to_device (skb_in, none) s = fault null_deref
  to_device (skb_in, some dev) s = elim (AddrMap.find dev s.devices) [
    | none ↦ fault dangling
    | some d ↦ (do
      d1 ← Device.process skb_in d
      ok (record s { devices = AddrMap.assign dev d1 s.devices }))
  ]

  -- The completion of a device's first write.
  pub written : ℕ → Bool → System Ring Waiter Cb → Result (System Ring Waiter Cb)
  written dev ec s = elim (AddrMap.find dev s.devices) [
    | none ↦ fault dangling
    | some d ↦ (do
      d1 ← Device.completion ec d.writing d
      ok (record s { devices = AddrMap.assign dev d1 s.devices }))
  ]

  pub receive_arp : EthernetFrame → System Ring Waiter Cb → Result (System Ring Waiter Cb)
  unfolding call_all
  receive_arp frame s = do
    (a, calls) ← Arp.process frame s.arp
    ok (record s { arp = a; ipv4 = call_all calls s.ipv4 })

  pub send_frame : EthernetFrame → System Ring Waiter Cb → Result (System Ring Waiter Cb)
  send_frame frame s = do l ← Ethernet.process frame s.eth; ok (record s { eth = l })

  -- The task of `async_resolve`.
  pub resolve : Calls EthernetFrame → System Ring Waiter Cb → System Ring Waiter Cb
  resolve [] s = s
  resolve ((out_frame, nh_addr) ∷ rest) s = record s {
    arp = record s.arp { posted = rest };
    ipv4 = resolved out_frame nh_addr s.ipv4;
  }

  -- The task of `async_wait`.
  pub call_waiter : List (Waiter × TcpPacket) → System Ring Waiter Cb → System Ring Waiter Cb
  call_waiter [] s = s
  call_waiter (call ∷ rest) s = record s {
    tcp = record s.tcp { posted = rest };
    called = s.called ++ call ∷ [];
  }

  -- The tasks that `enqueue` posts, layer by layer.
  pub run_arp : System Ring Waiter Cb → Result (System Ring Waiter Cb)
  unfolding handed send_frame
  run_arp s = do
    l ← run_posted s.arp.lower
    handed send_frame s.arp.lower.under s.arp.lower.packet_queue
        (record s { arp = record s.arp { lower = l } })

  pub run_ipv4 : System Ring Waiter Cb → Result (System Ring Waiter Cb)
  unfolding handed send_frame
  run_ipv4 s = do
    l ← run_posted s.ipv4.lower
    handed send_frame s.ipv4.lower.under s.ipv4.lower.packet_queue
        (record s { ipv4 = record s.ipv4 { lower = l } })

  pub run_eth : System Ring Waiter Cb → Result (System Ring Waiter Cb)
  unfolding handed to_device
  run_eth s = do
    l ← run_posted s.eth
    handed to_device s.eth.under s.eth.packet_queue (record s { eth = l })

  module _ (junk : ℕ → ℕ) (base : ℕ) where
    pub receive_icmp : Ipv4Packet → System Ring Waiter Cb → Result (System Ring Waiter Cb)
    receive_icmp pkt_in s = do l ← Icmp.process base pkt_in s.icmp; ok (record s { icmp = l })

    pub send_datagram : Ipv4Packet → System Ring Waiter Cb → Result (System Ring Waiter Cb)
    send_datagram pkt_in s = do
      (b, a) ← Ipv4.process junk base s.rt s.arp.arp_cache pkt_in (s.ipv4, s.arp)
      ok (record s { ipv4 = b; arp = a })

    pub send_segment : TcpPacket → System Ring Waiter Cb → Result (System Ring Waiter Cb)
    send_segment pkt_in s = do
      l ← Tcp.process base pkt_in s.tcp.lower
      ok (record s { tcp = record s.tcp { lower = l } })

    pub run_tcb_m : System Ring Waiter Cb → Result (System Ring Waiter Cb)
    unfolding handed send_segment
    run_tcb_m s =
        handed send_segment true s.tcb_m.packet_queue
          (record s { tcb_m = record s.tcb_m { packet_queue = drop_front s.tcb_m.packet_queue } })

    pub run_tcp : System Ring Waiter Cb → Result (System Ring Waiter Cb)
    unfolding handed send_datagram
    run_tcp s = do
      l ← run_posted s.tcp.lower
      handed send_datagram s.tcp.lower.under s.tcp.lower.packet_queue
          (record s { tcp = record s.tcp { lower = l } })

    pub run_icmp : System Ring Waiter Cb → Result (System Ring Waiter Cb)
    unfolding handed send_datagram
    run_icmp s = do
      l ← run_posted s.icmp
      handed send_datagram s.icmp.under s.icmp.packet_queue (record s { icmp = l })

    module _ (C : CircularBuffer Ring) (env : Env) (junk_tcb : Indeterminate Ring)
        (intercept : Cb → TwoEnds → Tcp Waiter Cb → Bool × Tcp Waiter Cb) where
      pub receive_packet : TcpPacket → System Ring Waiter Cb → Result (System Ring Waiter Cb)
      receive_packet pkt_in s = elim (dispatch pkt_in.proto above_tcp) [
        | none ↦ ok s
        | some object ↦ (do
          m ← Manager.process C env junk_tcb pkt_in s.tcb_m
          ok (record s { tcb_m = m }))
      ]

      -- A packet whose buffer was moved away reaches the manager, and a block that reads its
      -- header reads through a null pointer.
      pub receive_empty : TwoEnds → System Ring Waiter Cb → Result (System Ring Waiter Cb)
      receive_empty two_end s =
          if is_some (Manager.find two_end s.tcb_m.tcbs)
            || is_some (first_match two_end s.tcb_m.rules)
          then fault null_deref
          else ok s

      pub receive_segment : Ipv4Packet → System Ring Waiter Cb → Result (System Ring Waiter Cb)
      unfolding receive_packet receive_empty
      receive_segment pkt_in s = do
        (t, calls, fate) ← Tcp.make_packet intercept pkt_in s.tcp
        let s1 : System Ring Waiter Cb = record s { tcp = t; called = s.called ++ calls }
        elim fate [
          | kept ↦ ok s1
          | passed pkt ↦ receive_packet pkt s1
          | passed_empty ↦ (do
            tcph ← TcpHeader.consume (payload pkt_in.skb)
            receive_empty (ends_of tcph pkt_in) s1)
        ]

      pub to_transport :
          Option (ℕ × Ipv4Packet) → System Ring Waiter Cb → Result (System Ring Waiter Cb)
      unfolding receive_segment receive_icmp
      to_transport none s = ok s
      to_transport (some (object, pkt)) s =
          if object == Netns.tcp then receive_segment pkt s else receive_icmp pkt s

      pub receive_datagram : EthernetFrame → System Ring Waiter Cb → Result (System Ring Waiter Cb)
      unfolding to_transport
      receive_datagram frame s = do
        r ← receive_from_below Ipv4.make_packet (λ pkt. pkt.proto) above_ipv4 frame
        to_transport r s

      pub to_network :
          Option (ℕ × EthernetFrame) → System Ring Waiter Cb → Result (System Ring Waiter Cb)
      unfolding receive_datagram receive_arp
      to_network none s = ok s
      to_network (some (object, frame)) s =
          if object == Netns.ipv4 then receive_datagram frame s else receive_arp frame s

      -- `eth_.receive(skb, dev)`.
      pub receive_frame : Skbuff → ℕ → System Ring Waiter Cb → Result (System Ring Waiter Cb)
      unfolding to_network
      receive_frame skb_in dev s = do
        r ←
            receive_from_below
              (λ skb. Ethernet.make_packet skb (some dev) >>= λ frame. ok (some frame))
              (λ frame. frame.proto) above_eth skb_in
        to_network r s

      -- The completion of a read: after an error nothing is read any more.
      pub on_read : ℕ → Bool → List ℕ → System Ring Waiter Cb → Result (System Ring Waiter Cb)
      unfolding receive_frame async_receive
      on_read dev true bytes s = ok (record s { reading = AddrMap.assign dev false s.reading })
      on_read dev false bytes s = do
        skb ← skbuff bytes (length bytes) 0
        s1 ← receive_frame skb dev s
        ok (async_receive dev s1)

      unfoldable pub step : Task → System Ring Waiter Cb → Result (System Ring Waiter Cb)
      unfolding run_tcb_m run_tcp run_icmp run_arp run_ipv4 run_eth resolve call_waiter on_read
          written
      step tcb_m_task s = run_tcb_m s
      step tcp_task s = run_tcp s
      step icmp_task s = run_icmp s
      step arp_task s = run_arp s
      step ipv4_task s = run_ipv4 s
      step eth_task s = run_eth s
      step resolve_task s = ok (resolve s.arp.posted s)
      step wait_task s = ok (call_waiter s.tcp.posted s)
      step (read dev ec bytes) s = on_read dev ec bytes s
      step (write dev ec) s = written dev ec s

      -- Tasks that the loop runs one after the other, each of which it may run next.
      pub data Runs : List Task → System Ring Waiter Cb → System Ring Waiter Cb → Type 0 where
        done : {s : System Ring Waiter Cb} → Runs [] s s
        runs :
            {task : Task} {tasks : List Task} {s s1 s2 : System Ring Waiter Cb}
            → ready task s ≡ true
            → step task s ≡ ok s1
            → Runs tasks s1 s2
            → Runs (task ∷ tasks) s s2
