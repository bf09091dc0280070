-- ===== src/System/Descent.antt =====
-- A datagram on its way from `ipv4` to a device: the tasks that it takes, and its frame.
use mathlib.Core.Path.{subst}
use mstack_cpp.Base.{
  ℕ, ◌+◌, ◌%◌, ◌^◌, ◌≤◌, ◌≡◌, refl, ◌∙◌, ap, List, [], ◌∷◌, ◌++◌, Bool, true, false, Option, some,
  ok, arith, take, take-append,
}
use mstack_cpp.AddrMap
use mstack_cpp.AddrMap.{AddrMap}
use mstack_cpp.AddrMap.Laws.{find-assign}
use mstack_cpp.Ring.{CircularBuffer}
use mstack_cpp.Wire.Patch.{Verifies}
use mstack_cpp.Skbuff.{Skbuff, payload}
use mstack_cpp.Skbuff.Laws.{IsValid}
use mstack_cpp.MacAddr.{MacAddr}
use mstack_cpp.Endpoint.{TwoEnds}
use mstack_cpp.EthernetHeader
use mstack_cpp.EthernetHeader.Roundtrip.{Fits as FrameFits}
use mstack_cpp.Ipv4Header
use mstack_cpp.Ipv4Header.{Ipv4Header}
use mstack_cpp.Ipv4Header.Roundtrip.{length-produce as length-produce_ipv4}
use mstack_cpp.RoutingTable.{Route, RoutingTable}
use mstack_cpp.Packets.{Ipv4Packet, EthernetFrame}
use mstack_cpp.Protocol.{Lower, enqueue}
use mstack_cpp.Device.{Device}
use mstack_cpp.Device.Laws.{idle-process, idle-completion}
use mstack_cpp.Arp.{Arp}
use mstack_cpp.Ethernet
use mstack_cpp.Ethernet.{header_of}
use mstack_cpp.Ethernet.Laws.{sent_skb, process_lem, sent_skb-bytes}
use mstack_cpp.Ipv4
use mstack_cpp.Ipv4.{Ipv4, next_hop, resolved}
use mstack_cpp.Ipv4.Laws.{out_frame, process-posts}
use mstack_cpp.Ipv4.Header.{checked}
use mstack_cpp.Tcp.{Tcp}
use mstack_cpp.Tcb.{Env}
use mstack_cpp.Manager.{Indeterminate}
use mstack_cpp.Stack.{Reachable}
use mstack_cpp.System.{
  System, resolve_task, ipv4_task, eth_task, write, ready, Runs, done, runs, is_cons, is_writing,
}
use mstack_cpp.System.Steps.{taken, step_resolve_task, step_ipv4_task, step_eth_task, step_write}

abbrev pub idle_device : List (List ℕ) → Device
idle_device written = record { out_skb_q = []; writing = []; written = written }

-- The queues of `ipv4` and `ethernet` are empty, and the address `peer` is reached over the idle
-- device `out`.
pub record CanSend (out : ℕ) (hop : Route) (own neighbour : MacAddr) (peer : ℕ)
    (written : List (List ℕ)) (rt : RoutingTable) (arp : Arp EthernetFrame) (ipv4 : Ipv4)
    (eth : Lower (Skbuff × Option ℕ)) (devices : AddrMap Device) : Type 0 where
  pub ipv4_under : ipv4.lower.under ≡ true
  pub ipv4_queue : ipv4.lower.packet_queue ≡ []
  pub eth_under : eth.under ≡ true
  pub eth_queue : eth.packet_queue ≡ []
  pub resolving : arp.posted ≡ []
  pub reachable : Reachable peer rt arp hop out own neighbour
  pub device : AddrMap.find out devices ≡ some (idle_device written)

-- The bytes of the frame of a datagram.
pub record IsFrame (own neighbour : MacAddr) (seq : ℕ) (q : Ipv4Packet) (bytes : List ℕ)
    : Type 0 where
  pub chsum : ℕ
  pub verifies : Verifies (Ipv4Header.produce (checked seq q chsum))
  pub whole :
      bytes
      ≡ EthernetHeader.produce
          (record { dst_mac_addr = neighbour; src_mac_addr = own; proto = 0x0800 })
        ++ (Ipv4Header.produce (checked seq q chsum) ++ payload q.skb)

abbrev pub towards : MacAddr → EthernetFrame → EthernetFrame
towards mac frame = record frame { dst_mac_addr = mac }

-- The frame that asks for the neighbour's address, and the one that has it.
pub record Descended (junk : ℕ → ℕ) (base out : ℕ) (own neighbour : MacAddr) (q : Ipv4Packet)
    (rt : RoutingTable) (arp : Arp EthernetFrame) (ipv4 : Ipv4) (eth : Lower (Skbuff × Option ℕ))
    : Type 0 where
  pub asking : EthernetFrame
  pub has_dev : asking.dev ≡ some out
  pub ipv4_step :
      Ipv4.process junk base rt arp.arp_cache q (ipv4, arp)
      ≡ ok (
        record ipv4 { seq = (ipv4.seq + 1) % 2 ^ 16 },
        record arp { posted = arp.posted ++ (asking, neighbour) ∷ [] },
      )
  pub ethernet_step :
      Ethernet.process (towards neighbour asking) eth
      ≡ ok (enqueue (sent_skb (towards neighbour asking), asking.dev) eth)
  pub is_frame : IsFrame own neighbour ipv4.seq q (payload (sent_skb (towards neighbour asking)))

pub descend :
    (junk : ℕ → ℕ) (base out : ℕ) (hop : Route) (own neighbour : MacAddr) (q : Ipv4Packet)
    (written : List (List ℕ)) (rt : RoutingTable) (arp : Arp EthernetFrame) (ipv4 : Ipv4)
    (eth : Lower (Skbuff × Option ℕ)) (devices : AddrMap Device)
    → base % 2 ≡ 0
    → CanSend out hop own neighbour q.dst_addrv4 written rt arp ipv4 eth devices
    → IsValid q.skb
    → q.skb.head ≡ 34
    → Descended junk base out own neighbour q rt arp ipv4 eth
descend junk base out hop own neighbour q written rt arp ipv4 eth devices even i v at_head =
    let reach = i.reachable in
    let (skb, e, w) =
      process-posts junk base rt q hop out own neighbour ipv4 arp v (omega (arith, at_head))
        (omega (arith, at_head, even)) reach.hop reach.has_dev reach.own reach.neighbour in
    let frame = towards neighbour (out_frame own hop.dev skb) in
    let fits : FrameFits (header_of frame) = record {
      dst_mac_addr = reach.neighbour_mac;
      src_mac_addr = reach.own_mac;
      proto = omega arith;
    } in
    let room : EthernetHeader.size ≤ skb.head = omega (arith, at_head, w.room) in
    let (valid, sent) = sent_skb-bytes frame w.valid fits room in
    let ip = checked ipv4.seq q w.chsum in
    record {
      asking = out_frame own hop.dev skb;
      has_dev = reach.has_dev;
      ipv4_step = e;
      ethernet_step = process_lem frame out eth reach.has_dev room;
      is_frame = record {
        chsum = w.chsum;
        verifies =
            subst Verifies
              (ap (take 20) w.bytes
                ∙ take-append 20 (Ipv4Header.produce ip) (payload q.skb) (length-produce_ipv4 ip))
              w.verifies;
        whole = sent ∙ ap (λ ys. EthernetHeader.produce (header_of frame) ++ ys) w.bytes;
      };
    }

pub found_here :
    {A : Type 0} (key : ℕ) (a : A) (table : AddrMap A)
    → AddrMap.find key (AddrMap.assign key a table) ≡ some a
found_here key a table = find-assign key key a table ∙ ground arith

-- Once the task of `arp` has run and the device is idle again.
sends_again :
    {out : ℕ} {hop : Route} {own neighbour : MacAddr} {peer : ℕ} {written written' : List (List ℕ)}
    {rt : RoutingTable} {arp : Arp EthernetFrame} {ipv4 : Ipv4} {eth : Lower (Skbuff × Option ℕ)}
    {devices : AddrMap Device}
    → CanSend out hop own neighbour peer written rt arp ipv4 eth devices
    → (b : Ipv4) (l : Lower (Skbuff × Option ℕ)) (ds : AddrMap Device) → b.lower.under ≡ true
    → b.lower.packet_queue ≡ []
    → l.under ≡ true
    → l.packet_queue ≡ []
    → CanSend out hop own neighbour peer written' rt
        (record arp { posted = [] })
        b
        l
        (AddrMap.assign out (idle_device written') ds)
sends_again {out} {written' = written'} i b l ds bu bq lu lq = record {
  ipv4_under = bu;
  ipv4_queue = bq;
  eth_under = lu;
  eth_queue = lq;
  resolving = refl;
  reachable = record {
    hop = i.reachable.hop;
    has_dev = i.reachable.has_dev;
    own = i.reachable.own;
    neighbour = i.reachable.neighbour;
    own_mac = i.reachable.own_mac;
    neighbour_mac = i.reachable.neighbour_mac;
  };
  device = found_here out (idle_device written') ds;
}

module _ {Ring Waiter Cb : Type 0} (junk : ℕ → ℕ) (base : ℕ) (C : CircularBuffer Ring) (env : Env)
    (junk_tcb : Indeterminate Ring)
    (intercept : Cb → TwoEnds → Tcp Waiter Cb → Bool × Tcp Waiter Cb) where
  -- The state once `ipv4` was given the datagram.
  abbrev pub datagram_sent : EthernetFrame → MacAddr → System Ring Waiter Cb → System Ring Waiter Cb
  datagram_sent asking neighbour s = record s {
    ipv4 = record s.ipv4 { seq = (s.ipv4.seq + 1) % 2 ^ 16 };
    arp = record s.arp { posted = s.arp.posted ++ (asking, neighbour) ∷ [] };
  }

  -- The tasks from there to the end of the write, which leave the rest of the namespace alone.
  pub runs_down :
      (out : ℕ) (hop : Route) (own neighbour : MacAddr) (q : Ipv4Packet) (written : List (List ℕ))
      (s : System Ring Waiter Cb)
      → CanSend out hop own neighbour q.dst_addrv4 written s.rt s.arp s.ipv4 s.eth s.devices
      → (way : Descended junk base out own neighbour q s.rt s.arp s.ipv4 s.eth)
      → (s' : System Ring Waiter Cb) × Runs junk base C env junk_tcb intercept
          (resolve_task ∷ ipv4_task ∷ eth_task ∷ write out false ∷ [])
          (datagram_sent way.asking neighbour s)
          s'
        × CanSend out hop own neighbour q.dst_addrv4
            (written ++ payload (sent_skb (towards neighbour way.asking)) ∷ [])
            s'.rt
            s'.arp
            s'.ipv4
            s'.eth
            s'.devices
        × (s'.tcb_m ≡ s.tcb_m)
        × (s'.tcp ≡ s.tcp)
        × (s'.icmp ≡ s.icmp)
        × (s'.reading ≡ s.reading)
  unfolding enqueue resolved ready
  runs_down out hop own neighbour q written s i way =
      let frame = towards neighbour way.asking in
      let wire = sent_skb frame in
      let s2 = datagram_sent way.asking neighbour s in
      let s3 : System Ring Waiter Cb = record s2 {
        arp = record s2.arp { posted = [] };
        ipv4 = resolved way.asking neighbour s2.ipv4;
      } in
      let s4 : System Ring Waiter Cb = record s3 {
        ipv4 = record s3.ipv4 { lower = taken frame s3.ipv4.lower };
        eth = enqueue (wire, frame.dev) s3.eth;
      } in
      let d5 : Device = record {
        out_skb_q = wire ∷ [];
        writing = payload wire ∷ [];
        written = written;
      } in
      let s5 : System Ring Waiter Cb = record s4 {
        eth = taken (wire, some out) s4.eth;
        devices = AddrMap.assign out d5 s4.devices;
      } in
      let d6 = idle_device (written ++ payload wire ∷ []) in
      let s6 : System Ring Waiter Cb = record s5 { devices = AddrMap.assign out d6 s5.devices } in
      let f5 = found_here out d5 s4.devices in
      (
        s6,
        runs (ap (λ ys. is_cons (ys ++ (way.asking, neighbour) ∷ [])) i.resolving)
            (step_resolve_task junk base C env junk_tcb intercept way.asking neighbour s2
              (ap (λ ys. ys ++ (way.asking, neighbour) ∷ []) i.resolving))
            (runs (ground arith)
              (step_ipv4_task junk base C env junk_tcb intercept frame _ s3 i.ipv4_under
                (ap (λ ys. ys ++ frame ∷ []) i.ipv4_queue) way.ethernet_step)
              (runs (ground arith)
                (step_eth_task junk base C env junk_tcb intercept wire out (idle_device written) d5
                  s4 i.eth_under
                  (ap (λ ys. ys ++ (wire, frame.dev) ∷ []) i.eth_queue
                    ∙ ap (λ d. (wire, d) ∷ []) way.has_dev)
                  i.device (idle-process wire written))
                (runs (ap is_writing f5)
                  (step_write junk base C env junk_tcb intercept out d5 d6 s5 f5
                    (idle-completion wire written))
                  done))),
        sends_again i s6.ipv4 s6.eth s5.devices i.ipv4_under refl i.eth_under refl,
        refl,
        refl,
        refl,
        refl,
      )
