-- ===== src/System/Ping/Loop.antt =====
-- The tasks from the read of an echo request until its answer is written.
use mstack_cpp.Base.{
  ℕ, ◌%◌, ◌≡◌, refl, ◌∙◌, ap, sym, List, [], ◌∷◌, ◌++◌, Bool, true, false, length, arith, leb,
}
use mstack_cpp.AddrMap
use mstack_cpp.AddrMap.{AddrMap}
use mstack_cpp.Ring.{CircularBuffer}
use mstack_cpp.Skbuff.{Skbuff, payload}
use mstack_cpp.MacAddr.{MacAddr}
use mstack_cpp.Endpoint.{TwoEnds}
use mstack_cpp.EthernetHeader.{EthernetHeader}
use mstack_cpp.Ipv4Header.{Ipv4Header}
use mstack_cpp.IcmpHeader.{IcmpHeader}
use mstack_cpp.RoutingTable.{Route}
use mstack_cpp.Protocol.{Lower, enqueue}
use mstack_cpp.Ethernet.Laws.{sent_skb}
use mstack_cpp.Tcp.{Tcp}
use mstack_cpp.Tcb.{Env}
use mstack_cpp.Manager.{Indeterminate}
use mstack_cpp.System.{
  System, icmp_task, resolve_task, ipv4_task, eth_task, read, write, ready, async_receive, Runs,
  runs, is_reading,
}
use mstack_cpp.System.Steps.{taken, step-read_icmp, step_icmp_task}
use mstack_cpp.System.Descent.{CanSend, IsFrame, towards, descend, found_here, runs_down}
use mstack_cpp.System.Ping.{IsPing, IsPong, IsIdle}
use mstack_cpp.System.Ping.Ask.{Asked, ask, length-IsPing}
use mstack_cpp.Wire.Patch.{Verifies}
use mstack_cpp.EthernetHeader
use mstack_cpp.Ipv4Header
use mstack_cpp.Packets.{Ipv4Packet}
use mstack_cpp.Ipv4.Header.{checked}
use mathlib.Core.Path.{subst}

-- The answer's bytes are those of its frame and of the reply.
pong :
    {base dev : ℕ} {hi : Ipv4Header} {hc : IcmpHeader} {content bytes : List ℕ}
    {lower : Lower Ipv4Packet} (own neighbour : MacAddr) (seq : ℕ) (wire : List ℕ)
    (q : Asked base dev hi hc content bytes lower)
    → IsFrame own neighbour seq q.reply wire
    → IsPong own neighbour seq hi hc content wire
pong {hi = hi} {hc} {content} own neighbour seq wire q f =
    let r = q.is_reply in
    let ip = checked seq q.reply f.chsum in
    let header : EthernetHeader = record {
      dst_mac_addr = neighbour;
      src_mac_addr = own;
      proto = 0x0800;
    } in
    record {
      ip = ip;
      chsum = r.chsum;
      src_addr = r.src_addrv4 ∙ q.pkt_dst;
      dst_addr = r.dst_addrv4 ∙ q.pkt_src;
      proto_type = r.proto ∙ q.pkt_proto;
      id = refl;
      whole =
          f.whole
          ∙ ap (λ ys. EthernetHeader.produce header ++ (Ipv4Header.produce ip ++ ys)) r.bytes;
      ip_verifies = f.verifies;
      icmp_verifies = subst Verifies r.bytes r.verifies;
    }

module _ {Ring Waiter Cb : Type 0} (junk : ℕ → ℕ) (base : ℕ) (C : CircularBuffer Ring) (env : Env)
    (junk_tcb : Indeterminate Ring)
    (intercept : Cb → TwoEnds → Tcp Waiter Cb → Bool × Tcp Waiter Cb) where
  -- The tasks below `icmp`, from the reply on.
  answered :
      (dev out : ℕ) (hop : Route) (own neighbour : MacAddr) (hi : Ipv4Header) (hc : IcmpHeader)
      (content bytes : List ℕ) (written : List (List ℕ)) (s : System Ring Waiter Cb)
      → base % 2 ≡ 0
      → IsIdle dev out hop own neighbour hi.src_addr written s
      → (q : Asked base dev hi hc content bytes s.icmp)
      → (wire : Skbuff) × (s' : System Ring Waiter Cb) × Runs junk base C env junk_tcb intercept
          (icmp_task ∷ resolve_task ∷ ipv4_task ∷ eth_task ∷ write out false ∷ [])
          (async_receive dev (record s { icmp = enqueue q.reply s.icmp }))
          s'
        × IsPong own neighbour s.ipv4.seq hi hc content (payload wire)
        × IsIdle dev out hop own neighbour hi.src_addr (written ++ payload wire ∷ []) s'
  unfolding async_receive enqueue ready
  answered dev out hop own neighbour hi hc content bytes written s even i q =
      let reply = q.reply in
      let r = q.is_reply in
      let dst : reply.dst_addrv4 ≡ hi.src_addr = r.dst_addrv4 ∙ q.pkt_src in
      let i_reply =
        subst (λ a. CanSend out hop own neighbour a written s.rt s.arp s.ipv4 s.eth s.devices)
          (sym dst) i.sends in
      let way =
        descend junk base out hop own neighbour reply written s.rt s.arp s.ipv4 s.eth s.devices even
          i_reply r.valid q.room in
      let s1 : System Ring Waiter Cb =
        async_receive dev (record s { icmp = enqueue reply s.icmp }) in
      let t1 : System Ring Waiter Cb = record s1 { icmp = taken reply s1.icmp } in
      let (s', rest, sends, same_tcb_m, same_tcp, same_icmp, same_reading) =
        runs_down junk base C env junk_tcb intercept out hop own neighbour reply written t1 i_reply
          way in
      (
        sent_skb (towards neighbour way.asking),
        s',
        runs (ground arith)
            (step_icmp_task junk base C env junk_tcb intercept reply _ _ s1 i.icmp_under
              (ap (λ ys. ys ++ reply ∷ []) i.icmp_queue) way.ipv4_step)
            rest,
        pong own neighbour s.ipv4.seq _ q way.is_frame,
        record {
          icmp_under = ap (λ (l : Lower Ipv4Packet). l.under) same_icmp ∙ i.icmp_under;
          icmp_queue = ap (λ (l : Lower Ipv4Packet). l.packet_queue) same_icmp;
          sends =
              subst
                (λ a.
                  CanSend out hop own neighbour a
                    (written ++ payload (sent_skb (towards neighbour way.asking)) ∷ []) s'.rt s'.arp
                    s'.ipv4 s'.eth s'.devices)
                dst sends;
          reading = ap (AddrMap.find dev) same_reading ∙ found_here dev true s.reading;
        },
      )

  -- A namespace that reads from a device, whose queues below `icmp`, `ipv4` and `ethernet` are empty,
  -- and that knows the link address of the next hop to the sender of an echo request, reads the
  -- request: its headers fit, and the whole frame fits the read. Running the read's completion and
  -- the tasks that follow from it, each of which is ready then, never fails, and the completion of
  -- the write leaves one frame more written on the idle device of the next hop, the answer, in a
  -- namespace that is again as it was required. The buffers start at an even address.
  pub on_read-IsPong :
      (dev out : ℕ) (hop : Route) (own neighbour : MacAddr) (he : EthernetHeader) (hi : Ipv4Header)
      (hc : IcmpHeader) (content bytes : List ℕ) (written : List (List ℕ))
      (s : System Ring Waiter Cb)
      → base % 2 ≡ 0
      → IsPing he hi hc content bytes
      → IsIdle dev out hop own neighbour hi.src_addr written s
      → (pong : List ℕ) × (s' : System Ring Waiter Cb) × Runs junk base C env junk_tcb intercept
          (read dev false bytes
            ∷ icmp_task
            ∷ resolve_task
            ∷ ipv4_task
            ∷ eth_task
            ∷ write out false
            ∷ [])
          s
          s'
        × IsPong own neighbour s.ipv4.seq hi hc content pong
        × IsIdle dev out hop own neighbour hi.src_addr (written ++ pong ∷ []) s'
  unfolding ready
  on_read-IsPong dev out hop own neighbour he hi hc content bytes written s even p i =
      let q = ask base dev s.icmp even p in
      let (wire, s', rest, pong, idle) =
        answered dev out hop own neighbour hi hc content bytes written s even i q in
      let fits : leb (length bytes) 1500 ≡ true = ground (arith, length-IsPing p) in
      (
        payload wire,
        s',
        runs (rw (ap is_reading i.reading, fits) refl)
            (step-read_icmp junk base C env junk_tcb intercept bytes dev q.frame q.pkt _ s
              q.ethernet_step q.frame_proto q.ipv4_step q.pkt_proto q.icmp_step)
            rest,
        pong,
        idle,
      )
