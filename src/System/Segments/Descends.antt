-- ===== src/System/Segments/Descends.antt =====
-- A segment on its way from the manager's queue to a device.
use mathlib.Core.Path.{subst}
use mstack_cpp.Base.{
  ℕ, ◌+◌, ◌%◌, ◌^◌, ◌<◌, ◌≡◌, ◌∙◌, ap, sym, List, [], ◌∷◌, ◌++◌, Bool, true, false, length, arith,
}
use mstack_cpp.Ring.{CircularBuffer}
use mstack_cpp.Wire.Roundtrip.{IsBytes}
use mstack_cpp.Skbuff.{payload}
use mstack_cpp.Skbuff.Laws.{IsValid}
use mstack_cpp.MacAddr.{MacAddr}
use mstack_cpp.Endpoint.{TwoEnds, TcpPacket}
use mstack_cpp.Ethernet.Laws.{sent_skb}
use mstack_cpp.TcpHeader
use mstack_cpp.TcpHeader.{TcpHeader}
use mstack_cpp.RoutingTable.{Route}
use mstack_cpp.Packets.{Ipv4Packet}
use mstack_cpp.Protocol.{enqueue}
use mstack_cpp.Tcp
use mstack_cpp.Tcp.{Tcp}
use mstack_cpp.Tcp.Laws.{IsSent, process-IsSent}
use mstack_cpp.Tcb.{Env}
use mstack_cpp.Manager.{Indeterminate}
use mstack_cpp.System.{
  System, tcb_m_task, tcp_task, resolve_task, ipv4_task, eth_task, write, ready, Runs, runs,
  is_cons,
}
use mstack_cpp.System.Steps.{taken}
use mstack_cpp.System.Segments.{step_tcb_m_task, step_tcp_task}
use mstack_cpp.System.Descent.{CanSend, IsFrame, towards, descend, runs_down}

module _ {Ring Waiter Cb : Type 0} (junk : ℕ → ℕ) (base : ℕ) (C : CircularBuffer Ring) (env : Env)
    (junk_tcb : Indeterminate Ring)
    (intercept : Cb → TwoEnds → Tcp Waiter Cb → Bool × Tcp Waiter Cb) where
  -- The state once `tcp` has the segment with its checksum.
  abbrev summed : Ipv4Packet → System Ring Waiter Cb → System Ring Waiter Cb
  summed sent s = record s {
    tcb_m = record s.tcb_m { packet_queue = [] };
    tcp = record s.tcp { lower = enqueue sent s.tcp.lower };
  }

  -- The state once `tcp` has handed the segment on.
  abbrev handed_on : Ipv4Packet → System Ring Waiter Cb → System Ring Waiter Cb
  handed_on sent s = record s {
    tcb_m = record s.tcb_m { packet_queue = [] };
    tcp = record s.tcp { lower = taken sent (enqueue sent s.tcp.lower) };
  }

  -- The tasks from the only segment of the manager's queue to the end of its write.
  pub sends_segment :
      (out : ℕ) (hop : Route) (own neighbour : MacAddr) (h : TcpHeader) (text : List ℕ)
      (pkt : TcpPacket) (written : List (List ℕ)) (s : System Ring Waiter Cb)
      → base % 2 ≡ 0
      → s.tcb_m.packet_queue ≡ pkt ∷ []
      → s.tcp.lower.under ≡ true
      → s.tcp.lower.packet_queue ≡ []
      → IsValid pkt.skb
      → payload pkt.skb ≡ TcpHeader.produce h ++ text
      → pkt.skb.head ≡ 34
      → IsBytes text
      → TcpHeader.fixed_size + length text + Tcp.pseudo_size < 2 ^ 16
      → CanSend out hop own neighbour pkt.remote_ep.addrv4 written s.rt s.arp s.ipv4 s.eth s.devices
      → (sent : Ipv4Packet) × (wire : List ℕ) × (s' : System Ring Waiter Cb) × Runs junk base C env
          junk_tcb intercept
          (tcb_m_task ∷ tcp_task ∷ resolve_task ∷ ipv4_task ∷ eth_task ∷ write out false ∷ [])
          s
          s'
        × IsSent h text pkt sent
        × IsFrame own neighbour s.ipv4.seq sent wire
        × (s'.tcb_m ≡ record s.tcb_m { packet_queue = [] })
        × CanSend out hop own neighbour pkt.remote_ep.addrv4
            (written ++ wire ∷ [])
            s'.rt
            s'.arp
            s'.ipv4
            s'.eth
            s'.devices
  unfolding enqueue ready
  sends_segment out hop own neighbour h text pkt written s even queue under empty v whole room
        octets short i =
      let (sent, tcp_step, is_sent) =
        process-IsSent base h text pkt s.tcp.lower v whole (omega (arith, room))
          (omega (arith, room, even)) octets short in
      let dst : sent.dst_addrv4 ≡ pkt.remote_ep.addrv4 = is_sent.dst_addrv4 in
      let i_sent =
        subst (λ d. CanSend out hop own neighbour d written s.rt s.arp s.ipv4 s.eth s.devices)
          (sym dst) i in
      let way =
        descend junk base out hop own neighbour sent written s.rt s.arp s.ipv4 s.eth s.devices even
          i_sent is_sent.valid (is_sent.room ∙ room) in
      let (s', rest, sends, same, _, _, _) =
        runs_down junk base C env junk_tcb intercept out hop own neighbour sent written
          (handed_on sent s) i_sent way in
      let wire = payload (sent_skb (towards neighbour way.asking)) in
      (
        sent,
        wire,
        s',
        runs {s1 = summed sent s} (ap is_cons queue)
            (step_tcb_m_task junk base C env junk_tcb intercept pkt _ s queue tcp_step)
            (runs (ground arith)
              (step_tcp_task junk base C env junk_tcb intercept sent _ _ (summed sent s) under
                (ap (λ ys. ys ++ sent ∷ []) empty) way.ipv4_step)
              rest),
        is_sent,
        way.is_frame,
        same,
        subst
            (λ d.
              CanSend out hop own neighbour d (written ++ wire ∷ []) s'.rt s'.arp s'.ipv4 s'.eth
                s'.devices)
            dst sends,
      )
