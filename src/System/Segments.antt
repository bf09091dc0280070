-- ===== src/System/Segments.antt =====
-- What single tasks of the loop do with a segment that goes straight through.
pub mod Descends
use mstack_cpp.Base.{ℕ, ◌≡◌, refl, ◌∙◌, ap, List, [], ◌∷◌, ◌++◌, Bool, true, false, some, ok}
use mstack_cpp.Ring.{CircularBuffer}
use mstack_cpp.Endpoint.{TwoEnds, TcpPacket}
use mstack_cpp.Packets.{Ipv4Packet, EthernetFrame}
use mstack_cpp.Protocol.{Lower, dispatch}
use mstack_cpp.Protocol.Dispatch.{receive_from_below-some, run_posted-front}
use mstack_cpp.Netns.{above_ipv4, above_tcp}
use mstack_cpp.Netns
use mstack_cpp.Netns.Laws.{dispatch-tcp, dispatch-tcb_m}
use mstack_cpp.Arp.{Arp}
use mstack_cpp.Ethernet
use mstack_cpp.Ipv4
use mstack_cpp.Ipv4.{Ipv4}
use mstack_cpp.Tcp
use mstack_cpp.Tcp.{Tcp, passed}
use mstack_cpp.Tcb.{Env}
use mstack_cpp.Manager
use mstack_cpp.Manager.{Manager, Indeterminate}
use mstack_cpp.System.{
  System, handed, send_segment, send_datagram, to_transport, receive_segment, receive_packet,
  run_tcb_m, run_tcp, receive_datagram, async_receive, on_read, step, tcb_m_task, tcp_task, read,
}
use mstack_cpp.System.Steps.{taken, read_skb, skbuff-read, receive_frame-ipv4}

module _ {Ring Waiter Cb : Type 0} (junk : ℕ → ℕ) (base : ℕ) (C : CircularBuffer Ring) (env : Env)
    (junk_tcb : Indeterminate Ring)
    (intercept : Cb → TwoEnds → Tcp Waiter Cb → Bool × Tcp Waiter Cb) where
  -- The state once the manager was given the segment.
  abbrev pub segment_received :
      Tcp Waiter Cb
      → List (Waiter × TcpPacket)
      → Manager Ring
      → System Ring Waiter Cb
      → System Ring Waiter Cb
  segment_received t calls m s = record s { tcp = t; called = s.called ++ calls; tcb_m = m }

  receive_packet_lem :
      (pkt : TcpPacket) (m : Manager Ring) (s : System Ring Waiter Cb)
      → pkt.proto ≡ Tcp.proto_tcp
      → Manager.process C env junk_tcb pkt s.tcb_m ≡ ok m
      → receive_packet junk base C env junk_tcb intercept pkt s ≡ ok (record s { tcb_m = m })
  unfolding receive_packet
  receive_packet_lem pkt m s proto e =
      rw (receive_packet, ap (λ k. dispatch k above_tcp) proto ∙ dispatch-tcb_m, e) refl

  receive_segment-passed :
      (datagram : Ipv4Packet) (pkt : TcpPacket) (t : Tcp Waiter Cb)
      (calls : List (Waiter × TcpPacket)) (m : Manager Ring) (s : System Ring Waiter Cb)
      → Tcp.make_packet intercept datagram s.tcp ≡ ok (t, calls, passed pkt)
      → pkt.proto ≡ Tcp.proto_tcp
      → Manager.process C env junk_tcb pkt s.tcb_m ≡ ok m
      → receive_segment junk base C env junk_tcb intercept datagram s
        ≡ ok (segment_received t calls m s)
  unfolding receive_segment
  receive_segment-passed datagram pkt t calls m s made proto e =
      rw made (receive_packet_lem pkt m (record s { tcp = t; called = s.called ++ calls }) proto e)

  receive_datagram-tcp :
      (frame : EthernetFrame) (datagram : Ipv4Packet) (s : System Ring Waiter Cb)
      → Ipv4.make_packet frame ≡ ok (some datagram)
      → datagram.proto ≡ Tcp.proto_tcp
      → receive_datagram junk base C env junk_tcb intercept frame s
        ≡ receive_segment junk base C env junk_tcb intercept datagram s
  unfolding receive_datagram to_transport
  receive_datagram-tcp frame datagram s made proto =
      rw
        (receive_from_below-some Ipv4.make_packet (λ p. p.proto) above_ipv4 frame datagram Netns.tcp
          made (ap (λ k. dispatch k above_ipv4) proto ∙ dispatch-tcp))
        refl

  -- A read whose frame has a segment that reaches the manager.
  pub step-read_segment :
      (bytes : List ℕ) (dev : ℕ) (frame : EthernetFrame) (datagram : Ipv4Packet) (pkt : TcpPacket)
      (t : Tcp Waiter Cb) (calls : List (Waiter × TcpPacket)) (m : Manager Ring)
      (s : System Ring Waiter Cb)
      → Ethernet.make_packet (read_skb bytes) (some dev) ≡ ok frame
      → frame.proto ≡ Ipv4.proto_ipv4
      → Ipv4.make_packet frame ≡ ok (some datagram)
      → datagram.proto ≡ Tcp.proto_tcp
      → Tcp.make_packet intercept datagram s.tcp ≡ ok (t, calls, passed pkt)
      → pkt.proto ≡ Tcp.proto_tcp
      → Manager.process C env junk_tcb pkt s.tcb_m ≡ ok m
      → step junk base C env junk_tcb intercept (read dev false bytes) s
        ≡ ok (async_receive dev (segment_received t calls m s))
  unfolding step on_read
  step-read_segment bytes dev frame datagram pkt t calls m s e1 p1 e2 p2 e3 p3 e4 =
      rw
        (
          skbuff-read bytes,
          receive_frame-ipv4 junk base C env junk_tcb intercept (read_skb bytes) dev frame s e1 p1,
          receive_datagram-tcp frame datagram s e2 p2,
          receive_segment-passed datagram pkt t calls m s e3 p3 e4,
        )
        refl

  pub step_tcb_m_task :
      (pkt : TcpPacket) (l : Lower Ipv4Packet) (s : System Ring Waiter Cb)
      → s.tcb_m.packet_queue ≡ pkt ∷ []
      → Tcp.process base pkt s.tcp.lower ≡ ok l
      → step junk base C env junk_tcb intercept tcb_m_task s
        ≡ ok (record s {
          tcb_m = record s.tcb_m { packet_queue = [] };
          tcp = record s.tcp { lower = l };
        })
  unfolding step run_tcb_m handed send_segment
  step_tcb_m_task pkt l s q e = rw (q, e) refl

  pub step_tcp_task :
      (pkt : Ipv4Packet) (b : Ipv4) (a : Arp EthernetFrame) (s : System Ring Waiter Cb)
      → s.tcp.lower.under ≡ true
      → s.tcp.lower.packet_queue ≡ pkt ∷ []
      → Ipv4.process junk base s.rt s.arp.arp_cache pkt (s.ipv4, s.arp) ≡ ok (b, a)
      → step junk base C env junk_tcb intercept tcp_task s
        ≡ ok (record s { tcp = record s.tcp { lower = taken pkt s.tcp.lower }; ipv4 = b; arp = a })
  unfolding step run_tcp handed send_datagram
  step_tcp_task pkt b a s u q e = rw (run_posted-front pkt [] s.tcp.lower u q, u, q, e) refl
