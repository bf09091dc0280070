-- ===== src/System/Steps.antt =====
-- What single tasks of the loop do, where a packet goes straight through.
use mstack_cpp.Base.{
  ℕ, ◌+◌, ◌-◌, ◌≡◌, refl, ◌∙◌, ap, List, [], ◌∷◌, ◌++◌, Bool, true, false, Option, some, ok, length,
  arith, ◌>>=◌,
}
use mstack_cpp.AddrMap
use mstack_cpp.Ring.{CircularBuffer}
use mstack_cpp.Skbuff.{Skbuff, skbuff}
use mstack_cpp.Skbuff.Filled.{filled}
use mstack_cpp.Skbuff.Laws.{skbuff_lem}
use mstack_cpp.MacAddr.{MacAddr}
use mstack_cpp.Endpoint.{TwoEnds}
use mstack_cpp.Packets.{Ipv4Packet, EthernetFrame}
use mstack_cpp.Protocol.{Lower, dispatch}
use mstack_cpp.Protocol.Dispatch.{receive_from_below-some, run_posted-front}
use mstack_cpp.Netns.{above_eth, above_ipv4, ipv4, icmp}
use mstack_cpp.Netns.Laws.{dispatch-ipv4, dispatch-icmp}
use mstack_cpp.Device
use mstack_cpp.Device.{Device}
use mstack_cpp.Arp.{Arp}
use mstack_cpp.Ethernet
use mstack_cpp.Icmp
use mstack_cpp.Ipv4
use mstack_cpp.Ipv4.{Ipv4, resolved}
use mstack_cpp.Tcp.{Tcp}
use mstack_cpp.Tcb.{Env}
use mstack_cpp.Manager.{Indeterminate}
use mstack_cpp.System.{
  System, handed, receive_icmp, send_datagram, send_frame, to_device, to_transport, run_icmp,
  run_ipv4, run_eth, receive_datagram, to_network, receive_frame, async_receive, on_read, written,
  resolve, step, icmp_task, resolve_task, ipv4_task, eth_task, read, write,
}

-- A layer's queue after the task that took `pkt` off it.
abbrev pub taken : {Packet : Type 0} → Packet → Lower Packet → Lower Packet
taken pkt b = record b {
  packet_queue = [];
  delivered = b.delivered ++ pkt ∷ [];
  posted = b.posted - 1;
}

-- The buffer of a read.
abbrev pub read_skb : List ℕ → Skbuff
read_skb bytes = filled 0 bytes

pub skbuff-read : (bytes : List ℕ) → skbuff bytes (length bytes) 0 ≡ ok (read_skb bytes)
skbuff-read bytes =
    let same : length bytes ≡ 0 + length bytes = omega arith in
    skbuff_lem bytes (length bytes) 0 (omega arith)
    ∙ ap (λ n. ok (record { buf = bytes; capacity = n; head = 0; tail = n })) same

to_device_lem :
    {Ring Waiter Cb : Type 0} (skb : Skbuff) (dev : ℕ) (d d1 : Device) (s : System Ring Waiter Cb)
    → AddrMap.find dev s.devices ≡ some d
    → Device.process skb d ≡ ok d1
    → to_device (skb, some dev) s ≡ ok (record s { devices = AddrMap.assign dev d1 s.devices })
unfolding to_device
to_device_lem skb dev d d1 s f e = rw (to_device, f, e) refl

module _ {Ring Waiter Cb : Type 0} (junk : ℕ → ℕ) (base : ℕ) (C : CircularBuffer Ring) (env : Env)
    (junk_tcb : Indeterminate Ring)
    (intercept : Cb → TwoEnds → Tcp Waiter Cb → Bool × Tcp Waiter Cb) where
  receive_datagram-icmp :
      (frame : EthernetFrame) (pkt : Ipv4Packet) (l : Lower Ipv4Packet) (s : System Ring Waiter Cb)
      → Ipv4.make_packet frame ≡ ok (some pkt)
      → pkt.proto ≡ Icmp.proto_icmp
      → Icmp.process base pkt s.icmp ≡ ok l
      → receive_datagram junk base C env junk_tcb intercept frame s ≡ ok (record s { icmp = l })
  unfolding receive_datagram to_transport receive_icmp
  receive_datagram-icmp frame pkt l s made proto e =
      rw
        (
          receive_from_below-some Ipv4.make_packet (λ p. p.proto) above_ipv4 frame pkt icmp made
              (ap (λ k. dispatch k above_ipv4) proto ∙ dispatch-icmp),
          e,
        )
        refl

  pub receive_frame-ipv4 :
      (skb : Skbuff) (dev : ℕ) (frame : EthernetFrame) (s : System Ring Waiter Cb)
      → Ethernet.make_packet skb (some dev) ≡ ok frame
      → frame.proto ≡ Ipv4.proto_ipv4
      → receive_frame junk base C env junk_tcb intercept skb dev s
        ≡ receive_datagram junk base C env junk_tcb intercept frame s
  unfolding receive_frame to_network
  receive_frame-ipv4 skb dev frame s made proto =
      rw
        (receive_from_below-some
          (λ skb. Ethernet.make_packet skb (some dev) >>= λ frame. ok (some frame))
          (λ frame. frame.proto) above_eth skb frame ipv4 (rw made refl)
          (ap (λ k. dispatch k above_eth) proto ∙ dispatch-ipv4))
        refl

  -- A read whose frame has a datagram for `icmp`.
  pub step-read_icmp :
      (bytes : List ℕ) (dev : ℕ) (frame : EthernetFrame) (pkt : Ipv4Packet) (l : Lower Ipv4Packet)
      (s : System Ring Waiter Cb)
      → Ethernet.make_packet (read_skb bytes) (some dev) ≡ ok frame
      → frame.proto ≡ Ipv4.proto_ipv4
      → Ipv4.make_packet frame ≡ ok (some pkt)
      → pkt.proto ≡ Icmp.proto_icmp
      → Icmp.process base pkt s.icmp ≡ ok l
      → step junk base C env junk_tcb intercept (read dev false bytes) s
        ≡ ok (async_receive dev (record s { icmp = l }))
  unfolding step on_read
  step-read_icmp bytes dev frame pkt l s e1 p1 e2 p2 e3 =
      rw
        (
          skbuff-read bytes,
          receive_frame-ipv4 (read_skb bytes) dev frame s e1 p1,
          receive_datagram-icmp frame pkt l s e2 p2 e3,
        )
        refl

  pub step_icmp_task :
      (pkt : Ipv4Packet) (b : Ipv4) (a : Arp EthernetFrame) (s : System Ring Waiter Cb)
      → s.icmp.under ≡ true
      → s.icmp.packet_queue ≡ pkt ∷ []
      → Ipv4.process junk base s.rt s.arp.arp_cache pkt (s.ipv4, s.arp) ≡ ok (b, a)
      → step junk base C env junk_tcb intercept icmp_task s
        ≡ ok (record s { icmp = taken pkt s.icmp; ipv4 = b; arp = a })
  unfolding step run_icmp handed send_datagram
  step_icmp_task pkt b a s u q e = rw (run_posted-front pkt [] s.icmp u q, u, q, e) refl

  pub step_resolve_task :
      (frame : EthernetFrame) (mac : MacAddr) (s : System Ring Waiter Cb)
      → s.arp.posted ≡ (frame, mac) ∷ []
      → step junk base C env junk_tcb intercept resolve_task s
        ≡ ok (record s { arp = record s.arp { posted = [] }; ipv4 = resolved frame mac s.ipv4 })
  unfolding step resolve
  step_resolve_task frame mac s p = rw p refl

  pub step_ipv4_task :
      (frame : EthernetFrame) (l : Lower (Skbuff × Option ℕ)) (s : System Ring Waiter Cb)
      → s.ipv4.lower.under ≡ true
      → s.ipv4.lower.packet_queue ≡ frame ∷ []
      → Ethernet.process frame s.eth ≡ ok l
      → step junk base C env junk_tcb intercept ipv4_task s
        ≡ ok (record s { ipv4 = record s.ipv4 { lower = taken frame s.ipv4.lower }; eth = l })
  unfolding step run_ipv4 handed send_frame
  step_ipv4_task frame l s u q e = rw (run_posted-front frame [] s.ipv4.lower u q, u, q, e) refl

  pub step_eth_task :
      (skb : Skbuff) (dev : ℕ) (d d1 : Device) (s : System Ring Waiter Cb)
      → s.eth.under ≡ true
      → s.eth.packet_queue ≡ (skb, some dev) ∷ []
      → AddrMap.find dev s.devices ≡ some d
      → Device.process skb d ≡ ok d1
      → step junk base C env junk_tcb intercept eth_task s
        ≡ ok (record s {
          eth = taken (skb, some dev) s.eth;
          devices = AddrMap.assign dev d1 s.devices;
        })
  unfolding step run_eth handed
  step_eth_task skb dev d d1 s u q f e =
      rw (run_posted-front (skb, some dev) [] s.eth u q, u, q) (to_device_lem skb dev d d1 _ f e)

  pub step_write :
      (dev : ℕ) (d d1 : Device) (s : System Ring Waiter Cb)
      → AddrMap.find dev s.devices ≡ some d
      → Device.completion false d.writing d ≡ ok d1
      → step junk base C env junk_tcb intercept (write dev false) s
        ≡ ok (record s { devices = AddrMap.assign dev d1 s.devices })
  unfolding step written
  step_write dev d d1 s f e = rw (step, written, f, e) refl
