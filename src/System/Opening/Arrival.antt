-- ===== src/System/Opening/Arrival.antt =====
-- What goes up: the SYN is read by each layer, and the manager opens the connection.
use mstack_cpp.Base.{
  ℕ, ◌^◌, ◌≤◌, ◌<◌, ◌≡◌, refl, ◌∙◌, ap, sym, List, [], ◌++◌, Bool, some, ok, length, length-append,
  arith,
}
use mstack_cpp.Skbuff.Filled.{filled, filled-IsValid, payload-filled}
use mstack_cpp.MacAddr.{MacAddr}
use mstack_cpp.Endpoint.{TwoEnds, TcpPacket}
use mstack_cpp.Ring.{CircularBuffer}
use mstack_cpp.EthernetHeader
use mstack_cpp.EthernetHeader.{EthernetHeader}
use mstack_cpp.EthernetHeader.Roundtrip.{length-produce as length-produce_frame}
use mstack_cpp.Ipv4Header
use mstack_cpp.Ipv4Header.{Ipv4Header}
use mstack_cpp.Ipv4Header.Roundtrip.{length-produce as length-produce_ipv4}
use mstack_cpp.TcpHeader
use mstack_cpp.TcpHeader.{TcpHeader}
use mstack_cpp.TcpHeader.Roundtrip.{length-produce as length-produce_tcp}
use mstack_cpp.Options.{TcpOption}
use mstack_cpp.RoutingTable.{Route}
use mstack_cpp.Packets.{Ipv4Packet, EthernetFrame}
use mstack_cpp.Ethernet
use mstack_cpp.Ethernet.Laws.{make_packet_lem as make_packet_ethernet}
use mstack_cpp.Ipv4
use mstack_cpp.Ipv4.Laws.{packet_of, make_packet_lem as make_packet_ipv4}
use mstack_cpp.Tcp
use mstack_cpp.Tcp.{Tcp, passed, packet_of as segment_of}
use mstack_cpp.Tcp.Laws.{make_packet-passed}
use mstack_cpp.Tcb.{Tcb, Env}
use mstack_cpp.Tcb.Segment.Parse.{parse-produce}
use mstack_cpp.Tcb.Segment.Opens.{Opened}
use mstack_cpp.Manager
use mstack_cpp.Manager.{Manager, Indeterminate}
use mstack_cpp.Manager.Demux.{Handled, process-opens}
use mstack_cpp.System.{System}
use mstack_cpp.System.Steps.{read_skb}
use mstack_cpp.System.Opening.{IsSynFrame, IsListening, named, fresh_block}

pub length-IsSynFrame :
    {he : EthernetHeader} {hi : Ipv4Header} {tcph : TcpHeader} {opts segment : List ℕ}
    {decoded : List TcpOption} {bytes : List ℕ}
    → IsSynFrame he hi tcph opts segment decoded bytes
    → length bytes ≤ 1500
length-IsSynFrame {he} {hi} {tcph} {opts} {segment} p = omega (
  arith,
  ap length p.whole,
  length-append (EthernetHeader.produce he)
      (Ipv4Header.produce hi ++ (TcpHeader.produce tcph ++ (opts ++ segment))),
  length-append (Ipv4Header.produce hi) (TcpHeader.produce tcph ++ (opts ++ segment)),
  length-append (TcpHeader.produce tcph) (opts ++ segment),
  length-append opts segment,
  length-produce_frame he p.frame_fits,
  length-produce_ipv4 hi,
  length-produce_tcp tcph,
  p.short,
)

module _ {Ring Waiter Cb : Type 0} (C : CircularBuffer Ring) (env : Env)
    (junk_tcb : Indeterminate Ring)
    (intercept : Cb → TwoEnds → Tcp Waiter Cb → Bool × Tcp Waiter Cb) where
  -- What each layer makes of the bytes, and what the manager leaves.
  pub record Arrived (dev cb : ℕ) (hi : Ipv4Header) (tcph : TcpHeader) (bytes : List ℕ)
      (s : System Ring Waiter Cb) : Type 0 where
    pub frame : EthernetFrame
    pub datagram : Ipv4Packet
    pub pkt : TcpPacket
    pub block : Tcb Ring
    pub m : Manager Ring
    pub frame_proto : frame.proto ≡ 0x0800
    pub datagram_proto : datagram.proto ≡ 6
    pub pkt_proto : pkt.proto ≡ 6
    pub ethernet_step : Ethernet.make_packet (read_skb bytes) (some dev) ≡ ok frame
    pub ipv4_step : Ipv4.make_packet frame ≡ ok (some datagram)
    pub tcp_step : Tcp.make_packet intercept datagram s.tcp ≡ ok (s.tcp, [], passed pkt)
    pub manager_step : Manager.process C env junk_tcb pkt s.tcb_m ≡ ok m
    pub handled : Handled (named hi tcph) (some cb) block s.tcb_m m
    pub opened : Opened C env tcph (fresh_block C junk_tcb (named hi tcph)) block

  pub arrive :
      {he : EthernetHeader} {hi : Ipv4Header} {tcph : TcpHeader} {opts segment : List ℕ}
      {decoded : List TcpOption} {bytes : List ℕ} (dev out : ℕ) (hop : Route)
      (own neighbour : MacAddr) (cb : ℕ) (written : List (List ℕ)) (s : System Ring Waiter Cb)
      → env.isn < 2 ^ 32
      → IsSynFrame he hi tcph opts segment decoded bytes
      → IsListening C junk_tcb intercept dev out hop own neighbour (named hi tcph) cb written s
      → Arrived dev cb hi tcph bytes s
  arrive {he} {hi} {tcph} {opts} {segment} {decoded} {bytes} dev out hop own neighbour cb written s
        isn p i =
      let tcp_bytes = TcpHeader.produce tcph ++ (opts ++ segment) in
      let ip_bytes = Ipv4Header.produce hi ++ tcp_bytes in
      let frame : EthernetFrame = record {
        src_mac_addr = he.src_mac_addr;
        dst_mac_addr = he.dst_mac_addr;
        proto = he.proto;
        skb = filled 0 ip_bytes;
        dev = some dev;
      } in
      let (skb1, e1, v1, p1, h1) =
        make_packet_ethernet (read_skb bytes) (some dev) frame (filled-IsValid 0 bytes) p.frame_fits
          (payload-filled 0 bytes
            ∙ p.whole
            ∙ ap (λ ys. EthernetHeader.produce he ++ ys) (sym (payload-filled 0 ip_bytes))) in
      let (skb2, e2, v2, p2, h2) =
        make_packet_ipv4 (record frame { skb = skb1; dev = some dev }) hi tcp_bytes v1
          p.datagram_fits p.version (p1 ∙ payload-filled 0 ip_bytes) in
      let datagram = packet_of hi skb2 in
      let pkt = segment_of tcph datagram in
      let (t, m, e4, k, o) =
        process-opens C env junk_tcb pkt s.tcb_m cb tcph opts segment decoded i.unknown i.rule
          (parse-produce pkt tcph opts segment v2 p2 p.segment_fits p.reserved p.data_offset)
          p.readable p.is_syn i.fields isn in
      record {
        frame = record frame { skb = skb1; dev = some dev };
        datagram = datagram;
        pkt = pkt;
        block = t;
        m = m;
        frame_proto = p.frame_proto;
        datagram_proto = p.datagram_proto;
        pkt_proto = refl;
        ethernet_step = e1;
        ipv4_step = e2;
        tcp_step =
            make_packet-passed intercept tcph (opts ++ segment) datagram s.tcp p.segment_fits
              p.reserved p2 i.unattached i.unmatched;
        manager_step = e4;
        handled = k;
        opened = o;
      }
