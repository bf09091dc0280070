-- ===== src/System/Opening/Loop.antt =====
-- The tasks from the read of a SYN until its answer is written.
use mathlib.Core.Path.{subst}
use mstack_cpp.Base.{
  ℕ, ◌%◌, ◌^◌, ◌<◌, ◌≡◌, refl, ◌∙◌, ap, sym, List, [], ◌∷◌, ◌++◌, append-nil, Bool, true, false,
  some, length, arith, leb,
}
use mstack_cpp.AddrMap
use mstack_cpp.Ring.{CircularBuffer}
use mstack_cpp.Wire.{ntoh}
use mstack_cpp.Wire.Patch.{Verifies}
use mstack_cpp.Skbuff.{payload}
use mstack_cpp.MacAddr.{MacAddr}
use mstack_cpp.Endpoint.{TwoEnds, TcpPacket}
use mstack_cpp.EthernetHeader
use mstack_cpp.EthernetHeader.{EthernetHeader}
use mstack_cpp.Ipv4Header
use mstack_cpp.Ipv4Header.{Ipv4Header}
use mstack_cpp.Ipv4.Header.{checked}
use mstack_cpp.TcpHeader
use mstack_cpp.TcpHeader.{TcpHeader}
use mstack_cpp.TcpHeader.Roundtrip.{length-produce as length-produce_tcp}
use mstack_cpp.Options.{TcpOption}
use mstack_cpp.RoutingTable.{Route}
use mstack_cpp.Packets.{Ipv4Packet}
use mstack_cpp.Protocol.{enqueue}
use mstack_cpp.Tcp.{Tcp, pseudo_header}
use mstack_cpp.Tcp.Laws.{IsSent}
use mstack_cpp.Tcb.{Tcb, Env}
use mstack_cpp.Tcb.Handshake.Opening.{IsSynAck}
use mstack_cpp.Tcb.Segment.Opens.{Opened}
use mstack_cpp.Manager.{Manager, Indeterminate}
use mstack_cpp.Manager.Demux.{Handled}
use mstack_cpp.System.{
  System, tcb_m_task, tcp_task, resolve_task, ipv4_task, eth_task, read, write, ready,
  async_receive, Runs, runs, is_reading,
}
use mstack_cpp.System.Segments.{step-read_segment}
use mstack_cpp.System.Descent.{CanSend, IsFrame}
use mstack_cpp.System.Segments.Descends.{sends_segment}
use mstack_cpp.System.Opening.{IsSynFrame, IsSynAckFrame, IsListening, named, fresh_block}
use mstack_cpp.System.Opening.Arrival.{arrive, length-IsSynFrame}

-- The answer's bytes are those of its frame and of the SYN-ACK.
syn_ack_frame :
    {Ring : Type 0} {env : Env} {hi : Ipv4Header} {tcph h : TcpHeader} {t : Tcb Ring}
    {pkt : TcpPacket} {sent : Ipv4Packet} {wire : List ℕ} (own neighbour : MacAddr) (seq : ℕ)
    → t.local_ep ≡ (named hi tcph).local_ep
    → t.remote_ep ≡ (named hi tcph).remote_ep
    → IsSynAck env tcph t pkt h
    → IsSent h [] pkt sent
    → IsFrame own neighbour seq sent wire
    → IsSynAckFrame env own neighbour seq hi tcph wire
syn_ack_frame {hi = hi} {tcph} {h} {t} {pkt} {sent} {wire} own neighbour seq l r a s f =
    let ip = checked seq sent f.chsum in
    let header : TcpHeader = record h { chsum = ntoh 2 s.chsum } in
    let frame : EthernetHeader = record {
      dst_mac_addr = neighbour;
      src_mac_addr = own;
      proto = 0x0800;
    } in
    let text : payload sent.skb ≡ TcpHeader.produce header =
      s.bytes ∙ append-nil (TcpHeader.produce header) in
    record {
      ip = ip;
      header = header;
      pkt = pkt;
      whole =
          f.whole ∙ ap (λ ys. EthernetHeader.produce frame ++ (Ipv4Header.produce ip ++ ys)) text;
      src_addr = s.src_addrv4 ∙ ap (λ e. e.addrv4) (a.local_ep ∙ l);
      dst_addr = s.dst_addrv4 ∙ ap (λ e. e.addrv4) (a.remote_ep ∙ r);
      proto_type = s.proto ∙ a.proto;
      id = refl;
      src_port = a.src_port ∙ ap (λ e. e.addrv4_port) l;
      dst_port = a.dst_port ∙ ap (λ e. e.addrv4_port) r;
      syn = a.syn;
      ack = a.ack;
      rst = a.rst;
      seq_no = a.seq_no;
      ack_no = a.ack_no;
      ip_verifies = f.verifies;
      pkt_local_ep = a.local_ep ∙ l;
      pkt_remote_ep = a.remote_ep ∙ r;
      pkt_proto = a.proto;
      pkt_length =
          ap length a.whole
          ∙ ap length (append-nil (TcpHeader.produce h))
          ∙ length-produce_tcp h
          ∙ sym (length-produce_tcp header);
      tcp_verifies = subst (λ ys. Verifies (pseudo_header pkt ++ ys)) text s.verifies;
    }

module _ {Ring Waiter Cb : Type 0} (junk : ℕ → ℕ) (base : ℕ) (C : CircularBuffer Ring) (env : Env)
    (junk_tcb : Indeterminate Ring)
    (intercept : Cb → TwoEnds → Tcp Waiter Cb → Bool × Tcp Waiter Cb) where
  -- A namespace whose queues below the manager are empty reads a frame with a SYN from a device:
  -- its headers fit, its options are readable, and the whole frame fits the read. The manager has
  -- no connection of the two ends, its first rule that matches them has a callback, no interception
  -- takes the segment, and the numbers of a new block and of `env.isn` fit their fields. The link
  -- address of the next hop to the remote end is known. Running the read's completion and the tasks
  -- that follow from it, each of which is ready then, never fails; after them the manager's table
  -- has an entry for the two ends with that callback, whose block is in SYN-RECEIVED, no other
  -- entry and no rule has changed, the manager's queue is empty, and the idle device of the next
  -- hop has written one frame more, the SYN-ACK. The buffers start at an even address.
  pub on_read-IsSynAck :
      (dev out : ℕ) (hop : Route) (own neighbour : MacAddr) (he : EthernetHeader) (hi : Ipv4Header)
      (tcph : TcpHeader) (opts segment : List ℕ) (decoded : List TcpOption) (bytes : List ℕ)
      (cb : ℕ) (written : List (List ℕ)) (s : System Ring Waiter Cb)
      → base % 2 ≡ 0
      → env.isn < 2 ^ 32
      → IsSynFrame he hi tcph opts segment decoded bytes
      → IsListening C junk_tcb intercept dev out hop own neighbour (named hi tcph) cb written s
      → (syn_ack : List ℕ) × (t : Tcb Ring) × (m : Manager Ring) × (s' : System Ring Waiter Cb)
        × Runs junk base C env junk_tcb intercept
            (read dev false bytes
              ∷ tcb_m_task
              ∷ tcp_task
              ∷ resolve_task
              ∷ ipv4_task
              ∷ eth_task
              ∷ write out false
              ∷ [])
            s
            s'
        × Handled (named hi tcph) (some cb) t s.tcb_m m
        × Opened C env tcph (fresh_block C junk_tcb (named hi tcph)) t
        × (s'.tcb_m ≡ record m { packet_queue = [] })
        × IsSynAckFrame env own neighbour s.ipv4.seq hi tcph syn_ack
        × CanSend out hop own neighbour hi.src_addr
            (written ++ syn_ack ∷ [])
            s'.rt
            s'.arp
            s'.ipv4
            s'.eth
            s'.devices
  unfolding async_receive enqueue ready
  on_read-IsSynAck dev out hop own neighbour he hi tcph opts segment decoded bytes cb written s even
        isn p i =
      let q = arrive C env junk_tcb intercept dev out hop own neighbour cb written s isn p i in
      let (pkt, h, posted, a) = q.opened.answer in
      let queue : q.m.packet_queue ≡ pkt ∷ [] =
        q.handled.queue ∙ ap (λ ys. ys ++ q.block.out) i.tcb_m_queue ∙ posted in
      let dst : pkt.remote_ep.addrv4 ≡ hi.src_addr = ap (λ e. e.addrv4) a.remote_ep in
      let sends =
        subst (λ d. CanSend out hop own neighbour d written s.rt s.arp s.ipv4 s.eth s.devices)
          (sym dst) i.sends in
      let s1 : System Ring Waiter Cb = record s {
        tcp = s.tcp;
        called = s.called ++ [];
        tcb_m = q.m;
        reading = AddrMap.assign dev true s.reading;
      } in
      let (sent, wire, s', rest, is_sent, is_frame, same, sends') =
        sends_segment junk base C env junk_tcb intercept out hop own neighbour h [] pkt written s1
          even queue i.tcp_under i.tcp_queue a.valid a.whole a.room tt (omega arith) sends in
      let fits : leb (length bytes) 1500 ≡ true = ground (arith, length-IsSynFrame p) in
      (
        wire,
        q.block,
        q.m,
        s',
        runs (rw (ap is_reading i.reading, fits) refl)
            (step-read_segment junk base C env junk_tcb intercept bytes dev q.frame q.datagram q.pkt
              s.tcp [] q.m s q.ethernet_step q.frame_proto q.ipv4_step q.datagram_proto q.tcp_step
              q.pkt_proto q.manager_step)
            rest,
        q.handled,
        q.opened,
        same,
        syn_ack_frame own neighbour s.ipv4.seq refl refl a is_sent is_frame,
        subst
            (λ d.
              CanSend out hop own neighbour d (written ++ wire ∷ []) s'.rt s'.arp s'.ipv4 s'.eth
                s'.devices)
            dst sends',
      )
