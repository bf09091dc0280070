-- ===== src/System/Opening.antt =====
-- A SYN that a device reads, and its answer.
pub mod Arrival
pub mod Loop
use mstack_cpp.Base.{
  ℕ, ◌+◌, ◌*◌, ◌^◌, ◌≤◌, ◌<◌, ◌≡◌, List, [], ◌∷◌, ◌++◌, Bool, true, none, some, ok, length, u32,
}
use mstack_cpp.AddrMap
use mstack_cpp.Wire.Patch.{Verifies}
use mstack_cpp.Skbuff.{payload}
use mstack_cpp.MacAddr.{MacAddr}
use mstack_cpp.Endpoint.{TwoEnds, TcpPacket}
use mstack_cpp.Ring.{CircularBuffer}
use mstack_cpp.EthernetHeader
use mstack_cpp.EthernetHeader.{EthernetHeader}
use mstack_cpp.EthernetHeader.Roundtrip.{Fits as FrameFits}
use mstack_cpp.Ipv4Header
use mstack_cpp.Ipv4Header.{Ipv4Header}
use mstack_cpp.Ipv4Header.Roundtrip.{Fits as DatagramFits}
use mstack_cpp.TcpHeader
use mstack_cpp.TcpHeader.{TcpHeader}
use mstack_cpp.TcpHeader.Roundtrip.{Fits as SegmentFits}
use mstack_cpp.Options.{TcpOption, decode_options}
use mstack_cpp.RoutingTable.{Route}
use mstack_cpp.Tcp.{Tcp, pseudo_header}
use mstack_cpp.Tcp.States
use mstack_cpp.Tcp.Laws.{Unmatched}
use mstack_cpp.Tcb
use mstack_cpp.Tcb.{Tcb, Env, listen}
use mstack_cpp.Tcb.Output.Packet.{Fields}
use mstack_cpp.Tcb.Handshake.Opening.{IsSyn}
use mstack_cpp.Manager.{Indeterminate, find, first_match}
use mstack_cpp.System.{System}
use mstack_cpp.System.Descent.{CanSend}

-- The bytes of a frame with a SYN: its three headers fit, its options are readable, and it fits a
-- read.
pub record IsSynFrame (he : EthernetHeader) (hi : Ipv4Header) (tcph : TcpHeader)
    (opts segment : List ℕ) (decoded : List TcpOption) (bytes : List ℕ) : Type 0 where
  pub frame_fits : FrameFits he
  pub frame_proto : he.proto ≡ 0x0800
  pub datagram_fits : DatagramFits hi
  pub version : hi.version ≡ 4
  pub datagram_proto : hi.proto_type ≡ 6
  pub segment_fits : SegmentFits tcph
  pub reserved : tcph.reserved ≡ 0
  pub data_offset : tcph.data_offset * 4 ≡ TcpHeader.fixed_size + length opts
  pub readable : decode_options opts ≡ ok decoded
  pub is_syn : IsSyn tcph
  pub short : 54 + (length opts + length segment) ≤ 1500
  pub whole :
      bytes
      ≡ EthernetHeader.produce he
        ++ (Ipv4Header.produce hi ++ (TcpHeader.produce tcph ++ (opts ++ segment)))

-- The two ends that a segment names.
abbrev pub named : Ipv4Header → TcpHeader → TwoEnds
named hi tcph = record {
  remote_ep = record { addrv4 = hi.src_addr; addrv4_port = tcph.src_port };
  local_ep = record { addrv4 = hi.dst_addr; addrv4_port = tcph.dst_port };
}

-- The bytes of the answer: a SYN-ACK from the end that the SYN was for to the one that it came from,
-- without text, both of whose checksums verify.
pub record IsSynAckFrame (env : Env) (own neighbour : MacAddr) (seq : ℕ) (hi : Ipv4Header)
    (tcph : TcpHeader) (bytes : List ℕ) : Type 0 where
  pub ip : Ipv4Header
  pub header : TcpHeader
  pub pkt : TcpPacket
  pub whole :
      bytes
      ≡ EthernetHeader.produce
          (record { dst_mac_addr = neighbour; src_mac_addr = own; proto = 0x0800 })
        ++ (Ipv4Header.produce ip ++ TcpHeader.produce header)
  pub src_addr : ip.src_addr ≡ hi.dst_addr
  pub dst_addr : ip.dst_addr ≡ hi.src_addr
  pub proto_type : ip.proto_type ≡ 6
  pub id : ip.id ≡ seq
  pub src_port : header.src_port ≡ tcph.dst_port
  pub dst_port : header.dst_port ≡ tcph.src_port
  pub syn : header.syn ≡ 1
  pub ack : header.ack ≡ 1
  pub rst : header.rst ≡ 0
  pub seq_no : header.seq_no ≡ env.isn
  pub ack_no : header.ack_no ≡ u32 (tcph.seq_no + 1)
  pub ip_verifies : Verifies (Ipv4Header.produce ip)
  pub pkt_local_ep : pkt.local_ep ≡ (named hi tcph).local_ep
  pub pkt_remote_ep : pkt.remote_ep ≡ (named hi tcph).remote_ep
  pub pkt_proto : pkt.proto ≡ 6
  pub pkt_length : length (payload pkt.skb) ≡ length (TcpHeader.produce header)
  pub tcp_verifies : Verifies (pseudo_header pkt ++ TcpHeader.produce header)

-- The block that a rule makes for the two ends.
abbrev pub fresh_block :
    {Ring : Type 0} → CircularBuffer Ring → Indeterminate Ring → TwoEnds → Tcb Ring
fresh_block c junk_tcb two_end =
    Tcb.initial_block c two_end.remote_ep two_end.local_ep listen listen junk_tcb.send
      junk_tcb.rcv_next junk_tcb.rcv_mss

module _ {Ring Waiter Cb : Type 0} (C : CircularBuffer Ring) (junk_tcb : Indeterminate Ring)
    (intercept : Cb → TwoEnds → Tcp Waiter Cb → Bool × Tcp Waiter Cb) where
  -- A namespace that reads from `dev`, whose queues below the manager are empty, whose first rule
  -- that matches the two ends has a callback, that has no connection and no interception for them,
  -- and that reaches the remote end over the idle device `out`.
  pub record IsListening (dev out : ℕ) (hop : Route) (own neighbour : MacAddr) (two_end : TwoEnds)
      (cb : ℕ) (written : List (List ℕ)) (s : System Ring Waiter Cb) : Type 0 where
    pub reading : AddrMap.find dev s.reading ≡ some true
    pub unknown : find two_end s.tcb_m.tcbs ≡ none
    pub rule : first_match two_end s.tcb_m.rules ≡ some (some cb)
    pub fields : Fields (fresh_block C junk_tcb two_end)
    pub unattached : States.find two_end s.tcp.rcv_raw_states ≡ none
    pub unmatched : Unmatched intercept two_end s.tcp.rules
    pub tcb_m_queue : s.tcb_m.packet_queue ≡ []
    pub tcp_under : s.tcp.lower.under ≡ true
    pub tcp_queue : s.tcp.lower.packet_queue ≡ []
    pub sends :
        CanSend out hop own neighbour two_end.remote_ep.addrv4 written s.rt s.arp s.ipv4 s.eth
          s.devices
