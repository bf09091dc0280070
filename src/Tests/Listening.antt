-- ===== src/Tests/Listening.antt =====
-- A SYN from the network and its answer.
use mstack_cpp.Base.{ℕ, ◌≡◌, refl, [], ◌∷◌, List, ◌++◌, length, arith, true, false, some}
use mstack_cpp.Ring.Bounded.{BoundedList, bounded_list}
use mstack_cpp.AddrMap
use mstack_cpp.EthernetHeader
use mstack_cpp.Ipv4Header
use mstack_cpp.Ipv4Header.{Ipv4Header}
use mstack_cpp.TcpHeader
use mstack_cpp.Options.Roundtrip.{kept, length-written, decode_options-written}
use mstack_cpp.Protocol.{under_proto_update}
use mstack_cpp.Tcp.States
use mstack_cpp.Tcb.{Tcb}
use mstack_cpp.Tcb.Handshake.Active.{syn_options, syn_of, syn-Fits}
use mstack_cpp.Tcb.Segment.Opens.{Opened}
use mstack_cpp.Manager.{Manager, find, first_match}
use mstack_cpp.Manager.Demux.{Handled}
use mstack_cpp.System.{
  System, netns, Runs, tcb_m_task, tcp_task, resolve_task, ipv4_task, eth_task, read, write,
}
use mstack_cpp.System.Descent.{CanSend}
use mstack_cpp.System.Opening.{IsSynFrame, IsSynAckFrame, IsListening, named, fresh_block}
use mstack_cpp.System.Opening.Loop.{on_read-IsSynAck}
use mstack_cpp.Tests.Data.{env}
use mstack_cpp.Tests.Opening.{client, client-Fields, bytes, syn_of-IsSyn}
use mstack_cpp.Tests.Ping.{
  junk_tcb, own_mac, peer_mac, frame_header, to_peer, no_interception, ip_header, quiet,
  quiet-CanSend,
}

abbrev syn_ip : Ipv4Header
syn_ip = record ip_header { proto_type = 6; total_length = 48 }

abbrev syn_frame : List ℕ
syn_frame =
    EthernetHeader.produce frame_header
    ++ (Ipv4Header.produce syn_ip ++ (TcpHeader.produce (syn_of env client) ++ (bytes ++ [])))

-- A namespace that listens on every port.
abbrev listening : System BoundedList ℕ ℕ
listening = record quiet {
  tcb_m = record quiet.tcb_m {
    rules = record { matcher = λ remote local. true; cb = some 5 } ∷ [];
  };
}

syn_frame-IsSynFrame :
    IsSynFrame frame_header syn_ip (syn_of env client) bytes [] (kept syn_options) syn_frame
syn_frame-IsSynFrame =
    let long : length bytes ≡ 8 = length-written syn_options (omega arith, tt) in
    record {
      frame_fits = ground arith;
      frame_proto = refl;
      datagram_fits = ground arith;
      version = refl;
      datagram_proto = refl;
      segment_fits = syn-Fits env client client-Fields (omega arith);
      reserved = refl;
      data_offset = omega (arith, long);
      readable = decode_options-written syn_options (omega arith, tt);
      is_syn = syn_of-IsSyn;
      short = omega (arith, long);
      whole = refl;
    }

listening-IsListening :
    IsListening bounded_list junk_tcb no_interception 0 0 to_peer own_mac peer_mac
      (named syn_ip (syn_of env client))
      5
      []
      listening
unfolding netns under_proto_update
listening-IsListening = record {
  reading = unfold AddrMap.find in refl;
  unknown = unfold find in refl;
  rule = unfold first_match in refl;
  fields = record {
    local_port = omega arith;
    remote_port = omega arith;
    seq_nr_unack = omega arith;
    seq_nr_next = omega arith;
    next = omega arith;
    window = omega arith;
  };
  unattached = unfold States.find in refl;
  unmatched = tt;
  tcb_m_queue = refl;
  tcp_under = refl;
  tcp_queue = refl;
  sends = quiet-CanSend;
}

on_read-IsSynAck_example :
    (syn_ack : List ℕ) × (t : Tcb BoundedList) × (m : Manager BoundedList) × (s' : System
      BoundedList ℕ ℕ)
    × Runs
        (λ i. i)
        0
        bounded_list
        env
        junk_tcb
        no_interception
        (read 0 false syn_frame
          ∷ tcb_m_task
          ∷ tcp_task
          ∷ resolve_task
          ∷ ipv4_task
          ∷ eth_task
          ∷ write 0 false
          ∷ [])
        listening
        s'
    × Handled (named syn_ip (syn_of env client)) (some 5) t listening.tcb_m m
    × Opened bounded_list env
        (syn_of env client)
        (fresh_block bounded_list junk_tcb (named syn_ip (syn_of env client)))
        t
    × (s'.tcb_m ≡ record m { packet_queue = [] })
    × IsSynAckFrame env own_mac peer_mac listening.ipv4.seq syn_ip (syn_of env client) syn_ack
    × CanSend 0 to_peer own_mac peer_mac syn_ip.src_addr
        (syn_ack ∷ [])
        s'.rt
        s'.arp
        s'.ipv4
        s'.eth
        s'.devices
on_read-IsSynAck_example =
    on_read-IsSynAck (λ i. i) 0 bounded_list env junk_tcb no_interception 0 0 to_peer own_mac
      peer_mac frame_header syn_ip (syn_of env client) bytes [] (kept syn_options) syn_frame 5 []
      listening (omega arith) (omega arith) syn_frame-IsSynFrame listening-IsListening
