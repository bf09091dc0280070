-- ===== src/System/Ping.antt =====
-- An echo request that a device reads, and its answer.
pub mod Ask
pub mod Loop
use mathlib.Core.Path.{subst}
use mstack_cpp.Base.{
  ℕ, ◌+◌, ◌-◌, ◌%◌, ◌^◌, ◌≤◌, ◌<◌, ◌≡◌, refl, ◌∙◌, ap, sym, List, [], ◌∷◌, ◌++◌, Bool, true, false,
  Option, some, ok, length, length-append, arith, leb, ltb, take, take-all, take-append, ◌==◌,
  if◌then◌else◌,
}
use mstack_cpp.AddrMap
use mstack_cpp.AddrMap.{AddrMap}
use mstack_cpp.AddrMap.Laws.{find-assign}
use mstack_cpp.Ring.{CircularBuffer}
use mstack_cpp.Wire.Roundtrip.{IsBytes}
use mstack_cpp.Wire.Patch.{Verifies}
use mstack_cpp.Skbuff.{Skbuff, payload}
use mstack_cpp.Skbuff.Laws.{IsValid}
use mstack_cpp.Skbuff.Filled.{filled, filled-IsValid, payload-filled}
use mstack_cpp.MacAddr.{MacAddr}
use mstack_cpp.Endpoint.{TwoEnds}
use mstack_cpp.EthernetHeader
use mstack_cpp.EthernetHeader.{EthernetHeader}
use mstack_cpp.EthernetHeader.Roundtrip.{Fits as FrameFits, length-produce as length-produce_frame}
use mstack_cpp.Ipv4Header
use mstack_cpp.Ipv4Header.{Ipv4Header}
use mstack_cpp.Ipv4Header.Roundtrip.{Fits as DatagramFits, length-produce as length-produce_ipv4}
use mstack_cpp.IcmpHeader
use mstack_cpp.IcmpHeader.{IcmpHeader}
use mstack_cpp.IcmpHeader.Roundtrip.{Fits as IcmpFits, length-produce as length-produce_icmp}
use mstack_cpp.RoutingTable.{Route}
use mstack_cpp.Packets.{Ipv4Packet, EthernetFrame}
use mstack_cpp.Protocol.{Lower, enqueue}
use mstack_cpp.Device
use mstack_cpp.Device.{Device}
use mstack_cpp.Device.Laws.{idle-process, idle-completion}
use mstack_cpp.Arp.{Arp}
use mstack_cpp.Ethernet
use mstack_cpp.Ethernet.{header_of}
use mstack_cpp.Ethernet.Laws.{
  sent_skb, process_lem, sent_skb-bytes, make_packet_lem as make_packet_ethernet,
}
use mstack_cpp.Icmp
use mstack_cpp.Icmp.Laws.{IsReply, replied, process-IsReply}
use mstack_cpp.Ipv4
use mstack_cpp.Ipv4.{Ipv4, next_hop, resolved}
use mstack_cpp.Ipv4.Laws.{out_frame, packet_of, process-posts, make_packet_lem as make_packet_ipv4}
use mstack_cpp.Ipv4.Header.{checked, Written}
use mstack_cpp.Tcp.{Tcp}
use mstack_cpp.Tcb.{Env}
use mstack_cpp.Manager.{Indeterminate}
use mstack_cpp.Stack.{Reachable}
use mstack_cpp.System.{
  System, icmp_task, resolve_task, ipv4_task, eth_task, read, write, ready, async_receive, Runs,
  done, runs, is_cons, is_writing, is_reading,
}
use mstack_cpp.System.Descent.{CanSend}
use mstack_cpp.System.Steps.{
  taken, read_skb, step-read_icmp, step_icmp_task, step_resolve_task, step_ipv4_task, step_eth_task,
  step_write,
}

-- The bytes of a frame with an echo request: its three headers fit, and it fits a read.
pub record IsPing (he : EthernetHeader) (hi : Ipv4Header) (hc : IcmpHeader) (content bytes : List ℕ)
    : Type 0 where
  pub frame_fits : FrameFits he
  pub frame_proto : he.proto ≡ 0x0800
  pub datagram_fits : DatagramFits hi
  pub version : hi.version ≡ 4
  pub datagram_proto : hi.proto_type ≡ 1
  pub icmp_fits : IcmpFits hc
  pub request : hc.proto_type ≡ 8
  pub octets : IsBytes content
  pub short : 42 + length content ≤ 1500
  pub whole :
      bytes
      ≡ EthernetHeader.produce he ++ (Ipv4Header.produce hi ++ (IcmpHeader.produce hc ++ content))

-- The bytes of the answer: the addresses are exchanged, the identifier, the sequence number and the
-- data are those of the request, and both checksums verify.
pub record IsPong (own neighbour : MacAddr) (seq : ℕ) (hi : Ipv4Header) (hc : IcmpHeader)
    (content bytes : List ℕ) : Type 0 where
  pub ip : Ipv4Header
  pub chsum : ℕ
  pub src_addr : ip.src_addr ≡ hi.dst_addr
  pub dst_addr : ip.dst_addr ≡ hi.src_addr
  pub proto_type : ip.proto_type ≡ 1
  pub id : ip.id ≡ seq
  pub whole :
      bytes
      ≡ EthernetHeader.produce
          (record { dst_mac_addr = neighbour; src_mac_addr = own; proto = 0x0800 })
        ++ (Ipv4Header.produce ip ++ (IcmpHeader.produce (replied hc chsum) ++ content))
  pub ip_verifies : Verifies (Ipv4Header.produce ip)
  pub icmp_verifies : Verifies (IcmpHeader.produce (replied hc chsum) ++ content)

-- A namespace that reads from `dev`, whose queues below `icmp`, `ipv4` and `ethernet` are empty, and
-- that reaches the address `peer` over the idle device `out`.
pub record IsIdle {Ring Waiter Cb : Type 0} (dev out : ℕ) (hop : Route) (own neighbour : MacAddr)
    (peer : ℕ) (written : List (List ℕ)) (s : System Ring Waiter Cb) : Type 0 where
  pub icmp_under : s.icmp.under ≡ true
  pub icmp_queue : s.icmp.packet_queue ≡ []
  pub sends : CanSend out hop own neighbour peer written s.rt s.arp s.ipv4 s.eth s.devices
  pub reading : AddrMap.find dev s.reading ≡ some true
