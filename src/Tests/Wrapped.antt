-- ===== src/Tests/Wrapped.antt =====
-- A SYN for which the initial sequence number 2 ^ 32 - 1 is drawn, and the acknowledgement of it.
use mstack_cpp.Base.{ℕ, ◌≡◌, refl, List, [], ◌∷◌, ◌++◌, arith, length, length-append, ok, none}
use mstack_cpp.Endpoint.{TcpPacket}
use mstack_cpp.TcpHeader.{TcpHeader, produce}
use mstack_cpp.TcpHeader.Roundtrip.{Fits, length-produce}
use mstack_cpp.Skbuff.{store_head}
use mstack_cpp.Skbuff.Laws.{length-fresh, store_head-IsValid}
use mstack_cpp.Options.Roundtrip.{kept, decode_options-written}
use mstack_cpp.Ring.Bounded.{BoundedList, bounded_list}
use mstack_cpp.Tcb.{Tcb, Env, listen, syn_received}
use mstack_cpp.Tcb.Output.Packet.{blank, payload_filled}
use mstack_cpp.Tcb.Handshake.Active.{syn_options, syn_of}
use mstack_cpp.Tcb.Segment
use mstack_cpp.Tcb.Segment.Parse.{parse-produce}
use mstack_cpp.Tcb.Segment.Wrapped.{IsAck, process_all, process_all-wrapped}
use mstack_cpp.Tests.Data.{env, ring, block-Fields, header}
use mstack_cpp.Tests.Opening.{client, bytes, syn, syn-parsed, syn_of-IsSyn, server}

abbrev last : Env
last = record env { isn = 0xffffffff }

-- The acknowledgement of the SYN-ACK, whose sequence number wraps to 0.
abbrev ack_header : TcpHeader
ack_header = header 1001 0 1 0

ack_header-Fits : Fits ack_header
ack_header-Fits = ground arith

abbrev ack_bytes : List ℕ
ack_bytes = produce ack_header ++ ([] ++ [])

ack_size : length ack_bytes ≡ 20
ack_size = omega (arith, length-append (produce ack_header) [], length-produce ack_header)

abbrev ack_packet : TcpPacket
ack_packet = record syn { skb = store_head ack_bytes (blank env 54) }

ack_packet-IsAck : IsAck ack_packet
ack_packet-IsAck = record {
  header = ack_header;
  opts = [];
  text = [];
  readable =
      parse-produce ack_packet ack_header [] []
        (store_head-IsValid ack_bytes (blank env 54)
          (record { sized = length-fresh env.junk 54; ordered = omega arith; inside = omega arith })
          (omega (arith, ack_size)))
        (payload_filled env ack_bytes 54 (omega (arith, ack_size))) ack_header-Fits refl refl;
  ack = refl;
}

process_all-wrapped_example :
    (t' : Tcb BoundedList) × (Segment.process bounded_list last syn server ≡ ok t')
    × (t'.state ≡ syn_received)
    × (process_all bounded_list ((last, ack_packet) ∷ (last, ack_packet) ∷ []) t' ≡ ok t')
process_all-wrapped_example =
    process_all-wrapped bounded_list last syn (syn_of env client) bytes [] (kept syn_options)
      ((last, ack_packet) ∷ (last, ack_packet) ∷ []) server syn-parsed
      (decode_options-written syn_options (omega arith, tt)) refl syn_of-IsSyn
      (block-Fields listen listen none (ring [] 0xfaf0) []) refl
      (ack_packet-IsAck, (ack_packet-IsAck, tt))
