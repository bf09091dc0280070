-- ===== src/Tests/Acks.antt =====
-- Acknowledgements, and a FIN, at the server's block: 1001 is unacknowledged and 1003 is next.
use mstack_cpp.Base.{◌+◌, ◌-◌, ◌≡◌, refl, inl, [], ◌∷◌, ◌++◌, arith, some, ok, u32}
use mstack_cpp.Endpoint.{TcpPacket}
use mstack_cpp.TcpHeader.{TcpHeader}
use mstack_cpp.Ring.Bounded.{BoundedList, bounded_list}
use mstack_cpp.Tcb.{Tcb, established, close_wait, time_wait}
use mstack_cpp.Tcb.Segment.{take_ack, fin_stage}
use mstack_cpp.Tcb.Segment.Ack.{Acked, take_ack-Acked, take_ack-duplicate}
use mstack_cpp.Tcb.Segment.Fin.{IsFinAck, fin_stage-established}
use mstack_cpp.Tests.Data.{env, ring, block, block-Fields, header}

abbrev sending : BoundedList
sending = ring (10 ∷ 20 ∷ 30 ∷ []) 500

abbrev sender : Tcb BoundedList
sender = block established established (some sending) (ring [] 0xfaf0) []

take_ack-Acked_example :
    (t' : Tcb BoundedList) × (take_ack bounded_list (header 5001 1002 1 0) sender ≡ ok t')
    × Acked bounded_list sender sending (1002 - 1001) 1002 t'
take_ack-Acked_example =
    take_ack-Acked bounded_list (header 5001 1002 1 0) sender sending refl (omega arith)
      (omega arith) (omega arith) (omega arith)

take_ack-duplicate_example :
    (t' : Tcb BoundedList) × (queue : BoundedList) × (take_ack bounded_list
        (header 5001 1000 1 0)
        sender
      ≡ ok t')
    × (t'.send.pq ≡ some queue)
    × (queue.items ≡ [])
    × (t'.send.seq_nr_unack ≡ 1001)
take_ack-duplicate_example =
    take_ack-duplicate bounded_list (header 5001 1000 1 0) sender sending refl (omega arith)
      (omega arith) (omega arith) (omega arith)

fin_stage-established_example :
    (t' : Tcb BoundedList) × (pkt : TcpPacket) × (h : TcpHeader) × (fin_stage bounded_list env
        (header 5001 1003 1 1)
        sender
      ≡ ok t')
    × (t'.rcv.next ≡ u32 (5001 + 1))
    × (t'.out ≡ [] ++ pkt ∷ [])
    × IsFinAck bounded_list env sender pkt h
    × (t'.state ≡ close_wait)
    × (t'.next_state ≡ time_wait)
fin_stage-established_example =
    fin_stage-established bounded_list env (header 5001 1003 1 1) sender sending refl (inl refl)
      refl (block-Fields established established (some sending) (ring [] 0xfaf0) [])
