-- ===== src/Tcb/Segment/Completes.antt =====
-- A SYN-ACK that reaches a block in SYN-SENT, through the whole of `process`.
use mstack_cpp.Base.{◌+◌, ◌≡◌, [], ◌∷◌, ◌++◌, some, u32}
use mstack_cpp.Endpoint.{TcpPacket}
use mstack_cpp.Ring.{CircularBuffer}
use mstack_cpp.TcpHeader.{TcpHeader}
use mstack_cpp.Tcb.{Tcb, established, Env, notify_connected}
use mstack_cpp.Tcb.Handshake.Answer.{IsLastAck}

module _ {Ring : Type 0} (C : CircularBuffer Ring) (env : Env) where
  -- What a SYN-ACK leaves of a block in SYN-SENT.
  pub record Completed (tcph : TcpHeader) (t t' : Tcb Ring) : Type 0 where
    pub state : t'.state ≡ established
    pub next_state : t'.next_state ≡ established
    pub seq_nr_unack : t'.send.seq_nr_unack ≡ tcph.ack_no
    pub next : t'.rcv.next ≡ u32 (tcph.seq_no + 1)
    pub pq : t'.send.pq ≡ some (C.create tcph.window)
    pub posted : t'.posted ≡ t.posted ++ notify_connected ∷ []
    pub answer :
        (pkt : TcpPacket) × (h : TcpHeader) × (t'.out ≡ t.out ++ pkt ∷ []) × IsLastAck tcph t pkt h
