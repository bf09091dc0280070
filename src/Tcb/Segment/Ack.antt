-- ===== src/Tcb/Segment/Ack.antt =====
-- The fifth step of `process`: what an acknowledgement takes off the send queue.
use mstack_cpp.Base.{
  ℕ, ◌+◌, ◌-◌, ◌^◌, ◌≤◌, ◌<◌, min, ◌≡◌, refl, ◌∙◌, ap, [], arith, some, ok, sub_u32, drop, length,
  length-drop, drop-all, drop-min,
}
use mstack_cpp.Ring.{CircularBuffer}
use mstack_cpp.TcpHeader.{TcpHeader}
use mstack_cpp.Tcb.{Tcb}
use mstack_cpp.Tcb.Output.Packet.{sent}
use mstack_cpp.Tcb.Segment.{between, take_ack}

module _ {Ring : Type 0} (C : CircularBuffer Ring) where
  abbrev taken : TcpHeader → Tcb Ring → Ring → ℕ
  taken tcph t pq = min (length (C.items pq)) (sub_u32 tcph.ack_no t.send.seq_nr_unack)

  abbrev pub after_ack : TcpHeader → Tcb Ring → Ring → Tcb Ring
  after_ack tcph t pq = record t {
    send = record (t.send) {
      pq = some (C.erase_begin (taken tcph t pq) pq);
      seq_nr_unack = between tcph.ack_no t.send.seq_nr_unack t.send.seq_nr_next;
    };
  }

  pub take_ack_lem :
      (tcph : TcpHeader) (t : Tcb Ring) (pq : Ring)
      → t.send.pq ≡ some pq
      → t.send.seq_nr_unack ≤ t.send.seq_nr_next
      → take_ack C tcph t ≡ ok (after_ack tcph t pq)
  unfolding take_ack
  take_ack_lem tcph t pq q order = ground arith

  items-after_ack :
      (tcph : TcpHeader) (t : Tcb Ring) (pq : Ring)
      → C.items (C.erase_begin (taken tcph t pq) pq) ≡ drop (taken tcph t pq) (C.items pq)
  items-after_ack tcph t pq = C.items-erase_begin (taken tcph t pq) pq (omega arith)

  -- What an acknowledgement leaves: the queue and the number of its bytes that are in flight.
  pub record Acked (t : Tcb Ring) (pq : Ring) (n unack : ℕ) (t' : Tcb Ring) : Type 0 where
    pub queue : Ring
    pub is_queue : t'.send.pq ≡ some queue
    pub dropped : C.items queue ≡ drop n (C.items pq)
    pub moved : t'.send.seq_nr_unack ≡ unack
    pub same_next : t'.send.seq_nr_next ≡ t.send.seq_nr_next
    pub in_flight : sent C t' queue ≡ sent C t pq - n

  -- An acknowledgement of bytes in flight, SND.UNA =< SEG.ACK =< SND.NXT with no wrap and all of
  -- them in the queue, takes exactly the bytes that it acknowledges off the front, sets
  -- `seq_nr_unack` to it, and leaves the rest of them in flight.
  pub take_ack-Acked :
      (tcph : TcpHeader) (t : Tcb Ring) (pq : Ring)
      → t.send.pq ≡ some pq
      → t.send.seq_nr_unack ≤ tcph.ack_no
      → tcph.ack_no ≤ t.send.seq_nr_next
      → t.send.seq_nr_next < 2 ^ 32
      → t.send.seq_nr_next - t.send.seq_nr_unack ≤ length (C.items pq)
      → (t' : Tcb Ring) × (take_ack C tcph t ≡ ok t')
        × Acked t pq (tcph.ack_no - t.send.seq_nr_unack) tcph.ack_no t'
  take_ack-Acked tcph t pq q lo hi fits held =
      let n = tcph.ack_no - t.send.seq_nr_unack in
      let e : taken tcph t pq ≡ n = omega arith in
      let left : C.items (C.erase_begin (taken tcph t pq) pq) ≡ drop n (C.items pq) =
        items-after_ack tcph t pq ∙ ap (λ k. drop k (C.items pq)) e in
      let unack : between tcph.ack_no t.send.seq_nr_unack t.send.seq_nr_next ≡ tcph.ack_no =
        ground arith in
      (
        after_ack tcph t pq,
        take_ack_lem tcph t pq q (omega arith),
        record {
          queue = C.erase_begin (taken tcph t pq) pq;
          is_queue = refl;
          dropped = left;
          moved = unack;
          same_next = refl;
          in_flight = omega (arith, unack, ap length left, length-drop n (C.items pq));
        },
      )

  -- A duplicate, SEG.ACK < SND.UNA =< SND.NXT with SND.UNA below 2 ^ 32, at a block with a send
  -- queue, where SND.UNA with the length of the queue is at most SEG.ACK + 2 ^ 32: `take_ack`
  -- returns. The difference wraps, so the whole queue is dropped, sent or not, although
  -- `seq_nr_unack` stays.
  pub take_ack-duplicate :
      (tcph : TcpHeader) (t : Tcb Ring) (pq : Ring)
      → t.send.pq ≡ some pq
      → tcph.ack_no < t.send.seq_nr_unack
      → t.send.seq_nr_unack ≤ t.send.seq_nr_next
      → t.send.seq_nr_unack < 2 ^ 32
      → t.send.seq_nr_unack + length (C.items pq) ≤ tcph.ack_no + 2 ^ 32
      → (t' : Tcb Ring) × (queue : Ring) × (take_ack C tcph t ≡ ok t')
        × (t'.send.pq ≡ some queue)
        × (C.items queue ≡ [])
        × (t'.send.seq_nr_unack ≡ t.send.seq_nr_unack)
  take_ack-duplicate tcph t pq q old order u near =
      let e : taken tcph t pq ≡ length (C.items pq) = omega arith in
      (
        after_ack tcph t pq,
        C.erase_begin (taken tcph t pq) pq,
        take_ack_lem tcph t pq q order,
        refl,
        items-after_ack tcph t pq ∙ drop-all (taken tcph t pq) (C.items pq) (omega (arith, e)),
        ground arith,
      )

  -- An acknowledgement beyond SND.NXT takes bytes off that were never sent: all of the queue that
  -- its distance from `seq_nr_unack` covers, while `seq_nr_unack` moves to `seq_nr_next` only.
  pub take_ack-unsent :
      (tcph : TcpHeader) (t : Tcb Ring) (pq : Ring)
      → t.send.pq ≡ some pq
      → t.send.seq_nr_unack ≤ t.send.seq_nr_next
      → t.send.seq_nr_next < tcph.ack_no
      → tcph.ack_no < 2 ^ 32
      → (t' : Tcb Ring) × (queue : Ring) × (take_ack C tcph t ≡ ok t')
        × (t'.send.pq ≡ some queue)
        × (C.items queue ≡ drop (tcph.ack_no - t.send.seq_nr_unack) (C.items pq))
        × (t'.send.seq_nr_unack ≡ t.send.seq_nr_next)
  take_ack-unsent tcph t pq q order beyond fits = (
    after_ack tcph t pq,
    C.erase_begin (taken tcph t pq) pq,
    take_ack_lem tcph t pq q order,
    refl,
    items-after_ack tcph t pq
        ∙ drop-min (tcph.ack_no - t.send.seq_nr_unack) (C.items pq) (taken tcph t pq) (omega arith),
    ground arith,
  )
