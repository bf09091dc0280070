-- ===== src/Tcb/Output/Pending.antt =====
-- The loop that sends pending data: it ends, and sends the unsent part of the queue in order.
use mstack_cpp.Base.{
  ℕ, zero, suc, ◌+◌, ◌-◌, ◌^◌, ◌<◌, ◌≡◌, refl, ◌∙◌, ap, sym, List, [], ◌∷◌, ◌++◌, arith, false,
  Bool-cases, inl, inr, not, ◌==◌, some, ok, ◌>>=◌, drop, length, append_assoc, append-nil,
  drop-append, drop-all, drop-drop, take-append-drop,
}
use mstack_cpp.Endpoint.{TcpPacket}
use mstack_cpp.Skbuff.{payload}
use mstack_cpp.TcpHeader.{fixed_size}
use mstack_cpp.TcpHeader
use mstack_cpp.TcpHeader.Roundtrip.{length-produce}
use mstack_cpp.Ring.{CircularBuffer}
use mstack_cpp.Tcb.{Tcb, Env, enqueue, deref}
use mstack_cpp.Tcb.Output.{
  app_data_unacknowleged, app_data_to_send_left, has_app_data_to_send, out_header, send_loop,
  run_send_pending,
}
use mstack_cpp.Tcb.Output.Packet.{
  sent, next_len, next_text, after_packet, next_packet, payload-next_packet, make_and_send_pkt_lem,
}

-- The text that a packet carries behind its header, and that of a row of packets.
abbrev pub text : TcpPacket → List ℕ
text pkt = drop fixed_size (payload pkt.skb)

abbrev pub texts : List TcpPacket → List ℕ
texts [] = []
texts (pkt ∷ pkts) = text pkt ++ texts pkts

pub texts-append : (ps qs : List TcpPacket) → texts (ps ++ qs) ≡ texts ps ++ texts qs
texts-append [] qs = refl
texts-append (p ∷ ps) qs =
    ap (◌++◌ (text p)) (texts-append ps qs) ∙ sym (append_assoc (text p) (texts ps) (texts qs))

module _ {Ring : Type 0} (C : CircularBuffer Ring) (env : Env) where
  text-next_packet : (t : Tcb Ring) (pq : Ring) → text (next_packet C env t pq) ≡ next_text C t pq
  text-next_packet t pq =
      ap (drop fixed_size) (payload-next_packet C env t pq)
      ∙ drop-append fixed_size (TcpHeader.produce (out_header C t (next_len C t pq)))
          (next_text C t pq) (length-produce (out_header C t (next_len C t pq)))

  -- What `run_send_pending` ends in: nothing is left to send, the queue is as it was, the
  -- sequence number stands behind the last byte of it, and the packets carry the rest of it.
  pub record IsSent (t : Tcb Ring) (pq : Ring) (t' : Tcb Ring) : Type 0 where
    pub finished : has_app_data_to_send C t' ≡ ok false
    pub queue : t'.send.pq ≡ some pq
    pub unack : t'.send.seq_nr_unack ≡ t.send.seq_nr_unack
    pub mss : t'.send.mss ≡ t.send.mss
    pub all_sent : sent C t' pq ≡ length (C.items pq)
    pub carried : texts t'.out ≡ texts t.out ++ drop (sent C t pq) (C.items pq)

  has-idle :
      (t : Tcb Ring) (pq : Ring)
      → t.send.pq ≡ some pq
      → has_app_data_to_send C t ≡ ok (not (next_len C t pq == 0))
  unfolding has_app_data_to_send app_data_to_send_left app_data_unacknowleged
  has-idle t pq h = ground arith

  idle :
      (t : Tcb Ring) (pq : Ring)
      → 0 < t.send.mss
      → next_len C t pq ≡ 0
      → sent C t pq ≡ length (C.items pq)
  idle t pq m h = omega arith

  -- A round with something to send: it sends a byte at least, and moves on by what it sends.
  sent-after_packet :
      (t : Tcb Ring) (pq : Ring)
      → t.send.seq_nr_unack < 2 ^ 32
      → length (C.items pq) < 2 ^ 32
      → 0 < next_len C t pq
      → sent C (after_packet C t pq) pq ≡ sent C t pq + next_len C t pq
  sent-after_packet t pq u l h = omega arith

  pub texts-round :
      (t : Tcb Ring) (pq : Ring)
      → texts (t.out ++ next_packet C env t pq ∷ [])
          ++ drop (sent C t pq + next_len C t pq) (C.items pq)
        ≡ texts t.out ++ drop (sent C t pq) (C.items pq)
  texts-round t pq =
      let n = next_len C t pq in
      let left = drop (sent C t pq) (C.items pq) in
      ap (λ xs. xs ++ drop (sent C t pq + n) (C.items pq))
        (texts-append t.out (next_packet C env t pq ∷ [])
          ∙ ap (λ xs. texts t.out ++ xs)
              (append-nil (text (next_packet C env t pq)) ∙ text-next_packet t pq))
      ∙ append_assoc (texts t.out) (next_text C t pq) (drop (sent C t pq + n) (C.items pq))
      ∙ ap (λ xs. texts t.out ++ xs)
          (ap (λ xs. next_text C t pq ++ xs)
              (sym (drop-drop (sent C t pq + n) n (sent C t pq) (C.items pq) (omega arith)))
            ∙ take-append-drop n left)

  send_loop_total :
      (fuel : ℕ) (t : Tcb Ring) (pq : Ring)
      → t.send.pq ≡ some pq
      → 0 < t.send.mss
      → t.send.seq_nr_unack < 2 ^ 32
      → length (C.items pq) < 2 ^ 32
      → length (C.items pq) - sent C t pq < fuel
      → (t' : Tcb Ring) × (send_loop C env fuel t ≡ ok t') × IsSent t pq t'
  unfolding send_loop
  send_loop_total zero t pq q m u l f = absurd (omega arith)
  send_loop_total (suc fuel) t pq q m u l f = elim (Bool-cases (next_len C t pq == 0)) [
    | inl done ↦
        let none_left : next_len C t pq ≡ 0 = ground arith in
        let all : sent C t pq ≡ length (C.items pq) = idle t pq m none_left in
        (
          t,
          rw (has-idle t pq q, done),
          record {
            finished = rw (has-idle t pq q, done);
            queue = q;
            unack = refl;
            mss = refl;
            all_sent = all;
            carried = sym (
                ap (λ xs. texts t.out ++ xs)
                  (drop-all (sent C t pq) (C.items pq) (omega (arith, all)))
                ∙ append-nil (texts t.out));
          },
        )
    | inr more ↦
        let some_left : 0 < next_len C t pq = ground arith in
        let moved = sent-after_packet t pq u l some_left in
        let t1 = enqueue (next_packet C env t pq) (after_packet C t pq) in
        let (t', runs, s) = send_loop_total fuel t1 pq q m u l (omega (arith, moved)) in
        (
          t',
          rw (has-idle t pq q, more, make_and_send_pkt_lem C env t pq q) runs,
          record {
            finished = s.finished;
            queue = s.queue;
            unack = s.unack;
            mss = s.mss;
            all_sent = s.all_sent;
            carried =
                s.carried ∙ ap (λ k. texts t1.out ++ drop k (C.items pq)) moved ∙ texts-round t pq;
          },
        )
  ]

  pub run-enters :
      (t : Tcb Ring) (pq : Ring)
      → t.send.pq ≡ some pq
      → run_send_pending C env t ≡ send_loop C env (suc (length (C.items pq))) t
  unfolding run_send_pending
  run-enters t pq q = ap (λ o. deref o >>= λ r. send_loop C env (suc (length (C.items r))) t) q

  -- Where the queue exists and holds fewer than 2 ^ 32 bytes and the peer's segment size is not 0,
  -- the posted loop ends. It leaves nothing to send and the queue unchanged, and the texts of
  -- the packets it sent are exactly the bytes of the queue that had not been sent, in order.
  pub run_send_pending-IsSent :
      (t : Tcb Ring) (pq : Ring)
      → t.send.pq ≡ some pq
      → 0 < t.send.mss
      → t.send.seq_nr_unack < 2 ^ 32
      → length (C.items pq) < 2 ^ 32
      → (t' : Tcb Ring) × (run_send_pending C env t ≡ ok t') × IsSent t pq t'
  run_send_pending-IsSent t pq q m u l =
      let (t', runs, s) = send_loop_total (suc (length (C.items pq))) t pq q m u l (omega arith) in
      (t', run-enters t pq q ∙ runs, s)
