-- ===== src/Tcb/Segment/Fin.antt =====
-- The eighth step of `process`: a FIN in SYN-RECEIVED or ESTABLISHED.
use mstack_cpp.Base.{
  ◌+◌, ◌≡◌, refl, ◌∙◌, ap, ◌⊎◌, inl, inr, [], ◌∷◌, ◌++◌, arith, true, some, ok, u32,
}
use mstack_cpp.Endpoint.{TcpPacket}
use mstack_cpp.Skbuff.{payload}
use mstack_cpp.Ring.{CircularBuffer}
use mstack_cpp.TcpHeader.{TcpHeader, is_set}
use mstack_cpp.TcpHeader
use mstack_cpp.TcpHeader.Roundtrip.{consume-produce_header}
use mstack_cpp.Tcb.{Tcb, TcpState, syn_received, established, close_wait, time_wait, Env, enqueue}
use mstack_cpp.Tcb.Output.{out_header}
use mstack_cpp.Tcb.Output.Packet.{
  Fields, next_len, next_text, next_packet, after_packet, payload-next_packet,
  make_and_send_pkt_lem, out_header-Fits,
}
use mstack_cpp.Tcb.Segment.{fin_case_fin_wait_1, fin_case_established, fin_switch, fin_stage}

module _ {Ring : Type 0} (C : CircularBuffer Ring) (env : Env) where
  -- The block when the FIN's acknowledgement is made.
  abbrev closing_block : Tcb Ring → Tcb Ring
  closing_block t = record t {
    rcv = record (t.rcv) { next = u32 (t.rcv.next + 1) };
    next_state = close_wait;
  }

  abbrev closed_block : Tcb Ring → Ring → Tcb Ring
  closed_block t pq =
      fin_case_fin_wait_1
        (enqueue (next_packet C env (closing_block t) pq) (after_packet C (closing_block t) pq))

  fin_case_established_lem :
      (t : Tcb Ring) (pq : Ring)
      → t.send.pq ≡ some pq
      → fin_case_established C env t ≡ ok (closed_block t pq)
  unfolding fin_case_established
  fin_case_established_lem t pq q = rw (make_and_send_pkt_lem C env (closing_block t) pq q)

  fin_switch-open :
      (s : TcpState) (t : Tcb Ring)
      → (s ≡ established) ⊎ (s ≡ syn_received)
      → fin_switch C s env t ≡ fin_case_established C env t
  unfolding fin_switch
  fin_switch-open s t (inl e) = ap (λ s. fin_switch C s env t) e
  fin_switch-open s t (inr e) = ap (λ s. fin_switch C s env t) e

  fin_stage-enters :
      (tcph : TcpHeader) (t : Tcb Ring)
      → is_set tcph.fin ≡ true
      → (t.state ≡ established) ⊎ (t.state ≡ syn_received)
      → fin_stage C env tcph t ≡ fin_case_established C env t
  fin_stage-enters tcph t f e =
      let switched : fin_stage C env tcph t ≡ fin_switch C t.state env t =
        unfold fin_stage in rw f in
      switched ∙ fin_switch-open t.state t e

  -- The one packet that a FIN is answered with, and what it says when it is read.
  pub record IsFinAck (t : Tcb Ring) (pkt : TcpPacket) (h : TcpHeader) : Type 0 where
    pub readable : TcpHeader.consume (payload pkt.skb) ≡ ok h
    pub ack : h.ack ≡ 1
    pub syn : h.syn ≡ 0
    pub ack_no : h.ack_no ≡ u32 (t.rcv.next + 1)
    pub dst_port : h.dst_port ≡ t.remote_ep.addrv4_port

  out_header-IsFinAck :
      (t : Tcb Ring) (pq : Ring)
      → Fields t
      → IsFinAck t
          (next_packet C env (closing_block t) pq)
          (out_header C (closing_block t) (next_len C (closing_block t) pq))
  out_header-IsFinAck t pq f =
      let u = closing_block t in
      let h = out_header C u (next_len C u pq) in
      let fits : Fields u = ground arith in
      record {
        readable =
            ap TcpHeader.consume (payload-next_packet C env u pq)
            ∙ consume-produce_header h (next_text C u pq)
                (out_header-Fits C u (next_len C u pq) fits) (unfold out_header in refl);
        ack = unfold out_header in refl;
        syn = unfold out_header in refl;
        ack_no = unfold out_header in refl;
        dst_port = unfold out_header in refl;
      }

  -- In ESTABLISHED and in SYN-RECEIVED, with a send queue, a FIN moves `rcv.next` over it and is
  -- answered with one packet that acknowledges it; the block is then in CLOSE-WAIT, but with
  -- TIME-WAIT to follow, since the case falls through those of FIN-WAIT-1 and FIN-WAIT-2.
  pub fin_stage-established :
      (tcph : TcpHeader) (t : Tcb Ring) (pq : Ring)
      → is_set tcph.fin ≡ true
      → (t.state ≡ established) ⊎ (t.state ≡ syn_received)
      → t.send.pq ≡ some pq
      → Fields t
      → (t' : Tcb Ring) × (pkt : TcpPacket) × (h : TcpHeader) × (fin_stage C env tcph t ≡ ok t')
        × (t'.rcv.next ≡ u32 (t.rcv.next + 1))
        × (t'.out ≡ t.out ++ pkt ∷ [])
        × IsFinAck t pkt h
        × (t'.state ≡ close_wait)
        × (t'.next_state ≡ time_wait)
  fin_stage-established tcph t pq f s q fields = (
    closed_block t pq,
    next_packet C env (closing_block t) pq,
    out_header C (closing_block t) (next_len C (closing_block t) pq),
    fin_stage-enters tcph t f s ∙ fin_case_established_lem t pq q,
    refl,
    refl,
    out_header-IsFinAck t pq fields,
    refl,
    refl,
  )
