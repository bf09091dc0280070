-- ===== src/Tcb/Segment/Wrapped.antt =====
-- SYN-RECEIVED after the initial sequence number 2 ^ 32 - 1, which wraps.
use mstack_cpp.Base.{
  ℕ, ◌-◌, ◌^◌, ◌<◌, ◌≡◌, refl, ◌∙◌, ap, inl, inr, List, [], ◌∷◌, Bool-cases, true, false, ◌&&◌,
  arith, All, Result, ok, ◌>>=◌, u16, length, leb,
}
use mstack_cpp.Endpoint.{TcpPacket}
use mstack_cpp.Ring.{CircularBuffer}
use mstack_cpp.TcpHeader.{TcpHeader, is_set}
use mstack_cpp.Options.{TcpOption, decode_options}
use mstack_cpp.Tcb.{Tcb, closed, listen, syn_sent, syn_received, state_eq, Env}
use mstack_cpp.Tcb.Output.Packet.{Fields}
use mstack_cpp.Tcb.Handshake.Opening.{IsSyn}
use mstack_cpp.Tcb.Segment.{
  parse, process, process_segment, process_synchronized, ack_stage, ack_switch, ack_syn_received,
  tcp_check_segment,
}
use mstack_cpp.Tcb.Segment.Opens.{process-listen}

-- A readable packet with the ACK bit.
pub record IsAck (pkt : TcpPacket) : Type 0 where
  pub header : TcpHeader
  pub opts : List ℕ
  pub text : List ℕ
  pub readable : parse pkt ≡ ok (header, opts, text)
  pub ack : is_set header.ack ≡ true

module _ {Ring : Type 0} (C : CircularBuffer Ring) where
  -- Packets that are processed one after the other.
  pub process_all : List (Env × TcpPacket) → Tcb Ring → Result (Tcb Ring)
  process_all [] t = ok t
  process_all ((env, pkt) ∷ rest) t = do t1 ← process C env pkt t; process_all rest t1

  -- A block that waits for an acknowledgement that no number is.
  pub record IsStuck (t : Tcb Ring) : Type 0 where
    pub state : t.state ≡ syn_received
    pub wrapped : t.send.seq_nr_next < t.send.seq_nr_unack

  ack_stage-IsStuck :
      (env : Env) (tcph : TcpHeader) (t : Tcb Ring)
      → IsStuck t
      → is_set tcph.ack ≡ true
      → ack_stage C env tcph t ≡ ok (t, true)
  unfolding ack_stage ack_switch ack_syn_received
  ack_stage-IsStuck env tcph t s a =
      let none : (leb t.send.seq_nr_unack tcph.ack_no && leb tcph.ack_no t.send.seq_nr_next)
          ≡ false =
        ground (arith, s.wrapped) in
      rw (a, s.state) (rw none refl)

  synchronized-IsStuck :
      (env : Env) (tcph : TcpHeader) (text : List ℕ) (t : Tcb Ring)
      → IsStuck t
      → is_set tcph.ack ≡ true
      → process_synchronized C env tcph text t ≡ ok t
  unfolding process_synchronized
  synchronized-IsStuck env tcph text t s a =
      let stage = ack_stage-IsStuck env tcph t s a in
      elim (Bool-cases (tcp_check_segment tcph (u16 (length text)) t)) [
        | inl e ↦ elim (Bool-cases (is_set tcph.rst)) [
          | inl r ↦ rw (e, r, s.state) refl
          | inr r ↦ elim (Bool-cases (is_set tcph.syn)) [
            | inl y ↦ rw (e, r, y, s.state) refl
            | inr y ↦ rw (e, r, y, stage) refl
          ]
        ]
        | inr e ↦ rw e refl
      ]

  process-IsStuck :
      (env : Env) (pkt : TcpPacket) (t : Tcb Ring)
      → IsStuck t
      → IsAck pkt
      → process C env pkt t ≡ ok t
  unfolding process process_segment
  process-IsStuck env pkt t s a =
      rw
        (
          a.readable,
          ap (λ x. state_eq x closed) s.state,
          ap (λ x. state_eq x listen) s.state,
          ap (λ x. state_eq x syn_sent) s.state,
          synchronized-IsStuck env a.header a.text t s a.ack,
        )
        refl

  process_all-IsStuck :
      (pkts : List (Env × TcpPacket)) (t : Tcb Ring)
      → IsStuck t
      → All (λ (p : Env × TcpPacket). IsAck p.1) pkts
      → process_all pkts t ≡ ok t
  unfolding process_all
  process_all-IsStuck [] t s h = refl
  process_all-IsStuck ((env, pkt) ∷ rest) t s h =
      ap (λ r. r >>= process_all rest) (process-IsStuck env pkt t s h.0)
      ∙ process_all-IsStuck rest t s h.1

  -- Where the initial sequence number 2 ^ 32 - 1 is drawn for a readable SYN without ACK and RST at
  -- a block in LISTEN, with numbers that fit a header's fields, `process` returns with the block in
  -- SYN-RECEIVED, and no readable packets with the ACK bit, however many and whatever they
  -- acknowledge, change anything of that block: the connection is never established by them.
  pub process_all-wrapped :
      (env : Env) (syn : TcpPacket) (tcph : TcpHeader) (opts segment : List ℕ)
      (decoded : List TcpOption) (pkts : List (Env × TcpPacket)) (t : Tcb Ring)
      → parse syn ≡ ok (tcph, opts, segment)
      → decode_options opts ≡ ok decoded
      → t.state ≡ listen
      → IsSyn tcph
      → Fields t
      → env.isn ≡ 2 ^ 32 - 1
      → All (λ (p : Env × TcpPacket). IsAck p.1) pkts
      → (t' : Tcb Ring) × (process C env syn t ≡ ok t')
        × (t'.state ≡ syn_received)
        × (process_all pkts t' ≡ ok t')
  process_all-wrapped env syn tcph opts segment decoded pkts t p d l s f isn acks =
      let (t', e, o) =
        process-listen C env syn tcph opts segment decoded t p d l s f (omega (arith, isn)) in
      let stuck : IsStuck t' = record {
        state = o.state;
        wrapped = omega (arith, isn, o.seq_nr_unack, o.seq_nr_next);
      } in
      (t', e, o.state, process_all-IsStuck pkts t' stuck acks)
