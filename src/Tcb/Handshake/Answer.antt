-- ===== src/Tcb/Handshake/Answer.antt =====
-- SYN-SENT and the SYN-ACK: the packet that is sent and the block that is left.
use mstack_cpp.Base.{
  ℕ, ◌+◌, ◌^◌, ◌≤◌, ◌<◌, ◌≡◌, refl, ◌∙◌, ap, List, arith, true, false, ltb, some, Bool, Result, ok,
  ◌>>=◌, u32, length,
}
use mstack_cpp.Endpoint.{TcpPacket}
use mstack_cpp.Skbuff.{payload}
use mstack_cpp.Ring.{CircularBuffer}
use mstack_cpp.TcpHeader.{TcpHeader, is_set}
use mstack_cpp.TcpHeader
use mstack_cpp.TcpHeader.Roundtrip.{consume-produce_header}
use mstack_cpp.Options.{TcpOption, decode_options}
use mstack_cpp.Tcb.{Tcb, syn_sent, established, state_eq, Env, enqueue}
use mstack_cpp.Tcb.Output.{out_header, make_and_send_pkt}
use mstack_cpp.Tcb.Output.Packet.{
  Fields, next_len, next_text, next_packet, after_packet, payload-next_packet,
  make_and_send_pkt_lem, out_header-Fits,
}
use mstack_cpp.Tcb.Handshake.{accept_syn_ack, tcp_handle_syn_sent, listen_finish}
use mstack_cpp.Tcb.Handshake.Opening.{last_mss, apply_options_lem}

-- A SYN-ACK without RST of what was sent: SND.UNA < SEG.ACK =< SND.NXT.
pub record IsAnswer {Ring : Type 0} (tcph : TcpHeader) (t : Tcb Ring) : Type 0 where
  pub syn : is_set tcph.syn ≡ true
  pub ack : is_set tcph.ack ≡ true
  pub rst : is_set tcph.rst ≡ false
  pub from_unack : t.send.seq_nr_unack < tcph.ack_no
  pub to_next : tcph.ack_no ≤ t.send.seq_nr_next
  pub ack_no : tcph.ack_no < 2 ^ 32

-- What the last packet of a handshake says when it is read.
pub record IsLastAck {Ring : Type 0} (tcph : TcpHeader) (t : Tcb Ring) (pkt : TcpPacket)
    (h : TcpHeader) : Type 0 where
  pub readable : TcpHeader.consume (payload pkt.skb) ≡ ok h
  pub syn : h.syn ≡ 0
  pub ack : h.ack ≡ 1
  pub rst : h.rst ≡ 0
  pub seq_no : h.seq_no ≡ tcph.ack_no
  pub ack_no : h.ack_no ≡ u32 (tcph.seq_no + 1)
  pub src_port : h.src_port ≡ t.local_ep.addrv4_port
  pub dst_port : h.dst_port ≡ t.remote_ep.addrv4_port

-- What follows the last packet.
abbrev finish : {Ring : Type 0} → Tcb Ring → Result (Tcb Ring × Bool)
finish t = ok (listen_finish t, true)

module _ {Ring : Type 0} (C : CircularBuffer Ring) (env : Env) where
  abbrev pub open_block : TcpHeader → List TcpOption → Tcb Ring → Tcb Ring
  open_block tcph opts t = record t {
    rcv = record (t.rcv) { next = u32 (tcph.seq_no + 1) };
    send = record {
      seq_nr_unack = tcph.ack_no;
      seq_nr_next = t.send.seq_nr_next;
      window = tcph.window;
      mss = last_mss opts t.send.mss;
      pq = some (C.create tcph.window);
    };
    state = established;
    next_state = established;
  }

  accept_syn_ack_lem :
      (tcph : TcpHeader) (opts : List TcpOption) (t : Tcb Ring)
      → accept_syn_ack C env tcph opts t ≡ open_block tcph opts t
  unfolding accept_syn_ack
  accept_syn_ack_lem tcph opts t = rw (apply_options_lem opts _) refl

  pub nothing_to_send :
      (tcph : TcpHeader) (opts : List TcpOption) (t : Tcb Ring)
      → next_len C (open_block tcph opts t) (C.create tcph.window) ≡ 0
  nothing_to_send tcph opts t = omega (arith, ap length (C.items-create tcph.window))

  abbrev pub answered_block : TcpHeader → List TcpOption → Tcb Ring → Tcb Ring
  answered_block tcph opts t =
      let pq = C.create tcph.window in
      let u = open_block tcph opts t in
      listen_finish (enqueue (next_packet C env u pq) (after_packet C u pq))

  pub out_header-IsLastAck :
      (tcph : TcpHeader) (opts : List TcpOption) (t : Tcb Ring)
      → Fields t
      → IsAnswer tcph t
      → IsLastAck tcph t
          (next_packet C env (open_block tcph opts t) (C.create tcph.window))
          (out_header C (open_block tcph opts t) 0)
  unfolding out_header
  out_header-IsLastAck tcph opts t f a =
      let u = open_block tcph opts t in
      let pq = C.create tcph.window in
      let fits : Fields u = ground (arith, a.ack_no) in
      record {
        readable =
            ap TcpHeader.consume (payload-next_packet C env u pq)
            ∙ consume-produce_header (out_header C u (next_len C u pq)) (next_text C u pq)
                (out_header-Fits C u (next_len C u pq) fits) refl
            ∙ ap (λ n. ok (out_header C u n)) (nothing_to_send tcph opts t);
        syn = refl;
        ack = refl;
        rst = refl;
        seq_no = refl;
        ack_no = refl;
        src_port = refl;
        dst_port = refl;
      }

  sends_ack :
      (tcph : TcpHeader) (decoded : List TcpOption) (t : Tcb Ring)
      → (make_and_send_pkt C env (accept_syn_ack C env tcph decoded t) >>= finish)
        ≡ ok (answered_block tcph decoded t, true)
  sends_ack tcph decoded t =
      ap (λ r. r >>= finish)
        (ap (make_and_send_pkt C env) (accept_syn_ack_lem tcph decoded t)
          ∙ make_and_send_pkt_lem C env (open_block tcph decoded t) (C.create tcph.window) refl)

  answers :
      (tcph : TcpHeader) (opts : List ℕ) (t : Tcb Ring)
      → state_eq syn_sent t.state ≡ true
      → IsAnswer tcph t
      → tcp_handle_syn_sent C env tcph opts t ≡ (
          decode_options opts >>= λ decoded.
          make_and_send_pkt C env (accept_syn_ack C env tcph decoded t) >>= finish)
  unfolding tcp_handle_syn_sent
  answers tcph opts t l a =
      let lower : ltb tcph.ack_no t.send.seq_nr_unack ≡ false = ground (arith, a.from_unack) in
      let upper : ltb t.send.seq_nr_next tcph.ack_no ≡ false = ground (arith, a.to_next) in
      rw (l, a.syn, a.ack, lower, upper)

  pub syn_sent_lem :
      (tcph : TcpHeader) (opts : List ℕ) (decoded : List TcpOption) (t : Tcb Ring)
      → t.state ≡ syn_sent
      → IsAnswer tcph t
      → decode_options opts ≡ ok decoded
      → tcp_handle_syn_sent C env tcph opts t ≡ ok (answered_block tcph decoded t, true)
  syn_sent_lem tcph opts decoded t l a d =
      answers tcph opts t (ap (state_eq syn_sent) l) a
      ∙ ap
          (λ r.
            r >>= λ opts'. make_and_send_pkt C env (accept_syn_ack C env tcph opts' t) >>= finish)
          d
      ∙ sends_ack tcph decoded t
