-- ===== src/Tcb/Handshake/Opening.antt =====
-- Opening a connection from LISTEN and from CLOSED: the packets that are sent and the block
-- that is left.
use mstack_cpp.Base.{
  ℕ, ◌+◌, ◌^◌, ◌<◌, ◌≡◌, refl, ◌∙◌, ap, List, [], ◌∷◌, ◌++◌, take, drop, true, false, arith, some,
  ok, ◌>>=◌, u32, length,
}
use mstack_cpp.Endpoint.{TcpPacket}
use mstack_cpp.Skbuff.{payload}
use mstack_cpp.Skbuff.Laws.{IsValid}
use mstack_cpp.Ring.{CircularBuffer}
use mstack_cpp.TcpHeader.{TcpHeader, is_set}
use mstack_cpp.TcpHeader
use mstack_cpp.TcpHeader.Roundtrip.{Fits, consume-produce_header}
use mstack_cpp.Options.{
  TcpOption, monostate, sack, nop, mss, timestamp, window_scale, decode_options,
}
use mstack_cpp.Tcb.{Tcb, listen, syn_received, state_eq, Env, enqueue}
use mstack_cpp.Tcb.Output.{out_header, make_and_send_pkt}
use mstack_cpp.Tcb.Output.Packet.{
  Fields, sent, next_packet-IsValid, next_len, next_text, next_packet, after_packet,
  payload-next_packet, make_and_send_pkt_lem, out_header-Fits,
}
use mstack_cpp.Tcb.Handshake.{apply_options, accept_syn, tcp_handle_listen_state}

-- The segment size that a list of options leaves.
abbrev pub last_mss : List TcpOption → ℕ → ℕ
last_mss [] m = m
last_mss (mss value ∷ opts) m = last_mss opts value
last_mss (_ ∷ opts) m = last_mss opts m

-- Options change nothing but the segment size.
pub apply_options_lem :
    {Ring : Type 0} (opts : List TcpOption) (t : Tcb Ring)
    → apply_options opts t ≡ record t { send = record (t.send) { mss = last_mss opts t.send.mss } }
unfolding apply_options
apply_options_lem [] t = refl
apply_options_lem (mss value ∷ opts) t =
    apply_options_lem opts (record t { send = record (t.send) { mss = value } })
apply_options_lem (monostate ∷ opts) t = apply_options_lem opts t
apply_options_lem (sack ∷ opts) t = apply_options_lem opts t
apply_options_lem (nop ∷ opts) t = apply_options_lem opts t
apply_options_lem (timestamp a b ∷ opts) t = apply_options_lem opts t
apply_options_lem (window_scale s ∷ opts) t = apply_options_lem opts t

-- What the answer to a SYN says when it is read.
pub record IsSynAck {Ring : Type 0} (env : Env) (tcph : TcpHeader) (t : Tcb Ring) (pkt : TcpPacket)
    (h : TcpHeader) : Type 0 where
  pub readable : TcpHeader.consume (payload pkt.skb) ≡ ok h
  pub whole : payload pkt.skb ≡ TcpHeader.produce h ++ []
  pub fits : Fits h
  pub reserved : h.reserved ≡ 0
  pub valid : IsValid pkt.skb
  pub room : pkt.skb.head ≡ 34
  pub proto : pkt.proto ≡ 6
  pub local_ep : pkt.local_ep ≡ t.local_ep
  pub remote_ep : pkt.remote_ep ≡ t.remote_ep
  pub syn : h.syn ≡ 1
  pub ack : h.ack ≡ 1
  pub rst : h.rst ≡ 0
  pub seq_no : h.seq_no ≡ env.isn
  pub ack_no : h.ack_no ≡ u32 (tcph.seq_no + 1)
  pub src_port : h.src_port ≡ t.local_ep.addrv4_port
  pub dst_port : h.dst_port ≡ t.remote_ep.addrv4_port

-- The flags of a segment that opens a connection.
pub record IsSyn (tcph : TcpHeader) : Type 0 where
  pub syn : is_set tcph.syn ≡ true
  pub ack : is_set tcph.ack ≡ false
  pub rst : is_set tcph.rst ≡ false

module _ {Ring : Type 0} (C : CircularBuffer Ring) (env : Env) where
  -- The block from which the answer to a SYN is sent.
  abbrev pub syn_block : TcpHeader → List TcpOption → Tcb Ring → Tcb Ring
  syn_block tcph opts t = record t {
    rcv = record (t.rcv) { next = u32 (tcph.seq_no + 1) };
    send = record {
      seq_nr_unack = env.isn;
      seq_nr_next = u32 (env.isn + 1);
      window = tcph.window;
      mss = last_mss opts t.send.mss;
      pq = some (C.create tcph.window);
    };
    next_state = syn_received;
  }

  accept_syn_lem :
      (tcph : TcpHeader) (opts : List TcpOption) (t : Tcb Ring)
      → accept_syn C env tcph opts t ≡ syn_block tcph opts t
  unfolding accept_syn
  accept_syn_lem tcph opts t = rw (apply_options_lem opts t)

  -- An empty queue: the packet carries no text.
  pub none_to_send :
      (tcph : TcpHeader) (opts : List TcpOption) (t : Tcb Ring)
      → next_len C (syn_block tcph opts t) (C.create tcph.window) ≡ 0
  none_to_send tcph opts t = omega (arith, ap length (C.items-create tcph.window))

  abbrev pub syn_ack_block : TcpHeader → List TcpOption → Tcb Ring → Tcb Ring
  syn_ack_block tcph opts t =
      let pq = C.create tcph.window in
      let u = syn_block tcph opts t in enqueue (next_packet C env u pq) (after_packet C u pq)

  pub out_header-IsSynAck :
      (tcph : TcpHeader) (opts : List TcpOption) (t : Tcb Ring)
      → Fields t
      → env.isn < 2 ^ 32
      → IsSynAck env tcph t
          (next_packet C env (syn_block tcph opts t) (C.create tcph.window))
          (out_header C (syn_block tcph opts t) 0)
  unfolding out_header
  out_header-IsSynAck tcph opts t f i =
      let u = syn_block tcph opts t in
      let pq = C.create tcph.window in
      let fits : Fields u = ground arith in
      record {
        readable =
            ap TcpHeader.consume (payload-next_packet C env u pq)
            ∙ consume-produce_header (out_header C u (next_len C u pq)) (next_text C u pq)
                (out_header-Fits C u (next_len C u pq) fits) refl
            ∙ ap (λ n. ok (out_header C u n)) (none_to_send tcph opts t);
        whole =
            payload-next_packet C env u pq
            ∙ ap (λ n. TcpHeader.produce (out_header C u n) ++ next_text C u pq)
                (none_to_send tcph opts t)
            ∙ ap
                (λ (n : ℕ).
                  TcpHeader.produce (out_header C u 0) ++ take n (drop (sent C u pq) (C.items pq)))
                (none_to_send tcph opts t);
        fits = out_header-Fits C u 0 fits;
        reserved = refl;
        valid = (next_packet-IsValid C env u pq).0;
        room = (next_packet-IsValid C env u pq).1;
        proto = refl;
        local_ep = refl;
        remote_ep = refl;
        syn = refl;
        ack = refl;
        rst = refl;
        seq_no = refl;
        ack_no = refl;
        src_port = refl;
        dst_port = refl;
      }

  syn_ack_lem :
      (tcph : TcpHeader) (decoded : List TcpOption) (t : Tcb Ring)
      → make_and_send_pkt C env (accept_syn C env tcph decoded t)
        ≡ ok (syn_ack_block tcph decoded t)
  syn_ack_lem tcph decoded t =
      ap (make_and_send_pkt C env) (accept_syn_lem tcph decoded t)
      ∙ make_and_send_pkt_lem C env (syn_block tcph decoded t) (C.create tcph.window) refl

  accepts :
      (tcph : TcpHeader) (opts : List ℕ) (t : Tcb Ring)
      → state_eq listen t.state ≡ true
      → IsSyn tcph
      → tcp_handle_listen_state C env tcph opts t ≡ (
          decode_options opts >>= λ decoded.
          make_and_send_pkt C env (accept_syn C env tcph decoded t) >>= λ t'. ok (t', true))
  unfolding tcp_handle_listen_state
  accepts tcph opts t l s = rw (l, s.rst, s.ack, s.syn)

  pub listen_lem :
      (tcph : TcpHeader) (opts : List ℕ) (decoded : List TcpOption) (t : Tcb Ring)
      → t.state ≡ listen
      → IsSyn tcph
      → decode_options opts ≡ ok decoded
      → tcp_handle_listen_state C env tcph opts t ≡ ok (syn_ack_block tcph decoded t, true)
  listen_lem tcph opts decoded t l s d =
      accepts tcph opts t (ap (state_eq listen) l) s
      ∙ ap
          (λ r. r >>= λ opts'.
            make_and_send_pkt C env (accept_syn C env tcph opts' t) >>= λ t'. ok (t', true))
          d
      ∙ ap (λ r. r >>= λ t'. ok (t', true)) (syn_ack_lem tcph decoded t)
