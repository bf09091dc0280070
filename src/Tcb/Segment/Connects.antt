-- ===== src/Tcb/Segment/Connects.antt =====
-- The SYN of `start_connecting`, read by `process`.
use mstack_cpp.Base.{
  ℕ, ◌+◌, ◌^◌, ◌<◌, ◌≡◌, refl, ◌∙◌, ap, sym, List, [], ◌∷◌, ◌++◌, arith, ok, u32, length,
  length-append, append-nil,
}
use mstack_cpp.Endpoint.{TcpPacket}
use mstack_cpp.Skbuff.Laws.{store_head-IsValid}
use mstack_cpp.TcpHeader.{TcpHeader}
use mstack_cpp.TcpHeader
use mstack_cpp.TcpHeader.Roundtrip.{length-produce}
use mstack_cpp.Options.{mss, decode_options}
use mstack_cpp.Options.Roundtrip.{decode-encode}
use mstack_cpp.Tcb.{Tcb, syn_sent, established, Env}
use mstack_cpp.Tcb.Output.Packet.{Fields, blank, payload_filled}
use mstack_cpp.Tcb.Handshake.{start_connecting}
use mstack_cpp.Tcb.Handshake.Active.{
  syn_options, syn_room, syn_of, syn_packet, blank-IsValid, start_connecting_lem, syn-Fits,
}
use mstack_cpp.Tcb.Segment.{parse}
use mstack_cpp.Tcb.Segment.Parse.{parse-produce}

-- The block after `start_connecting`, and what its packet says when it is read: a SYN with the
-- initial sequence number and the segment size 1446, and no text.
pub record Connects {Ring : Type 0} (env : Env) (t t' : Tcb Ring) : Type 0 where
  pub state : t'.state ≡ syn_sent
  pub next_state : t'.next_state ≡ established
  pub seq_nr_unack : t'.send.seq_nr_unack ≡ env.isn
  pub seq_nr_next : t'.send.seq_nr_next ≡ u32 (env.isn + 1)
  pub packet : TcpPacket
  pub header : TcpHeader
  pub opts : List ℕ
  pub out : t'.out ≡ t.out ++ packet ∷ []
  pub readable : parse packet ≡ ok (header, opts, [])
  pub decoded : decode_options opts ≡ ok (mss 1446 ∷ [])
  pub syn : header.syn ≡ 1
  pub ack : header.ack ≡ 0
  pub rst : header.rst ≡ 0
  pub seq_no : header.seq_no ≡ env.isn
  pub src_port : header.src_port ≡ t.local_ep.addrv4_port
  pub dst_port : header.dst_port ≡ t.remote_ep.addrv4_port

module _ {Ring : Type 0} (env : Env) (t : Tcb Ring) where
  pub syn-readable :
      (bs : List ℕ)
      → length bs ≡ 8
      → Fields t
      → env.isn < 2 ^ 32
      → parse (syn_packet env t bs) ≡ ok (syn_of env t, bs, [])
  syn-readable bs n f i =
      let h = syn_of env t in
      let text = TcpHeader.produce h ++ bs in
      let size : length text ≡ 28 =
        omega (arith, length-append (TcpHeader.produce h) bs, length-produce h, n) in
      parse-produce (syn_packet env t bs) h bs []
        (store_head-IsValid text (blank env syn_room) (blank-IsValid env t 28 refl)
          (omega (arith, size)))
        (payload_filled env text syn_room (omega (arith, size))
          ∙ ap (λ bs. TcpHeader.produce h ++ bs) (sym (append-nil bs)))
        (syn-Fits env t f i) refl (omega (arith, n))

  -- Where the numbers fit the fields of a header, `start_connecting` returns: the block is in
  -- SYN-SENT with ESTABLISHED to follow and the numbers of `env.isn`, and it has sent one packet
  -- that `process` reads as a SYN without ACK and RST, with no text, whose options decode to the
  -- segment size 1446.
  pub start_connecting-Connects :
      Fields t
      → env.isn < 2 ^ 32
      → (t' : Tcb Ring) × (start_connecting env t ≡ ok t') × Connects env t t'
  start_connecting-Connects f i =
      let (bs, e, n, d) = decode-encode syn_options 8 (omega arith, tt) (omega arith) in
      (
        _,
        start_connecting_lem env t bs e,
        record {
          state = refl;
          next_state = refl;
          seq_nr_unack = refl;
          seq_nr_next = refl;
          packet = syn_packet env t bs;
          header = syn_of env t;
          opts = bs;
          out = refl;
          readable = syn-readable bs n f i;
          decoded = d;
          syn = refl;
          ack = refl;
          rst = refl;
          seq_no = refl;
          src_port = refl;
          dst_port = refl;
        },
      )
