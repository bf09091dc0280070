-- ===== src/Tcb/Segment/Opens.antt =====
-- A SYN that reaches a block in LISTEN, through the whole of `process`.
use mstack_cpp.Base.{ℕ, ◌+◌, ◌^◌, ◌<◌, ◌≡◌, refl, ap, List, [], ◌∷◌, ◌++◌, arith, some, ok, u32}
use mstack_cpp.Endpoint.{TcpPacket}
use mstack_cpp.Ring.{CircularBuffer}
use mstack_cpp.TcpHeader.{TcpHeader}
use mstack_cpp.Options.{TcpOption, decode_options}
use mstack_cpp.Tcb.{Tcb, closed, listen, syn_received, state_eq, Env}
use mstack_cpp.Tcb.Output.{out_header}
use mstack_cpp.Tcb.Output.Packet.{Fields, next_packet}
use mstack_cpp.Tcb.Handshake.Opening.{
  IsSyn, IsSynAck, syn_block, syn_ack_block, listen_lem, none_to_send, out_header-IsSynAck,
}
use mstack_cpp.Tcb.Segment.{parse, process_segment, process}

module _ {Ring : Type 0} (C : CircularBuffer Ring) (env : Env) where
  -- What a SYN leaves of a block in LISTEN: its numbers, and one packet that reads as a SYN-ACK.
  pub record Opened (tcph : TcpHeader) (t t' : Tcb Ring) : Type 0 where
    pub state : t'.state ≡ syn_received
    pub seq_nr_unack : t'.send.seq_nr_unack ≡ env.isn
    pub seq_nr_next : t'.send.seq_nr_next ≡ u32 (env.isn + 1)
    pub next : t'.rcv.next ≡ u32 (tcph.seq_no + 1)
    pub pq : t'.send.pq ≡ some (C.create tcph.window)
    pub answer :
        (pkt : TcpPacket) × (h : TcpHeader) × (t'.out ≡ t.out ++ pkt ∷ [])
        × IsSynAck env tcph t pkt h

  process_segment-listen :
      (tcph : TcpHeader) (opts segment : List ℕ) (decoded : List TcpOption) (t : Tcb Ring)
      → t.state ≡ listen
      → IsSyn tcph
      → decode_options opts ≡ ok decoded
      → process_segment C env tcph opts segment t ≡ ok (syn_ack_block C env tcph decoded t)
  unfolding process_segment
  process_segment-listen tcph opts segment decoded t l s d = rw (
    ap (λ x. state_eq x closed) l,
    ap (λ x. state_eq x listen) l,
    listen_lem C env tcph opts decoded t l s d,
  )

  -- A packet with readable header and options that is a SYN without ACK and RST makes `process`
  -- of a block in LISTEN return, where the numbers fit the fields of a header: the block is in
  -- SYN-RECEIVED with the numbers of the SYN and of `env.isn`, and has sent one packet that reads
  -- as a SYN-ACK.
  pub process-listen :
      (pkt_in : TcpPacket) (tcph : TcpHeader) (opts segment : List ℕ) (decoded : List TcpOption)
      (t : Tcb Ring)
      → parse pkt_in ≡ ok (tcph, opts, segment)
      → decode_options opts ≡ ok decoded
      → t.state ≡ listen
      → IsSyn tcph
      → Fields t
      → env.isn < 2 ^ 32
      → (t' : Tcb Ring) × (process C env pkt_in t ≡ ok t') × Opened tcph t t'
  unfolding process
  process-listen pkt_in tcph opts segment decoded t p d l s f i =
      let u = syn_block C env tcph decoded t in
      let pq = C.create tcph.window in
      (
        syn_ack_block C env tcph decoded t,
        rw (p, process_segment-listen tcph opts segment decoded t l s d),
        record {
          state = refl;
          seq_nr_unack = refl;
          seq_nr_next = omega (arith, none_to_send C env tcph decoded t);
          next = refl;
          pq = refl;
          answer = (
            next_packet C env u pq,
            out_header C u 0,
            refl,
            out_header-IsSynAck C env tcph decoded t f i,
          );
        },
      )
