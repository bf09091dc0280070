-- ===== src/Tcb/Output/Packet.antt =====
-- `make_packet`: it never fails on a block whose send queue exists, and what it sends.
use mstack_cpp.Base.{
  ℕ, ◌+◌, ◌-◌, ◌^◌, ◌<◌, min, ◌≡◌, refl, ◌∙◌, ap, List, ◌++◌, arith, some, ok, u32, sub_u32, take,
  drop, length, length-append, length-take, length-drop, append-nil, drop-all,
}
use mstack_cpp.Endpoint.{TcpPacket}
use mstack_cpp.Skbuff.{Skbuff, fresh, store_head, payload}
use mstack_cpp.Skbuff.Laws.{
  IsValid, length-fresh, payload-store_head, store_head-IsValid, length-payload, skbuff_lem,
}
use mstack_cpp.TcpHeader.{TcpHeader, fixed_size}
use mstack_cpp.TcpHeader
use mstack_cpp.TcpHeader.Roundtrip.{Fits, length-produce}
use mstack_cpp.Ring.{CircularBuffer}
use mstack_cpp.Tcb.{Tcb, Env, enqueue}
use mstack_cpp.Tcb.Output.{
  additional_room, app_data_unacknowleged, app_data_to_send_left, out_header, make_packet,
  make_and_send_pkt,
}

-- The buffer that a packet is built in: `room` bytes of which the first 34 are headroom.
abbrev pub blank : Env → ℕ → Skbuff
blank env room = record {
  buf = fresh env.junk room;
  capacity = room;
  head = additional_room;
  tail = room;
}

-- A buffer filled from its head to its end holds just the bytes written.
pub payload_filled :
    (env : Env) (bs : List ℕ) (room : ℕ)
    → room ≡ additional_room + length bs
    → payload (store_head bs (blank env room)) ≡ bs
payload_filled env bs room h =
    let v : IsValid (blank env room) = record {
      sized = length-fresh env.junk room;
      ordered = omega arith;
      inside = omega arith;
    } in
    payload-store_head bs (blank env room) v (omega arith)
    ∙ ap (◌++◌ bs) (
        drop-all (length bs) (payload (blank env room))
          (omega (arith, length-payload (blank env room) v)))
    ∙ append-nil bs

-- Numbers that fit the fields of a header.
pub record Fields {Ring : Type 0} (t : Tcb Ring) : Type 0 where
  pub local_port : t.local_ep.addrv4_port < 2 ^ 16
  pub remote_port : t.remote_ep.addrv4_port < 2 ^ 16
  pub seq_nr_unack : t.send.seq_nr_unack < 2 ^ 32
  pub seq_nr_next : t.send.seq_nr_next < 2 ^ 32
  pub next : t.rcv.next < 2 ^ 32
  pub window : t.rcv.window < 2 ^ 16

module _ {Ring : Type 0} (C : CircularBuffer Ring) where
  -- How many bytes of the queue were sent already, how many the next packet takes, and which.
  abbrev pub sent : Tcb Ring → Ring → ℕ
  sent t pq = min (length (C.items pq)) (sub_u32 t.send.seq_nr_next t.send.seq_nr_unack)

  abbrev pub next_len : Tcb Ring → Ring → ℕ
  next_len t pq = min t.send.mss (length (C.items pq) - sent t pq)

  abbrev pub next_text : Tcb Ring → Ring → List ℕ
  next_text t pq = take (next_len t pq) (drop (sent t pq) (C.items pq))

  -- The block after a packet, and the packet.
  abbrev pub after_packet : Tcb Ring → Ring → Tcb Ring
  after_packet t pq = record t {
    send = record (t.send) { seq_nr_next = u32 (t.send.seq_nr_next + next_len t pq) };
    state = t.next_state;
  }

  abbrev pub next_packet : Env → Tcb Ring → Ring → TcpPacket
  next_packet env t pq = record {
    proto = 6;
    remote_ep = t.remote_ep;
    local_ep = t.local_ep;
    skb =
        store_head (TcpHeader.produce (out_header C t (next_len t pq)) ++ next_text t pq)
          (blank env (additional_room + fixed_size + next_len t pq));
  }

  pub make_packet_lem :
      (env : Env) (t : Tcb Ring) (pq : Ring)
      → t.send.pq ≡ some pq
      → make_packet C env t ≡ ok (after_packet t pq, next_packet env t pq)
  unfolding make_packet app_data_to_send_left app_data_unacknowleged
  make_packet_lem env t pq h =
      let room = additional_room + fixed_size + next_len t pq in
      ground (arith, skbuff_lem (fresh env.junk room) room additional_room (omega arith))

  pub length-next_text : (t : Tcb Ring) (pq : Ring) → length (next_text t pq) ≡ next_len t pq
  length-next_text t pq = omega (
    arith,
    length-take (next_len t pq) (drop (sent t pq) (C.items pq)),
    length-drop (sent t pq) (C.items pq),
  )

  pub next_packet-IsValid :
      (env : Env) (t : Tcb Ring) (pq : Ring)
      → IsValid (next_packet env t pq).skb × ((next_packet env t pq).skb.head ≡ additional_room)
  unfolding store_head
  next_packet-IsValid env t pq =
      let bytes = TcpHeader.produce (out_header C t (next_len t pq)) ++ next_text t pq in
      let room = additional_room + fixed_size + next_len t pq in
      let v : IsValid (blank env room) = record {
        sized = length-fresh env.junk room;
        ordered = omega arith;
        inside = omega arith;
      } in
      (
        store_head-IsValid bytes (blank env room) v (
            omega (
              arith,
              length-append (TcpHeader.produce (out_header C t (next_len t pq))) (next_text t pq),
              length-produce (out_header C t (next_len t pq)),
              length-next_text t pq,
            )),
        refl,
      )

  pub out_header-Fits : (t : Tcb Ring) (n : ℕ) → Fields t → Fits (out_header C t n)
  unfolding out_header
  out_header-Fits t n f = ground arith

  -- The payload of the packet is the header and then the text, byte for byte.
  pub payload-next_packet :
      (env : Env) (t : Tcb Ring) (pq : Ring)
      → payload (next_packet env t pq).skb
        ≡ TcpHeader.produce (out_header C t (next_len t pq)) ++ next_text t pq
  payload-next_packet env t pq =
      payload_filled env _ (additional_room + fixed_size + next_len t pq) (
        omega (
          arith,
          length-append (TcpHeader.produce (out_header C t (next_len t pq))) (next_text t pq),
          length-produce (out_header C t (next_len t pq)),
          length-next_text t pq,
        ))

  pub make_and_send_pkt_lem :
      (env : Env) (t : Tcb Ring) (pq : Ring)
      → t.send.pq ≡ some pq
      → make_and_send_pkt C env t ≡ ok (enqueue (next_packet env t pq) (after_packet t pq))
  unfolding make_and_send_pkt
  make_and_send_pkt_lem env t pq h = rw (make_packet_lem env t pq h)
