-- ===== src/Program/Echo/Sends.antt =====
-- What the block sends, and what is written into its queue.
use mstack_cpp.Base.{
  ℕ, suc, ◌+◌, ◌≤◌, ◌≡◌, refl, ◌∙◌, ap, sym, List, [], ◌∷◌, ◌++◌, append_assoc, append-nil, arith,
  Holds, drop, drop-append_under, length, length-append, sub_u32, u32, Bool-cases, inl, inr, ltb,
}
use mstack_cpp.Ring.{CircularBuffer}
use mstack_cpp.Tcb.{Tcb, Env, Task, read_done, write_done, send_pending, notify_connected, enqueue}
use mstack_cpp.Tcb.Input.Stream.{stream, delivered, IsWaiting}
use mstack_cpp.Tcb.Output.{async_write, make_and_send_pkt, run_send_pending}
use mstack_cpp.Tcb.Output.Packet.{sent, next_len, after_packet, next_packet, make_and_send_pkt_lem}
use mstack_cpp.Tcb.Output.Pending.{texts, texts-round, run-enters}
use mstack_cpp.Tcb.Output.Writes.{
  send_loop-Holds, write_queued, async_write_lem, async_write-overflow,
}
use mstack_cpp.Program.Echo.{outstanding, HasQueue, Carries, IsEcho}

pub delivered-both : (ts us : List Task) → delivered (ts ++ us) ≡ delivered ts ++ delivered us
delivered-both [] us = refl
delivered-both (read_done cb bytes ∷ ts) us =
    ap (λ ys. bytes ++ ys) (delivered-both ts us)
    ∙ sym (append_assoc bytes (delivered ts) (delivered us))
delivered-both (write_done cb size ∷ ts) us = delivered-both ts us
delivered-both (send_pending ∷ ts) us = delivered-both ts us
delivered-both (notify_connected ∷ ts) us = delivered-both ts us

pub outstanding-both :
    (ts us : List Task) → outstanding (ts ++ us) ≡ outstanding ts + outstanding us
outstanding-both [] us = omega arith
outstanding-both (read_done cb bytes ∷ ts) us = omega (arith, outstanding-both ts us)
outstanding-both (write_done cb size ∷ ts) us = omega (arith, outstanding-both ts us)
outstanding-both (send_pending ∷ ts) us = outstanding-both ts us
outstanding-both (notify_connected ∷ ts) us = outstanding-both ts us

module _ {Ring : Type 0} (C : CircularBuffer Ring) (env : Env) where
  -- The block after its next packet.
  abbrev pub packet_sent : Tcb Ring → Ring → Tcb Ring
  packet_sent t pq = enqueue (next_packet C env t pq) (after_packet C t pq)

  moves :
      (t : Tcb Ring) (pq : Ring)
      → HasQueue C t pq
      → sub_u32 (u32 (t.send.seq_nr_next + next_len C t pq)) t.send.seq_nr_unack
        ≡ sub_u32 t.send.seq_nr_next t.send.seq_nr_unack + next_len C t pq
  moves t pq q = omega (arith, q.in_flight, q.unack, q.small)

  packet-HasQueue : (t : Tcb Ring) (pq : Ring) → HasQueue C t pq → HasQueue C (packet_sent t pq) pq
  packet-HasQueue t pq q = record {
    queue = q.queue;
    in_flight = omega (arith, moves t pq q, q.in_flight);
    unack = q.unack;
    small = q.small;
    capacity = q.capacity;
  }

  packet-Carries :
      (heard rest : List ℕ) (t : Tcb Ring) (pq : Ring)
      → HasQueue C t pq
      → Carries C heard rest t pq
      → Carries C heard rest (packet_sent t pq) pq
  packet-Carries heard rest t pq q c =
      let t1 = packet_sent t pq in
      let all : sent C t1 pq ≡ sent C t pq + next_len C t pq =
        omega (arith, moves t pq q, q.in_flight) in
      ap (λ k. texts t1.out ++ (drop k (C.items pq) ++ rest)) all
      ∙ sym (append_assoc (texts t1.out) (drop (sent C t pq + next_len C t pq) (C.items pq)) rest)
      ∙ ap (λ ys. ys ++ rest) (texts-round C env t pq)
      ∙ append_assoc (texts t.out) (drop (sent C t pq) (C.items pq)) rest
      ∙ c

  packet-IsEcho :
      (heard : List ℕ) (t : Tcb Ring) (e : IsEcho C heard t) → IsEcho C heard (packet_sent t e.pq)
  packet-IsEcho heard t e = record {
    pq = e.pq;
    has_queue = packet-HasQueue t e.pq e.has_queue;
    carries = packet-Carries heard (stream C t) t e.pq e.has_queue e.carries;
    one = e.one;
    waiting = e.waiting;
  }

  pub make_and_send_pkt-IsEcho :
      (heard : List ℕ) (t : Tcb Ring)
      → IsEcho C heard t
      → Holds (IsEcho C heard) (make_and_send_pkt C env t)
  make_and_send_pkt-IsEcho heard t e =
      rw (make_and_send_pkt_lem C env t e.pq e.has_queue.queue) (packet-IsEcho heard t e)

  pub run_send_pending-IsEcho :
      (heard : List ℕ) (t : Tcb Ring)
      → IsEcho C heard t
      → Holds (IsEcho C heard) (run_send_pending C env t)
  run_send_pending-IsEcho heard t e = rw (run-enters C env t e.pq e.has_queue.queue) (
      send_loop-Holds C env (IsEcho C heard) (make_and_send_pkt-IsEcho heard)
        (suc (length (C.items e.pq))) t e)

module _ {Ring : Type 0} (C : CircularBuffer Ring) where
  write-HasQueue :
      (bytes : List ℕ) (cb : ℕ) (t : Tcb Ring) (pq : Ring)
      → HasQueue C t pq
      → length (C.items pq) + length bytes ≤ C.capacity pq
      → HasQueue C (write_queued C bytes cb t pq) (C.insert_end bytes pq)
  write-HasQueue bytes cb t pq q fits =
      let items = C.items-insert_end bytes pq fits in
      let long : length (C.items (C.insert_end bytes pq)) ≡ length (C.items pq) + length bytes =
        ap length items ∙ length-append (C.items pq) bytes in
      record {
        queue = refl;
        in_flight = omega (arith, long, q.in_flight);
        unack = q.unack;
        small = omega (arith, long, q.capacity);
        capacity = omega (arith, C.capacity-insert_end bytes pq, q.capacity);
      }

  -- What was to be written is in the queue.
  write-Carries :
      (heard bytes rest : List ℕ) (cb : ℕ) (t : Tcb Ring) (pq : Ring)
      → HasQueue C t pq
      → length (C.items pq) + length bytes ≤ C.capacity pq
      → Carries C heard (bytes ++ rest) t pq
      → Carries C heard rest (write_queued C bytes cb t pq) (C.insert_end bytes pq)
  write-Carries heard bytes rest cb t pq q fits c =
      let items = C.items-insert_end bytes pq fits in
      let t1 = write_queued C bytes cb t pq in
      let same : sent C t1 (C.insert_end bytes pq) ≡ sent C t pq =
        omega (arith, ap length items, length-append (C.items pq) bytes, q.in_flight) in
      ap (λ k. texts t.out ++ (drop k (C.items (C.insert_end bytes pq)) ++ rest)) same
      ∙ ap (λ ys. texts t.out ++ (drop (sent C t pq) ys ++ rest)) items
      ∙ ap (λ ys. texts t.out ++ (ys ++ rest))
          (drop-append_under (sent C t pq) (C.items pq) bytes (omega arith))
      ∙ ap (λ ys. texts t.out ++ ys) (append_assoc (drop (sent C t pq) (C.items pq)) bytes rest)
      ∙ c

  -- A write that is given the bytes of the read that has ended.
  pub async_write-IsEcho :
      (heard bytes : List ℕ) (cb : ℕ) (t : Tcb Ring) (pq : Ring)
      → HasQueue C t pq
      → Carries C heard (bytes ++ stream C t) t pq
      → outstanding t.posted + length t.on_data_receive ≡ 0
      → IsWaiting C t
      → Holds (IsEcho C heard) (async_write C bytes cb t)
  async_write-IsEcho heard bytes cb t pq q c none_left w =
      elim (Bool-cases (ltb (C.capacity pq) (length (C.items pq) + length bytes))) [
        | inl over ↦ rw (async_write-overflow C bytes cb t pq q.queue (ground arith)) tt
        | inr room ↦
            let fits : length (C.items pq) + length bytes ≤ C.capacity pq = ground arith in
            let tasks = send_pending ∷ write_done cb (length bytes) ∷ [] in
            let posted : (write_queued C bytes cb t pq).posted ≡ t.posted ++ tasks =
              append_assoc t.posted (send_pending ∷ []) (write_done cb (length bytes) ∷ []) in
            let quiet : delivered (write_queued C bytes cb t pq).posted ≡ delivered t.posted =
              ap delivered posted
              ∙ delivered-both t.posted tasks
              ∙ append-nil (delivered t.posted) in
            rw (async_write_lem C bytes cb t pq q.queue fits) (record {
              pq = C.insert_end bytes pq;
              has_queue = write-HasQueue bytes cb t pq q fits;
              carries =
                  ap
                    (λ ds.
                      texts t.out
                      ++ (drop (sent C (write_queued C bytes cb t pq) (C.insert_end bytes pq))
                            (C.items (C.insert_end bytes pq))
                          ++ (ds ++ C.items t.rcv.pq)))
                    quiet
                  ∙ write-Carries heard bytes (stream C t) cb t pq q fits c;
              one =
                  omega (arith, ap outstanding posted, outstanding-both t.posted tasks, none_left);
              waiting = w;
            })
      ]
