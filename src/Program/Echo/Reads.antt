-- ===== src/Program/Echo/Reads.antt =====
-- What the block reads and receives.
use mstack_cpp.Base.{
  ℕ, ◌+◌, ◌^◌, ◌≤◌, ◌<◌, sub_u32, append-nil, length-append, ◌≡◌, refl, ◌∙◌, ap, sym, List, [], ◌∷◌,
  ◌++◌, append_assoc, arith, ok, length, Bool-cases, inl, inr, ◌==◌, drop, min, take,
}
use mathlib.Core.Path.{subst}
use mstack_cpp.Ring.{CircularBuffer}
use mstack_cpp.TcpHeader.{TcpHeader}
use mstack_cpp.Tcb.{Tcb, Send, Reader, read_done}
use mstack_cpp.Tcb.Input.{receive_text, async_read_some}
use mstack_cpp.Tcb.Input.Stream.{stream, IsWaiting, async_read_some-stream}
use mstack_cpp.Tcb.Input.Taken.{text_taken, receive_text_lem}
use mstack_cpp.Tcb.Output.Pending.{texts}
use mstack_cpp.Tcb.Output.Packet.{sent}
use mstack_cpp.Program.Echo.{outstanding, HasQueue, Carries, IsEcho}
use mstack_cpp.Program.Echo.Sends.{outstanding-both}

module _ {Ring : Type 0} (C : CircularBuffer Ring) where
  -- What depends on the sending half only.
  pub keeps_queue :
      (t t1 : Tcb Ring) (pq : Ring) → t1.send ≡ t.send → HasQueue C t pq → HasQueue C t1 pq
  keeps_queue t t1 pq s q = record {
    queue = ap (λ (x : Send Ring). x.pq) s ∙ q.queue;
    in_flight =
        subst (λ (x : Send Ring). sub_u32 x.seq_nr_next x.seq_nr_unack ≤ length (C.items pq))
          (sym s) q.in_flight;
    unack = subst (λ (x : Send Ring). x.seq_nr_unack < 2 ^ 32) (sym s) q.unack;
    small = q.small;
    capacity = q.capacity;
  }

  pub keeps_carried :
      (heard more : List ℕ) (t t1 : Tcb Ring) (pq : Ring)
      → t1.send ≡ t.send
      → t1.out ≡ t.out
      → stream C t1 ≡ stream C t ++ more
      → Carries C heard (stream C t) t pq
      → Carries C (heard ++ more) (stream C t1) t1 pq
  keeps_carried heard more t t1 pq s o r c =
      let left = drop (sent C t pq) (C.items pq) in
      ap (λ ps. texts ps ++ (drop (sent C t1 pq) (C.items pq) ++ stream C t1)) o
      ∙ ap
          (λ (x : Send Ring).
            texts t.out
            ++ (drop (min (length (C.items pq)) (sub_u32 x.seq_nr_next x.seq_nr_unack)) (C.items pq)
                ++ stream C t1))
          s
      ∙ ap (λ ys. texts t.out ++ (left ++ ys)) r
      ∙ ap (λ ys. texts t.out ++ ys) (sym (append_assoc left (stream C t) more))
      ∙ sym (append_assoc (texts t.out) (left ++ stream C t) more)
      ∙ ap (λ ys. ys ++ more) c

  -- A read touches neither the sending half nor the packets, and is outstanding.
  reads :
      (room cb : ℕ) (t : Tcb Ring)
      → ((async_read_some C room cb t).send ≡ t.send)
        × ((async_read_some C room cb t).out ≡ t.out)
        × (outstanding (async_read_some C room cb t).posted
              + length (async_read_some C room cb t).on_data_receive
            ≡ outstanding t.posted + length t.on_data_receive + 1)
  unfolding async_read_some
  reads room cb t = elim (Bool-cases (length (C.items t.rcv.pq) == 0)) [
    | inl empty ↦ rw empty (
      refl,
      refl,
      omega (arith, length-append t.on_data_receive (record { room = room; cb = cb } ∷ [])),
    )
    | inr more ↦
        let n = min (length (C.items t.rcv.pq)) room in
        rw more (
          refl,
          refl,
          omega (arith, outstanding-both t.posted (read_done cb (take n (C.items t.rcv.pq)) ∷ [])),
        )
  ]

  -- The next read, where none is outstanding.
  pub async_read_some-IsEcho :
      (heard : List ℕ) (room cb : ℕ) (t : Tcb Ring) (pq : Ring)
      → HasQueue C t pq
      → Carries C heard (stream C t) t pq
      → outstanding t.posted + length t.on_data_receive ≡ 0
      → IsWaiting C t
      → IsEcho C heard (async_read_some C room cb t)
  async_read_some-IsEcho heard room cb t pq q c none_left w =
      let t1 = async_read_some C room cb t in
      let (same_send, same_out, more) = reads room cb t in
      let (same, to, waits) = async_read_some-stream C room cb t w in
      record {
        pq = pq;
        has_queue = keeps_queue t t1 pq same_send q;
        carries =
            subst (λ h. Carries C h (stream C t1) t1 pq) (append-nil heard)
              (keeps_carried heard [] t t1 pq same_send same_out
                (same ∙ sym (append-nil (stream C t))) c);
        one = omega (arith, more, none_left);
        waiting = waits;
      }

  one_reader :
      (readers : List Reader) (n : ℕ) (segment : List ℕ) (t : Tcb Ring)
      → n ≡ outstanding t.posted
      → n + length readers ≡ 1
      → t.on_data_receive ≡ readers
      → (outstanding (text_taken C readers segment t).posted
            + length (text_taken C readers segment t).on_data_receive
          ≡ 1)
        × IsWaiting C (text_taken C readers segment t)
        × ((text_taken C readers segment t).send ≡ t.send)
        × ((text_taken C readers segment t).out ≡ t.out)
  one_reader [] n segment t p one r = (omega (arith, ap length r), inl r, refl, refl)
  one_reader (reader ∷ []) n segment t p one r =
      let k = min (length segment) reader.room in
      (
        omega (arith, outstanding-both t.posted (read_done reader.cb (take k segment) ∷ [])),
        inl refl,
        refl,
        refl,
      )
  one_reader (reader ∷ other ∷ readers) n segment t p one r = absurd (omega arith)

  -- Text that is taken joins what was heard.
  pub receive_text-IsEcho :
      (heard : List ℕ) (tcph : TcpHeader) (segment : List ℕ) (t : Tcb Ring)
      → IsEcho C heard t
      → length (C.items t.rcv.pq) + length segment ≤ C.capacity t.rcv.pq
      → t.rcv.next + length (C.items t.rcv.pq) ≤ tcph.seq_no
      → (t' : Tcb Ring) × (receive_text C tcph segment t ≡ ok t') × IsEcho C (heard ++ segment) t'
  receive_text-IsEcho heard tcph segment t e fits ahead =
      let t1 = text_taken C t.on_data_receive segment t in
      let (runs, grown) = receive_text_lem C tcph segment t e.waiting fits ahead in
      let (one, waits, same_send, same_out) =
        one_reader t.on_data_receive (outstanding t.posted) segment t refl e.one refl in
      (
        t1,
        runs,
        record {
          pq = e.pq;
          has_queue = keeps_queue t t1 e.pq same_send e.has_queue;
          carries = keeps_carried heard segment t t1 e.pq same_send same_out grown e.carries;
          one = one;
          waiting = waits;
        },
      )
