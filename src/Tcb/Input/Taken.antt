-- ===== src/Tcb/Input/Taken.antt =====
-- The block after the text of a segment: who reads, and what is posted.
use mstack_cpp.Base.{
  ℕ, ◌+◌, ◌-◌, ◌≤◌, ◌≡◌, ◌∙◌, sym, ap, ◌⊎◌, inl, inr, List, [], ◌∷◌, ◌++◌, arith, ok, length,
  ok_injective,
}
use mstack_cpp.Ring.{CircularBuffer}
use mstack_cpp.TcpHeader.{TcpHeader}
use mstack_cpp.Tcb.{Tcb, Reader}
use mstack_cpp.Tcb.Input.{buffer, deliver_or_buffer, receive_text}
use mstack_cpp.Tcb.Input.Stream.{
  fill, length-resize, stream, IsWaiting, after_deliver, deliver_lem, receive_text-enters,
  receive_text-Takes,
}

module _ {Ring : Type 0} (C : CircularBuffer Ring) where
  abbrev pub after_buffer : List ℕ → Tcb Ring → Tcb Ring
  after_buffer segment t =
      let pq = C.resize (length (C.items t.rcv.pq) + length segment) t.rcv.pq in
      record t {
        rcv = record (t.rcv) {
          pq = C.assign_from (length (C.items pq) - length segment) segment pq;
        };
      }

  pub items-after_buffer :
      (segment : List ℕ) (t : Tcb Ring)
      → length (C.items t.rcv.pq) + length segment ≤ C.capacity t.rcv.pq
      → C.items (after_buffer segment t).rcv.pq ≡ C.items t.rcv.pq ++ segment
  items-after_buffer segment t fits =
      let size = length (C.items t.rcv.pq) in
      let pq = C.resize (size + length segment) t.rcv.pq in
      let first = length (C.items pq) - length segment in
      let at_end : first ≡ size =
        omega (arith, length-resize C (size + length segment) t.rcv.pq (omega arith)) in
      fill C first (size + length segment) segment t.rcv.pq at_end (omega (arith, at_end))

  -- The segment goes to the first of the reads that wait, or into the buffer.
  abbrev pub text_taken : List Reader → List ℕ → Tcb Ring → Tcb Ring
  text_taken [] segment t = after_buffer segment t
  text_taken (reader ∷ readers) segment t = after_deliver C reader readers segment t

  pub buffer_lem :
      (segment : List ℕ) (t : Tcb Ring)
      → length (C.items t.rcv.pq) + length segment ≤ C.capacity t.rcv.pq
      → buffer C segment t ≡ ok (after_buffer segment t)
  unfolding buffer
  buffer_lem segment t fits = ground arith

  deliver_or_buffer_lem :
      (readers : List Reader) (segment : List ℕ) (t : Tcb Ring)
      → (readers ≡ []) ⊎ (C.items t.rcv.pq ≡ [])
      → length (C.items t.rcv.pq) + length segment ≤ C.capacity t.rcv.pq
      → deliver_or_buffer C readers segment t ≡ ok (text_taken readers segment t)
  unfolding deliver_or_buffer
  deliver_or_buffer_lem [] segment t w fits = buffer_lem segment t fits
  deliver_or_buffer_lem (reader ∷ readers) segment t (inl no_reader) fits = cc
  deliver_or_buffer_lem (reader ∷ readers) segment t (inr empty) fits =
      deliver_lem C reader readers segment t empty

  pub receive_text_lem :
      (tcph : TcpHeader) (segment : List ℕ) (t : Tcb Ring)
      → IsWaiting C t
      → length (C.items t.rcv.pq) + length segment ≤ C.capacity t.rcv.pq
      → t.rcv.next + length (C.items t.rcv.pq) ≤ tcph.seq_no
      → (receive_text C tcph segment t ≡ ok (text_taken t.on_data_receive segment t))
        × (stream C (text_taken t.on_data_receive segment t) ≡ stream C t ++ segment)
  receive_text_lem tcph segment t w fits ahead =
      let runs : receive_text C tcph segment t ≡ ok (text_taken t.on_data_receive segment t) =
        receive_text-enters C tcph segment t ahead
        ∙ deliver_or_buffer_lem t.on_data_receive segment t w fits in
      let (t', e, takes) = receive_text-Takes C tcph segment t w fits ahead in
      (runs, ap (stream C) (ok_injective (sym runs ∙ e)) ∙ takes.0)
