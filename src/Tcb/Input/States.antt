-- ===== src/Tcb/Input/States.antt =====
-- Reads and received text change no state.
use mstack_cpp.Base.{
  ℕ, ◌+◌, refl, List, [], ◌∷◌, true, false, not, ltb, ◌==◌, assert, length, inl, inr, Bool,
  Bool-cases, Result, ok, Holds, Holds-after, if◌then◌else◌,
}
use mstack_cpp.Ring.{CircularBuffer}
use mstack_cpp.TcpHeader.{TcpHeader}
use mstack_cpp.Tcb.{Tcb, Reader}
use mstack_cpp.Tcb.Phase.{Stays}
use mstack_cpp.Tcb.Input.{async_read_some, deliver_or_buffer, receive_text, takes_text, text_stage}

module _ {Ring : Type 0} (C : CircularBuffer Ring) where
  pub async_read_some-Stays : (room cb : ℕ) (t : Tcb Ring) → Stays t (async_read_some C room cb t)
  unfolding async_read_some
  async_read_some-Stays room cb t = elim (Bool-cases (length (C.items t.rcv.pq) == 0)) [
    | inl e ↦ rw e (refl, refl)
    | inr e ↦ rw e (refl, refl)
  ]

  deliver_or_buffer-Stays :
      (readers : List Reader) (segment : List ℕ) (t : Tcb Ring)
      → Holds (Stays t) (deliver_or_buffer C readers segment t)
  unfolding deliver_or_buffer
  deliver_or_buffer-Stays [] segment t =
      Holds-after (Stays t)
        (assert (not (ltb (C.capacity t.rcv.pq) (length (C.items t.rcv.pq) + length segment)))) _
        λ u. (refl, refl)
  deliver_or_buffer-Stays (reader ∷ readers) segment t =
      Holds-after (Stays t) (assert (length (C.items t.rcv.pq) == 0)) _ λ u. (refl, refl)

  if-Stays :
      (b : Bool) (m : Result (Tcb Ring)) (t : Tcb Ring)
      → Holds (Stays t) m
      → Holds (Stays t) (if b then m else ok t)
  if-Stays true m t h = h
  if-Stays false m t h = (refl, refl)

  pub text_stage-Stays :
      (tcph : TcpHeader) (segment : List ℕ) (t : Tcb Ring)
      → Holds (Stays t) (text_stage C tcph segment t)
  text_stage-Stays tcph segment t =
      let taken : Holds (Stays t) (receive_text C tcph segment t) = receive_text-Stays in
      unfold text_stage in
      if-Stays (ltb 0 (length segment)) _ t (if-Stays (takes_text t.state) _ t taken)
    where
      receive_text-Stays : Holds (Stays t) (receive_text C tcph segment t)
      receive_text-Stays =
          unfold receive_text in
          if-Stays (not (ltb tcph.seq_no (t.rcv.next + length (C.items t.rcv.pq)))) _ t
            (deliver_or_buffer-Stays t.on_data_receive segment t)
