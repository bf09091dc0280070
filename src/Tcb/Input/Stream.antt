-- ===== src/Tcb/Input/Stream.antt =====
-- Received text as one stream: what was handed to the application and what is buffered for it.
use mstack_cpp.Base.{
  ℕ, ◌+◌, ◌-◌, ◌≤◌, min, ◌≡◌, refl, ◌∙◌, ap, sym, ◌⊎◌, inl, inr, List, [], ◌∷◌, ◌++◌, arith, ok,
  false, ltb, ◌==◌, Bool-cases, u32, take, drop, replicate, length, append_assoc, append-nil,
  length-append, nil-of-length, length-drop, length-replicate, take-all, drop-all, take-append,
  take-append-drop,
}
use mstack_cpp.Ring.{CircularBuffer}
use mstack_cpp.TcpHeader.{TcpHeader}
use mstack_cpp.Tcb.{Tcb, Reader, Task, read_done, write_done, send_pending, notify_connected, post}
use mstack_cpp.Tcb.Input.{async_read_some, deliver, buffer, deliver_or_buffer, receive_text}

-- The bytes that posted tasks hand over, oldest first.
abbrev pub delivered : List Task → List ℕ
delivered [] = []
delivered (read_done cb bytes ∷ tasks) = bytes ++ delivered tasks
delivered (write_done cb size ∷ tasks) = delivered tasks
delivered (send_pending ∷ tasks) = delivered tasks
delivered (notify_connected ∷ tasks) = delivered tasks

delivered-append :
    (ts : List Task) (cb : ℕ) (bytes : List ℕ)
    → delivered (ts ++ read_done cb bytes ∷ []) ≡ delivered ts ++ bytes
delivered-append [] cb bytes = append-nil bytes
delivered-append (read_done c bs ∷ ts) cb bytes =
    ap (◌++◌ bs) (delivered-append ts cb bytes) ∙ sym (append_assoc bs (delivered ts) bytes)
delivered-append (write_done c size ∷ ts) cb bytes = delivered-append ts cb bytes
delivered-append (send_pending ∷ ts) cb bytes = delivered-append ts cb bytes
delivered-append (notify_connected ∷ ts) cb bytes = delivered-append ts cb bytes

module _ {Ring : Type 0} (C : CircularBuffer Ring) where
  abbrev pub stream : Tcb Ring → List ℕ
  stream t = delivered t.posted ++ C.items t.rcv.pq

  -- The sequence number behind the last byte taken.
  abbrev pub received_to : Tcb Ring → ℕ
  received_to t = u32 (t.rcv.next + length (C.items t.rcv.pq))

  -- Reads wait only while nothing is buffered.
  abbrev pub IsWaiting : Tcb Ring → Type 0
  IsWaiting t = (t.on_data_receive ≡ []) ⊎ (C.items t.rcv.pq ≡ [])

  grown :
      (n : ℕ) (r : Ring)
      → length (C.items r) ≤ n
      → C.items (C.resize n r) ≡ C.items r ++ replicate (n - length (C.items r)) 0
  grown n r h =
      C.items-resize n r
      ∙ ap (λ ys. ys ++ replicate (n - length (C.items r)) 0) (take-all n (C.items r) h)

  pub length-resize :
      (n : ℕ) (r : Ring) → length (C.items r) ≤ n → length (C.items (C.resize n r)) ≡ n
  length-resize n r h =
      let zeros : List ℕ = replicate (n - length (C.items r)) 0 in
      omega (
        arith,
        ap length (grown n r h),
        length-append (C.items r) zeros,
        length-replicate {A = ℕ} (n - length (C.items r)) 0,
      )

  -- Growing a buffer and writing the new end appends.
  pub fill :
      (i n : ℕ) (xs : List ℕ) (r : Ring)
      → i ≡ length (C.items r)
      → n ≡ i + length xs
      → C.items (C.assign_from i xs (C.resize n r)) ≡ C.items r ++ xs
  fill i n xs r hi hn =
      let zeros : List ℕ = replicate (n - length (C.items r)) 0 in
      let h : length (C.items r) ≤ n = omega (arith, hi, hn) in
      let covered : length (C.items r ++ zeros) ≤ i + length xs = omega (
        arith,
        length-append (C.items r) zeros,
        length-replicate {A = ℕ} (n - length (C.items r)) 0,
        hi,
        hn,
      ) in
      C.items-assign_from i xs (C.resize n r) (omega (arith, length-resize n r h, hn))
      ∙ ap (λ ys. take i ys ++ (xs ++ drop (i + length xs) ys)) (grown n r h)
      ∙ ap (λ ys. ys ++ (xs ++ drop (i + length xs) (C.items r ++ zeros)))
          (take-append i (C.items r) zeros (sym hi))
      ∙ ap (λ ys. C.items r ++ ys)
          (ap (λ ys. xs ++ ys) (drop-all (i + length xs) (C.items r ++ zeros) covered)
            ∙ append-nil xs)

  -- What taking `segment` means: it is appended to the stream, and `received_to` moves by its
  -- length.
  abbrev pub Takes : List ℕ → Tcb Ring → Tcb Ring → Type 0
  Takes segment t t' =
      (stream t' ≡ stream t ++ segment) × (received_to t' ≡ u32 (received_to t + length segment))

  -- The block after a delivery.
  abbrev pub after_deliver : Reader → List Reader → List ℕ → Tcb Ring → Tcb Ring
  after_deliver reader readers segment t =
      let n = min (length segment) reader.room in
      post (read_done reader.cb (take n segment)) (record t {
        on_data_receive = readers;
        rcv = record (t.rcv) {
          next = u32 (t.rcv.next + n);
          pq = C.assign_from 0 (drop n segment) (C.resize (length segment - n) t.rcv.pq);
        };
      })

  pub deliver_lem :
      (reader : Reader) (readers : List Reader) (segment : List ℕ) (t : Tcb Ring)
      → C.items t.rcv.pq ≡ []
      → deliver C reader readers segment t ≡ ok (after_deliver reader readers segment t)
  unfolding deliver
  deliver_lem reader readers segment t empty =
      let none : length (C.items t.rcv.pq) ≡ 0 = ap length empty in ground (arith, none)

  pub items-after_deliver :
      (reader : Reader) (readers : List Reader) (segment : List ℕ) (t : Tcb Ring)
      → C.items t.rcv.pq ≡ []
      → C.items (after_deliver reader readers segment t).rcv.pq
        ≡ drop (min (length segment) reader.room) segment
  items-after_deliver reader readers segment t empty =
      let n = min (length segment) reader.room in
      let none : length (C.items t.rcv.pq) ≡ 0 = ap length empty in
      fill 0 (length segment - n) (drop n segment) t.rcv.pq (omega (arith, none))
        (omega (arith, length-drop n segment))
      ∙ ap (λ ys. ys ++ drop n segment) empty

  deliver-Takes :
      (reader : Reader) (readers : List Reader) (segment : List ℕ) (t : Tcb Ring)
      → C.items t.rcv.pq ≡ []
      → (t' : Tcb Ring) × (deliver C reader readers segment t ≡ ok t') × Takes segment t t'
  deliver-Takes reader readers segment t empty =
      let n = min (length segment) reader.room in
      let t' = after_deliver reader readers segment t in
      let none : length (C.items t.rcv.pq) ≡ 0 = ap length empty in
      let filled = items-after_deliver reader readers segment t empty in
      (
        t',
        deliver_lem reader readers segment t empty,
        (
          ap (λ ys. ys ++ C.items t'.rcv.pq) (delivered-append t.posted reader.cb (take n segment))
              ∙ ap (λ ys. (delivered t.posted ++ take n segment) ++ ys) filled
              ∙ append_assoc (delivered t.posted) (take n segment) (drop n segment)
              ∙ ap (λ ys. delivered t.posted ++ ys) (take-append-drop n segment)
              ∙ ap (λ ys. ys ++ segment) (sym (append-nil (delivered t.posted)))
              ∙ ap (λ ys. (delivered t.posted ++ ys) ++ segment) (sym empty),
          omega (arith, ap length filled, length-drop n segment, none),
        ),
      )

  buffer-Takes :
      (segment : List ℕ) (t : Tcb Ring)
      → length (C.items t.rcv.pq) + length segment ≤ C.capacity t.rcv.pq
      → (t' : Tcb Ring) × (buffer C segment t ≡ ok t') × Takes segment t t'
  unfolding buffer
  buffer-Takes segment t fits =
      let size = length (C.items t.rcv.pq) in
      let pq = C.resize (size + length segment) t.rcv.pq in
      let first = length (C.items pq) - length segment in
      let at_end : first ≡ size =
        omega (arith, length-resize (size + length segment) t.rcv.pq (omega arith)) in
      let filled : C.items (C.assign_from first segment pq) ≡ C.items t.rcv.pq ++ segment =
        fill first (size + length segment) segment t.rcv.pq at_end (omega (arith, at_end)) in
      (
        record t { rcv = record (t.rcv) { pq = C.assign_from first segment pq } },
        ground arith,
        (
          ap (λ ys. delivered t.posted ++ ys) filled
              ∙ sym (append_assoc (delivered t.posted) (C.items t.rcv.pq) segment),
          omega (arith, ap length filled, length-append (C.items t.rcv.pq) segment),
        ),
      )

  deliver_or_buffer-Takes :
      (readers : List Reader) (segment : List ℕ) (t : Tcb Ring)
      → (readers ≡ []) ⊎ (C.items t.rcv.pq ≡ [])
      → length (C.items t.rcv.pq) + length segment ≤ C.capacity t.rcv.pq
      → (t' : Tcb Ring) × (deliver_or_buffer C readers segment t ≡ ok t') × Takes segment t t'
  unfolding deliver_or_buffer
  deliver_or_buffer-Takes [] segment t w fits = buffer-Takes segment t fits
  deliver_or_buffer-Takes (reader ∷ readers) segment t (inl no_reader) fits = cc
  deliver_or_buffer-Takes (reader ∷ readers) segment t (inr empty) fits =
      deliver-Takes reader readers segment t empty

  pub receive_text-enters :
      (tcph : TcpHeader) (segment : List ℕ) (t : Tcb Ring)
      → t.rcv.next + length (C.items t.rcv.pq) ≤ tcph.seq_no
      → receive_text C tcph segment t ≡ deliver_or_buffer C t.on_data_receive segment t
  receive_text-enters tcph segment t h =
      let e : ltb tcph.seq_no (t.rcv.next + length (C.items t.rcv.pq)) ≡ false = ground arith in
      unfold receive_text in rw e

  -- A segment that begins at or behind `received_to` (as an unwrapped sum) is taken whole,
  -- where reads wait only on an empty buffer and the buffer has room for it: its bytes go to the
  -- end of the stream, part of them to a pending read.
  pub receive_text-Takes :
      (tcph : TcpHeader) (segment : List ℕ) (t : Tcb Ring)
      → IsWaiting t
      → length (C.items t.rcv.pq) + length segment ≤ C.capacity t.rcv.pq
      → t.rcv.next + length (C.items t.rcv.pq) ≤ tcph.seq_no
      → (t' : Tcb Ring) × (receive_text C tcph segment t ≡ ok t') × Takes segment t t'
  receive_text-Takes tcph segment t w fits ahead =
      let (t', runs, takes) = deliver_or_buffer-Takes t.on_data_receive segment t w fits in
      (t', receive_text-enters tcph segment t ahead ∙ runs, takes)

  -- A read takes bytes off the buffer or waits; either way the stream and `received_to` stay,
  -- and reads wait only on an empty buffer.
  pub async_read_some-stream :
      (room cb : ℕ) (t : Tcb Ring)
      → IsWaiting t
      → (stream (async_read_some C room cb t) ≡ stream t)
        × (received_to (async_read_some C room cb t) ≡ received_to t)
        × IsWaiting (async_read_some C room cb t)
  unfolding async_read_some
  async_read_some-stream room cb t w = elim (Bool-cases (length (C.items t.rcv.pq) == 0)) [
    | inl empty ↦ rw empty (refl, refl, inr (nil-of-length (C.items t.rcv.pq) (ground arith)))
    | inr more ↦
        let n = min (length (C.items t.rcv.pq)) room in
        let left : C.items (C.erase_begin n t.rcv.pq) ≡ drop n (C.items t.rcv.pq) =
          C.items-erase_begin n t.rcv.pq (omega arith) in
        rw more (
          ap (λ ys. ys ++ C.items (C.erase_begin n t.rcv.pq))
                (delivered-append t.posted cb (take n (C.items t.rcv.pq)))
              ∙ append_assoc (delivered t.posted) (take n (C.items t.rcv.pq))
                  (C.items (C.erase_begin n t.rcv.pq))
              ∙ ap (λ ys. delivered t.posted ++ (take n (C.items t.rcv.pq) ++ ys)) left
              ∙ ap (λ ys. delivered t.posted ++ ys) (take-append-drop n (C.items t.rcv.pq)),
          omega (arith, ap length left, length-drop n (C.items t.rcv.pq)),
          elim w [
            | inl none ↦ inl none
            | inr empty ↦
                let zero_long : length (C.items t.rcv.pq) ≡ 0 = ap length empty in
                absurd (ground arith)
          ],
        )
  ]
