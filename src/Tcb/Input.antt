-- ===== src/Tcb/Input.antt =====
-- The receiving half of mstack/mstack/tcb.cpp: the application's reads, and the text of a
-- segment in the seventh step of `process`.
pub mod Stream
pub mod Overrun
pub mod States
pub mod Taken
use mstack_cpp.Base.{
  ℕ, ◌+◌, ◌-◌, min, List, [], ◌∷◌, ◌++◌, Bool, true, false, not, ltb, ◌==◌, if◌then◌else◌, Result,
  ok, ◌>>=◌, ◌>>◌, assert, u32, take, drop, length,
}
use mstack_cpp.Ring.{CircularBuffer}
use mstack_cpp.TcpHeader.{TcpHeader}
use mstack_cpp.Tcb.{
  Tcb, TcpState, established, fin_wait_1, fin_wait_2, Reader, Task, read_done, post,
}

-- Text is taken in three states only.
abbrev pub takes_text : TcpState → Bool
takes_text established = true
takes_text fin_wait_1 = true
takes_text fin_wait_2 = true
takes_text _ = false

module _ {Ring : Type 0} (C : CircularBuffer Ring) where
  unfoldable pub async_read_some : ℕ → ℕ → Tcb Ring → Tcb Ring
  async_read_some room cb t =
      let n = min (length (C.items t.rcv.pq)) room in
      if not (length (C.items t.rcv.pq) == 0)
      then post (read_done cb (take n (C.items t.rcv.pq))) (record t {
        rcv = record (t.rcv) { next = u32 (t.rcv.next + n); pq = C.erase_begin n t.rcv.pq };
      })
      else record t { on_data_receive = t.on_data_receive ++ record { room = room; cb = cb } ∷ [] }

  -- The segment goes to the oldest pending read; what does not fit there is buffered.
  pub deliver : Reader → List Reader → List ℕ → Tcb Ring → Result (Tcb Ring)
  deliver reader readers segment t = do
    assert (length (C.items t.rcv.pq) == 0)
    let n = min (length segment) reader.room
    let pq = C.assign_from 0 (drop n segment) (C.resize (length segment - n) t.rcv.pq)
    ok (
        post (read_done reader.cb (take n segment)) (record t {
          on_data_receive = readers;
          rcv = record (t.rcv) { next = u32 (t.rcv.next + n); pq = pq };
        }))

  pub buffer : List ℕ → Tcb Ring → Result (Tcb Ring)
  buffer segment t = do
    let size = length (C.items t.rcv.pq)
    assert (not (ltb (C.capacity t.rcv.pq) (size + length segment)))
    let pq = C.resize (size + length segment) t.rcv.pq
    let first = length (C.items pq) - length segment
    ok (record t { rcv = record (t.rcv) { pq = C.assign_from first segment pq } })

  pub deliver_or_buffer : List Reader → List ℕ → Tcb Ring → Result (Tcb Ring)
  unfolding deliver buffer
  deliver_or_buffer [] segment t = buffer segment t
  deliver_or_buffer (reader ∷ readers) segment t = deliver reader readers segment t

  -- A segment that begins before `next` plus what is buffered is passed over.
  pub receive_text : TcpHeader → List ℕ → Tcb Ring → Result (Tcb Ring)
  unfolding deliver_or_buffer
  receive_text tcph segment t =
      if not (ltb tcph.seq_no (t.rcv.next + length (C.items t.rcv.pq)))
      then deliver_or_buffer t.on_data_receive segment t
      else ok t

  pub text_stage : TcpHeader → List ℕ → Tcb Ring → Result (Tcb Ring)
  unfolding receive_text
  text_stage tcph segment t =
      if ltb 0 (length segment)
      then (if takes_text t.state then receive_text tcph segment t else ok t)
      else ok t
