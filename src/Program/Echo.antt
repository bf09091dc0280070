-- ===== src/Program/Echo.antt =====
-- main.cpp: the block of a connection that the program echoes.
pub mod Sends
pub mod Reads
pub mod Life
pub mod Round
use mstack_cpp.Base.{
  ℕ, suc, ◌+◌, ◌^◌, ◌≤◌, ◌<◌, ◌≡◌, List, [], ◌∷◌, ◌++◌, some, drop, length, sub_u32,
}
use mstack_cpp.Ring.{CircularBuffer}
use mstack_cpp.Tcb.{Tcb, Task, read_done, write_done, send_pending, notify_connected}
use mstack_cpp.Tcb.Input.Stream.{stream, IsWaiting}
use mstack_cpp.Tcb.Output.Packet.{sent}
use mstack_cpp.Tcb.Output.Pending.{texts}

-- The reads and writes that have ended, whose callbacks are still to be called.
abbrev pub outstanding : List Task → ℕ
outstanding [] = 0
outstanding (read_done cb bytes ∷ tasks) = suc (outstanding tasks)
outstanding (write_done cb size ∷ tasks) = suc (outstanding tasks)
outstanding (send_pending ∷ tasks) = outstanding tasks
outstanding (notify_connected ∷ tasks) = outstanding tasks

module _ {Ring : Type 0} (C : CircularBuffer Ring) where
  -- The send queue of a block: no more bytes are in flight than it holds.
  pub record HasQueue (t : Tcb Ring) (pq : Ring) : Type 0 where
    pub queue : t.send.pq ≡ some pq
    pub in_flight : sub_u32 t.send.seq_nr_next t.send.seq_nr_unack ≤ length (C.items pq)
    pub unack : t.send.seq_nr_unack < 2 ^ 32
    pub small : length (C.items pq) < 2 ^ 32
    pub capacity : C.capacity pq < 2 ^ 32

  -- The texts that were sent, the bytes of the send queue that were not, and then `rest`, are what
  -- was heard.
  abbrev pub Carries : List ℕ → List ℕ → Tcb Ring → Ring → Type 0
  Carries heard rest t pq = texts t.out ++ (drop (sent C t pq) (C.items pq) ++ rest) ≡ heard

  -- What the block received is what it sent, followed by what is on its way in the send queue, in
  -- the read that has ended, and in the receive buffer. One read or write is outstanding.
  pub record IsEcho (heard : List ℕ) (t : Tcb Ring) : Type 0 where
    pub pq : Ring
    pub has_queue : HasQueue t pq
    pub carries : Carries heard (stream C t) t pq
    pub one : outstanding t.posted + length t.on_data_receive ≡ 1
    pub waiting : IsWaiting C t
