-- ===== src/Tcb.antt =====
-- The transmission control block: mstack/mstack/tcb.hpp, the states of defination.hpp and the
-- constructor in tcb.cpp. Children model the methods.
pub mod Phase
pub mod Output
pub mod Input
pub mod Handshake
pub mod Segment
pub mod History
use mstack_cpp.Base.{
  ℕ, List, [], ◌∷◌, ◌++◌, Bool, ◌==◌, Option, none, some, Result, ok, fault, null_deref, true,
  false, ◌>>=◌, ◌>>◌, assert,
}
use mstack_cpp.Endpoint.{Endpoint, TcpPacket}
use mstack_cpp.Ring.{CircularBuffer}

-- The enumeration of defination.hpp, in its order.
pub data TcpState : Type 0 where
  closed connecting listen syn_sent syn_received established fin_wait_1 fin_wait_2 : TcpState
  close_wait closing last_ack time_wait : TcpState
  socket_disconnected socket_connecting socket_connected : TcpState

abbrev pub state_code : TcpState → ℕ
state_code closed = 0
state_code connecting = 1
state_code listen = 2
state_code syn_sent = 3
state_code syn_received = 4
state_code established = 5
state_code fin_wait_1 = 6
state_code fin_wait_2 = 7
state_code close_wait = 8
state_code closing = 9
state_code last_ack = 10
state_code time_wait = 11
state_code socket_disconnected = 12
state_code socket_connecting = 13
state_code socket_connected = 14

abbrev pub state_eq : TcpState → TcpState → Bool
state_eq a b = state_code a == state_code b

-- The fields of `send` that a method reads or writes; `pq` is null until the handshake sets it.
pub record Send (Ring : Type 0) : Type 0 where
  pub seq_nr_unack : ℕ
  pub seq_nr_next : ℕ
  pub window : ℕ
  pub mss : ℕ
  pub pq : Option Ring

pub record Receive (Ring : Type 0) : Type 0 where
  pub next : ℕ
  pub window : ℕ
  pub mss : ℕ
  pub pq : Ring

-- A pending read: the size of its buffer and the name of its callback.
pub record Reader : Type 0 where
  pub room : ℕ
  pub cb : ℕ

-- What a method posts to the event loop. `read_done cb bytes` calls the callback on the bytes
-- that stand in its buffer and then sends a packet; `send_pending` is the loop that
-- `enqueue_app_data` posts; `notify_connected` calls `on_connection_established_`.
pub data Task : Type 0 where
  read_done : ℕ → List ℕ → Task
  write_done : ℕ → ℕ → Task
  send_pending : Task
  notify_connected : Task

-- `out` holds the packets handed to the manager and `posted` the tasks, oldest first.
pub record Tcb (Ring : Type 0) : Type 0 where
  pub remote_ep : Endpoint
  pub local_ep : Endpoint
  pub state : TcpState
  pub next_state : TcpState
  pub on_data_receive : List Reader
  pub send : Send Ring
  pub rcv : Receive Ring
  pub out : List TcpPacket
  pub posted : List Task

-- What a method takes from outside: `std::random_device` and the contents of fresh memory.
pub record Env : Type 0 where
  pub isn : ℕ
  pub junk : ℕ → ℕ

abbrev pub deref {ℓ} : {A : Type ℓ} → Option A → Result A
deref none = fault null_deref
deref (some a) = ok a

abbrev pub post : {Ring : Type 0} → Task → Tcb Ring → Tcb Ring
post task t = record t { posted = t.posted ++ task ∷ [] }

-- `mngr_.enqueue(pkt)`.
abbrev pub enqueue : {Ring : Type 0} → TcpPacket → Tcb Ring → Tcb Ring
enqueue pkt t = record t { out = t.out ++ pkt ∷ [] }

-- A `std::function` that is not empty.
abbrev pub is_some {ℓ} : {A : Type ℓ} → Option A → Bool
is_some none = false
is_some (some a) = true

-- The block that the constructor makes. The numbers of `send_` and two of `rcv_` are left
-- indeterminate: they are what `send` and `rcv_next`, `rcv_mss` happen to hold.
abbrev pub initial_block :
    {Ring : Type 0}
    → CircularBuffer Ring
    → Endpoint
    → Endpoint
    → TcpState
    → TcpState
    → Send Ring
    → ℕ
    → ℕ
    → Tcb Ring
initial_block c remote_ep local_ep state next_state send rcv_next rcv_mss = record {
  remote_ep = remote_ep;
  local_ep = local_ep;
  state = state;
  next_state = next_state;
  on_data_receive = [];
  send = record send { pq = none };
  rcv = record { next = rcv_next; window = 0xfaf0; mss = rcv_mss; pq = c.create 0xfaf0 };
  out = [];
  posted = [];
}

-- The constructor, which asserts that there is a callback; the callback itself stands with the
-- block in the manager's table.
abbrev pub create :
    {Ring : Type 0}
    → CircularBuffer Ring
    → Endpoint
    → Endpoint
    → TcpState
    → TcpState
    → Option ℕ
    → Send Ring
    → ℕ
    → ℕ
    → Result (Tcb Ring)
create c remote_ep local_ep state next_state cb send rcv_next rcv_mss = do
  assert (is_some cb)
  ok (initial_block c remote_ep local_ep state next_state send rcv_next rcv_mss)
