-- ===== src/Socket/Calls.antt =====
-- mstack/mstack/socket.hpp and socket.cpp: a socket and its calls of the connection's block. A weak
-- pointer to a block is the block's key in the manager's table; it is expired where the entry is
-- gone. `none` stands for a call that throws.
use mstack_cpp.Base.{ℕ, List, Option, none, some, Result, ok, ◌>>=◌}
use mstack_cpp.Endpoint.{Endpoint, TwoEnds}
use mstack_cpp.Ring.{CircularBuffer}
use mstack_cpp.Tcb.Input
use mstack_cpp.Tcb.Output
use mstack_cpp.Manager
use mstack_cpp.Manager.{Manager, Connection}

abbrev pub socket_disconnected : ℕ
socket_disconnected = 12

abbrev pub socket_connected : ℕ
socket_connected = 14

pub record Socket : Type 0 where
  pub state : ℕ
  pub local_ep : Endpoint
  pub tcb : Option TwoEnds

-- What the callback of `async_connect` leaves in the socket, before it calls `cb`.
pub connected : TwoEnds → Socket → Socket
connected tcb sk = record sk { local_ep = tcb.local_ep; tcb = some tcb }

module _ {Ring : Type 0} where
  abbrev pub lock_key : Option TwoEnds → Manager Ring → Option (TwoEnds × Connection Ring)
  lock_key none m = none
  lock_key (some key) m = elim (Manager.find key m.tcbs) [
    | none ↦ none
    | some conn ↦ some (key, conn)
  ]

  -- `tcb.lock()`.
  unfoldable pub lock : Socket → Manager Ring → Option (TwoEnds × Connection Ring)
  lock sk m = lock_key sk.tcb m

  unfoldable pub remote_endpoint : Socket → Manager Ring → Option Endpoint
  unfolding lock
  remote_endpoint sk m = elim (lock sk m) [
    | none ↦ none
    | some (key, conn) ↦ some conn.tcb.remote_ep
  ]

  module _ (C : CircularBuffer Ring) where
    pub async_read_some : Socket → ℕ → ℕ → Manager Ring → Option (Manager Ring)
    unfolding lock
    async_read_some sk room cb m = elim (lock sk m) [
      | none ↦ none
      | some (key, conn) ↦ some (Manager.called key (Input.async_read_some C room cb conn.tcb) m)
    ]

    unfoldable pub async_write : Socket → List ℕ → ℕ → Manager Ring → Option (Result (Manager Ring))
    unfolding lock
    async_write sk buf cb m = elim (lock sk m) [
      | none ↦ none
      | some (key, conn) ↦
          some (do t ← Output.async_write C buf cb conn.tcb; ok (Manager.called key t m))
    ]
