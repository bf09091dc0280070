-- ===== src/Acceptor/Laws.antt =====
-- A socket that accepted a connection writes to its block.
use mstack_cpp.Base.{ℕ, ◌≡◌, refl, ◌∙◌, List, ◌∷◌, arith, some, ok, ◌>>=◌}
use mstack_cpp.Endpoint.{TwoEnds}
use mstack_cpp.Ring.{CircularBuffer}
use mstack_cpp.AddrMap
use mstack_cpp.AddrMap.{AddrMap}
use mstack_cpp.AddrMap.Laws.{find-assign}
use mstack_cpp.Tcb.Output
use mstack_cpp.Manager
use mstack_cpp.Manager.{Manager, Connection}
use mstack_cpp.Socket.Calls.{Socket, socket_connected, remote_endpoint, async_write, lock}
use mstack_cpp.Acceptor.{Acceptor, on_connection}

-- Where a callback waits, the connection goes to its socket, which is connected then and whose calls
-- reach the block that stands in the manager's table; the callback is called, and the others wait on.
pub on_connection-async_write :
    {Cb Ring : Type 0} (C : CircularBuffer Ring) (tcb : TwoEnds) (s : ℕ) (cb : Cb)
    (rest : List (ℕ × Cb)) (a : Acceptor Cb) (sockets : AddrMap Socket) (conn : Connection Ring)
    (m : Manager Ring) (buf : List ℕ) (w : ℕ)
    → a.cbs ≡ (s, cb) ∷ rest
    → Manager.find tcb m.tcbs ≡ some conn
    → (a' : Acceptor Cb) × (sockets' : AddrMap Socket) × (sk : Socket) × (on_connection tcb a
          sockets
        ≡ (a', sockets', some cb))
      × (a'.cbs ≡ rest)
      × (AddrMap.find s sockets' ≡ some sk)
      × (sk.state ≡ socket_connected)
      × (sk.local_ep ≡ tcb.local_ep)
      × (remote_endpoint sk m ≡ some conn.tcb.remote_ep)
      × (async_write C sk buf w m
          ≡ some (Output.async_write C buf w conn.tcb >>= λ t. ok (Manager.called tcb t m)))
unfolding on_connection remote_endpoint async_write lock
on_connection-async_write C tcb s cb rest a sockets conn m buf w q known = (
  record { cbs = rest },
  _,
  record { state = socket_connected; local_ep = tcb.local_ep; tcb = some tcb },
  rw (on_connection, q) refl,
  refl,
  find-assign s s (record { state = socket_connected; local_ep = tcb.local_ep; tcb = some tcb })
        sockets
      ∙ ground arith,
  refl,
  refl,
  rw (remote_endpoint, lock, known) refl,
  rw (async_write, lock, known) refl,
)
