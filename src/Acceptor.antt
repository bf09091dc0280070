-- ===== src/Acceptor.antt =====
-- mstack/mstack/acceptor.cpp. Sockets have numbers, and `sockets` has what they hold.
pub mod Laws
use mstack_cpp.Base.{ℕ, List, [], ◌∷◌, ◌++◌, Bool, Option, none, some}
use mstack_cpp.Endpoint.{Endpoint, TwoEnds}
use mstack_cpp.AddrMap
use mstack_cpp.AddrMap.{AddrMap}
use mstack_cpp.Manager
use mstack_cpp.Manager.{Manager}
use mstack_cpp.Socket.Calls.{Socket, socket_connected}

-- Each callback has the socket that it fills in.
pub record Acceptor (Cb : Type 0) : Type 0 where
  pub cbs : List (ℕ × Cb)

-- The constructor: `self` names the rule's callback.
pub acceptor :
    {Cb Ring : Type 0}
    → (Endpoint → Endpoint → Bool)
    → ℕ
    → Manager Ring
    → Acceptor Cb × Manager Ring
acceptor matcher self m = (record { cbs = [] }, Manager.rule_insert_back matcher (some self) m)

module _ {Cb : Type 0} where
  pub async_accept : ℕ → Cb → Acceptor Cb → Acceptor Cb
  async_accept sk cb a = record a { cbs = a.cbs ++ (sk, cb) ∷ [] }

  -- The rule's callback on a connection, with the callback that it calls. The error code is empty.
  pub on_connection :
      TwoEnds → Acceptor Cb → AddrMap Socket → Acceptor Cb × AddrMap Socket × Option Cb
  on_connection tcb a sockets = elim a.cbs [
    | [] ↦ (a, sockets, none)
    | (sk, cb) ∷ rest ↦ (
      record { cbs = rest },
      AddrMap.assign sk
          (record { state = socket_connected; local_ep = tcb.local_ep; tcb = some tcb }) sockets,
      some cb,
    )
  ]
