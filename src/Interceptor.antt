-- ===== src/Interceptor.antt =====
-- mstack/mstack/interceptor.cpp and raw_socket.cpp. `User` stands for the callbacks of
-- `async_intercept`. A raw socket is its two ends.
pub mod Laws
use mstack_cpp.Base.{
  ℕ, List, [], ◌∷◌, ◌++◌, Bool, true, Option, none, some, Result, ok, fault, assertion,
}
use mstack_cpp.Endpoint.{Endpoint, TwoEnds, TcpPacket, endpoint_eq}
use mstack_cpp.Tcp
use mstack_cpp.Tcp.{Tcp}

pub record RawSocket : Type 0 where
  pub remote_ep : Endpoint
  pub local_ep : Endpoint

abbrev pub ends : RawSocket → TwoEnds
ends sk = record { remote_ep = sk.remote_ep; local_ep = sk.local_ep }

abbrev pub raw_socket : TwoEnds → RawSocket
raw_socket two_end = record { remote_ep = two_end.remote_ep; local_ep = two_end.local_ep }

pub record Interceptor (User : Type 0) : Type 0 where
  pub cbs : List User

module _ {Waiter Cb : Type 0} where
  pub attach : RawSocket → Tcp Waiter Cb → Option (Tcp Waiter Cb)
  attach sk t = Tcp.attach (ends sk) t

  pub detach : RawSocket → Tcp Waiter Cb → Tcp Waiter Cb
  detach sk t = Tcp.detach (ends sk) t

  -- The callback that is left with `tcp` stores the packet and calls `cb`.
  pub async_read : RawSocket → Waiter → Tcp Waiter Cb → Option (Tcp Waiter Cb)
  async_read sk cb t = Tcp.async_wait (ends sk) cb t

  pub async_write : RawSocket → ℕ → TcpPacket → ℕ → Tcp Waiter Cb → Result (Tcp Waiter Cb)
  async_write sk base pkt cb t = Tcp.async_write base pkt cb t

  -- The constructor: `self` names the rule's callback.
  pub interceptor :
      {User : Type 0}
      → (Endpoint → Endpoint → Bool)
      → Cb
      → Tcp Waiter Cb
      → Interceptor User × Tcp Waiter Cb
  interceptor matcher self t = (record { cbs = [] }, Tcp.rule_insert_back matcher self t)

-- The matcher of the constructor that takes an end.
pub matches_local : Endpoint → Endpoint → Endpoint → Bool
matches_local local_ep_exp remote_ep local_ep = endpoint_eq local_ep_exp local_ep

module _ {User : Type 0} where
  -- An empty `std::function` fails the assertion.
  pub async_intercept : Option User → Interceptor User → Result (Interceptor User)
  async_intercept none i = fault assertion
  async_intercept (some cb) i = ok (record i { cbs = i.cbs ++ cb ∷ [] })

  -- The rule's callback: the first of `cbs_`, if any, is taken and gets a raw socket.
  pub called : TwoEnds → Interceptor User → Interceptor User × Option (User × RawSocket)
  called two_end i = elim i.cbs [
    | [] ↦ (i, none)
    | cb ∷ rest ↦ (record { cbs = rest }, some (cb, raw_socket two_end))
  ]

  -- What the rule's callback does to the TCP layer, where `run` is what the users' callbacks do.
  pub intercept :
      {Waiter Cb : Type 0}
      → (User → RawSocket → Tcp Waiter Cb → Bool × Tcp Waiter Cb)
      → Interceptor User
      → Cb
      → TwoEnds
      → Tcp Waiter Cb
      → Bool × Tcp Waiter Cb
  unfolding called
  intercept run i self two_end t = elim (called two_end i).1 [
    | none ↦ (true, t)
    | some (cb, sk) ↦ run cb sk t
  ]
