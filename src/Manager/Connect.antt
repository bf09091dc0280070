-- ===== src/Manager/Connect.antt =====
-- `tcb_manager::async_connect`: the first port that is drawn, free or taken.
use mstack_cpp.Base.{
  ℕ, ◌≡◌, refl, ◌∙◌, ap, List, [], ◌∷◌, ◌++◌, false, none, some, ok, fault, assertion,
}
use mstack_cpp.Endpoint.{Endpoint, TwoEnds}
use mstack_cpp.Ring.{CircularBuffer}
use mstack_cpp.Tcb.{Tcb, connecting, syn_sent, established, Env}
use mstack_cpp.Tcb
use mstack_cpp.Tcb.Handshake.{start_connecting}
use mstack_cpp.Manager.{Connection, Manager, Indeterminate, find, emplace, called, async_connect}
use mstack_cpp.Manager.Demux.{Handled, inserted-Handled, emplace-new}

abbrev pub local_ends : Endpoint → ℕ → ℕ → TwoEnds
local_ends remote_ep local_addr port = record {
  remote_ep = remote_ep;
  local_ep = record { addrv4 = local_addr; addrv4_port = port };
}

module _ {Ring : Type 0} (C : CircularBuffer Ring) (env : Env) (junk : Indeterminate Ring) where
  emplace-taken :
      (e : TwoEnds) (conn : Connection Ring) (tcbs : List (TwoEnds × Connection Ring))
      (old : Connection Ring)
      → find e tcbs ≡ some old
      → emplace e conn tcbs ≡ (tcbs, false)
  unfolding emplace
  emplace-taken e conn tcbs old h = rw (emplace, h) refl

  abbrev pub connecting_block : Endpoint → ℕ → ℕ → Tcb Ring
  connecting_block remote_ep local_addr port =
      let e = local_ends remote_ep local_addr port in
      Tcb.initial_block C e.remote_ep e.local_ep connecting connecting junk.send junk.rcv_next
        junk.rcv_mss

  -- Where the first port drawn is free, the callback is not empty and `start_connecting` returns,
  -- `async_connect` returns: the new entry has that block and the callback, the block's packets are
  -- on the queue, and no other entry and no rule changes.
  pub async_connect-free :
      (port : ℕ) (ports : List ℕ) (remote_ep : Endpoint) (local_addr cb : ℕ) (m : Manager Ring)
      (t : Tcb Ring)
      → find (local_ends remote_ep local_addr port) m.tcbs ≡ none
      → start_connecting env (connecting_block remote_ep local_addr port) ≡ ok t
      → (m' : Manager Ring) × (async_connect C env junk
            (port ∷ ports)
            remote_ep
            local_addr
            (some cb)
            m
          ≡ ok m')
        × Handled (local_ends remote_ep local_addr port) (some cb) t m m'
  unfolding async_connect
  async_connect-free port ports remote_ep local_addr cb m t h s =
      let e = local_ends remote_ep local_addr port in
      let conn : Connection Ring = record {
        tcb = connecting_block remote_ep local_addr port;
        on_connection_established = some cb;
      } in
      (
        called e t (record m { tcbs = m.tcbs ++ (e, conn) ∷ [] }),
        rw (emplace-new e conn m.tcbs h, s) refl,
        inserted-Handled e t conn m h,
      )

  -- The next round begins with the constructor's assertion, which an empty callback fails.
  no_callback :
      (port : ℕ) (ports : List ℕ) (remote_ep : Endpoint) (local_addr : ℕ) (m : Manager Ring)
      → async_connect C env junk (port ∷ ports) remote_ep local_addr none m ≡ fault assertion
  unfolding async_connect
  no_callback port ports remote_ep local_addr m = refl

  -- Where the first port drawn is taken and a callback that was moved from is empty,
  -- the second round fails the assertion, whatever port is drawn then.
  pub async_connect-taken :
      (port next_port : ℕ) (ports : List ℕ) (remote_ep : Endpoint) (local_addr cb : ℕ)
      (m : Manager Ring) (old : Connection Ring)
      → find (local_ends remote_ep local_addr port) m.tcbs ≡ some old
      → junk.moved_from ≡ none
      → async_connect C env junk (port ∷ next_port ∷ ports) remote_ep local_addr (some cb) m
        ≡ fault assertion
  unfolding async_connect
  async_connect-taken port next_port ports remote_ep local_addr cb m old h empty =
      let e = local_ends remote_ep local_addr port in
      let conn : Connection Ring = record {
        tcb = connecting_block remote_ep local_addr port;
        on_connection_established = some cb;
      } in
      rw (emplace-taken e conn m.tcbs old h) (
        ap (λ c. async_connect C env junk (next_port ∷ ports) remote_ep local_addr c m) empty
        ∙ no_callback next_port ports remote_ep local_addr m)
