-- ===== src/Manager.antt =====
-- The TCP connections of a stack: mstack/mstack/tcb_manager.hpp and tcb_manager.cpp. A packet
-- that a block hands to the manager joins the queue that all blocks share.
pub mod Table
pub mod Demux
pub mod Connect
use mstack_cpp.Base.{
  ℕ, List, [], ◌∷◌, ◌++◌, Bool, true, false, if◌then◌else◌, Option, none, some, Result, ok, fault,
  out_of_fuel, ◌>>=◌,
}
use mstack_cpp.Endpoint.{Endpoint, TwoEnds, two_ends_eq, TcpPacket}
use mstack_cpp.Ring.{CircularBuffer}
use mstack_cpp.Tcb.{Tcb, Send, connecting, listen, Env}
use mstack_cpp.Tcb
use mstack_cpp.Tcb.Handshake.{start_connecting}
use mstack_cpp.Tcb.Segment

-- `matcher` on the remote and the local endpoint; `cb` names the callback, if there is one.
pub record Rule : Type 0 where
  pub matcher : Endpoint → Endpoint → Bool
  pub cb : Option ℕ

-- A block and the callback that it was created with.
pub record Connection (Ring : Type 0) : Type 0 where
  pub tcb : Tcb Ring
  pub on_connection_established : Option ℕ

abbrev pub Connections : Type 0 → Type 0
Connections Ring = List (TwoEnds × Connection Ring)

pub record Manager (Ring : Type 0) : Type 0 where
  pub rules : List Rule
  pub tcbs : Connections Ring
  pub packet_queue : List TcpPacket

-- What the fields that `create_shared` leaves indeterminate happen to hold, and what a
-- `std::function` that was moved from is: the standard leaves that unspecified.
pub record Indeterminate (Ring : Type 0) : Type 0 where
  pub send : Send Ring
  pub rcv_next : ℕ
  pub rcv_mss : ℕ
  pub moved_from : Option ℕ

unfoldable pub find : {Ring : Type 0} → TwoEnds → Connections Ring → Option (Connection Ring)
find two_end [] = none
find two_end ((key, conn) ∷ tcbs) = if two_ends_eq key two_end then some conn else find two_end tcbs

-- `emplace`: nothing changes where the key stands already, and the Boolean says whether it was
-- inserted.
pub emplace :
    {Ring : Type 0} → TwoEnds → Connection Ring → Connections Ring → Connections Ring × Bool
unfolding find
emplace two_end conn tcbs = elim (find two_end tcbs) [
  | none ↦ (tcbs ++ (two_end, conn) ∷ [], true)
  | some old ↦ (tcbs, false)
]

-- The block of a key after a method that was called on it.
pub update : {Ring : Type 0} → TwoEnds → Tcb Ring → Connections Ring → Connections Ring
update two_end t [] = []
update two_end t ((key, conn) ∷ tcbs) =
    if two_ends_eq key two_end
    then (key, record conn { tcb = t }) ∷ tcbs
    else (key, conn) ∷ update two_end t tcbs

-- The block goes back to the table, and what it sent to the queue.
pub called : {Ring : Type 0} → TwoEnds → Tcb Ring → Manager Ring → Manager Ring
unfolding update
called two_end t m = record m {
  tcbs = update two_end (record t { out = [] }) m.tcbs;
  packet_queue = m.packet_queue ++ t.out;
}

pub rule_insert_front :
    {Ring : Type 0} → (Endpoint → Endpoint → Bool) → Option ℕ → Manager Ring → Manager Ring
rule_insert_front matcher cb m = record m {
  rules = record { matcher = matcher; cb = cb } ∷ m.rules;
}

pub rule_insert_back :
    {Ring : Type 0} → (Endpoint → Endpoint → Bool) → Option ℕ → Manager Ring → Manager Ring
rule_insert_back matcher cb m = record m {
  rules = m.rules ++ record { matcher = matcher; cb = cb } ∷ [];
}

-- The callback of the first rule that matches.
unfoldable pub first_match : TwoEnds → List Rule → Option (Option ℕ)
first_match two_end [] = none
first_match two_end (rule ∷ rules) =
    if rule.matcher two_end.remote_ep two_end.local_ep
    then some rule.cb
    else first_match two_end rules

module _ {Ring : Type 0} (C : CircularBuffer Ring) (env : Env) (junk : Indeterminate Ring) where
  pub process : TcpPacket → Manager Ring → Result (Manager Ring)
  unfolding find first_match emplace called
  process pkt_in m =
      let two_end : TwoEnds = record { remote_ep = pkt_in.remote_ep; local_ep = pkt_in.local_ep } in
      elim (find two_end m.tcbs) [
        | some conn ↦ (do t ← Segment.process C env pkt_in conn.tcb; ok (called two_end t m))
        | none ↦ elim (first_match two_end m.rules) [
          | none ↦ ok m
          | some cb ↦ (do
            created ←
                Tcb.create C two_end.remote_ep two_end.local_ep listen listen cb junk.send
                  junk.rcv_next junk.rcv_mss
            let conn : Connection Ring = record { tcb = created; on_connection_established = cb }
            t ← Segment.process C env pkt_in created
            ok (called two_end t (record m { tcbs = (emplace two_end conn m.tcbs).0 })))
        ]
      ]

  -- `while (true)`, over the ports that the generator draws; a list that ends before a free port
  -- is drawn is the fuel that has run out. Every round moves from `cb`.
  pub async_connect : List ℕ → Endpoint → ℕ → Option ℕ → Manager Ring → Result (Manager Ring)
  unfolding emplace called
  async_connect [] remote_ep local_addr cb m = fault out_of_fuel
  async_connect (port ∷ ports) remote_ep local_addr cb m =
      let two_end : TwoEnds = record {
        remote_ep = remote_ep;
        local_ep = record { addrv4 = local_addr; addrv4_port = port };
      } in
      let again = async_connect ports remote_ep local_addr junk.moved_from m in
      (do
        created ←
            Tcb.create C two_end.remote_ep two_end.local_ep connecting connecting cb junk.send
              junk.rcv_next junk.rcv_mss
        let conn : Connection Ring = record { tcb = created; on_connection_established = cb }
        let (tcbs, inserted) = emplace two_end conn m.tcbs
        if inserted
            then (do
              t ← start_connecting env created
              ok (called two_end t (record m { tcbs = tcbs })))
            else again)
