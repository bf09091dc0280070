-- ===== src/Manager/Demux.antt =====
-- `tcb_manager::process`: which block a packet reaches.
use mstack_cpp.Base.{
  ℕ, ◌^◌, ◌<◌, ◌≡◌, refl, ◌∙◌, List, [], ◌∷◌, ◌++◌, true, false, Option, none, some, ok,
}
use mstack_cpp.Endpoint.{TwoEnds, two_ends_eq, TcpPacket}
use mstack_cpp.Ring.{CircularBuffer}
use mstack_cpp.TcpHeader.{TcpHeader}
use mstack_cpp.Options.{TcpOption, decode_options}
use mstack_cpp.Tcb.{Tcb, Send, Receive, listen, syn_received, Env}
use mstack_cpp.Tcb
use mstack_cpp.Tcb.Output.Packet.{Fields}
use mstack_cpp.Tcb.Handshake.Opening.{IsSyn}
use mstack_cpp.Tcb.Segment
use mstack_cpp.Tcb.Segment.{parse}
use mstack_cpp.Tcb.Segment.Opens.{Opened, process-listen}
use mstack_cpp.Manager.{
  Connection, Connections, Manager, Indeterminate, find, emplace, called, first_match, process,
}
use mstack_cpp.Manager.Table.{
  find-append_here, find-append_other, find-update_here, find-update_other,
}

abbrev pub ends : TcpPacket → TwoEnds
ends pkt = record { remote_ep = pkt.remote_ep; local_ep = pkt.local_ep }

module _ {Ring : Type 0} where
  -- Where a call went: only the table's entry at `e` may have changed.
  abbrev pub OnlyAt : TwoEnds → Manager Ring → Manager Ring → Type 0
  OnlyAt e m m' =
      (m'.rules ≡ m.rules)
      × ((e' : TwoEnds) → two_ends_eq e e' ≡ false → find e' m'.tcbs ≡ find e' m.tcbs)

  -- The entry of `e` after a call that left the block `t`.
  pub record Handled (e : TwoEnds) (cb : Option ℕ) (t : Tcb Ring) (m m' : Manager Ring)
      : Type 0 where
    pub entry :
        find e m'.tcbs
        ≡ some (record { tcb = record t { out = [] }; on_connection_established = cb })
    pub queue : m'.packet_queue ≡ m.packet_queue ++ t.out
    pub only : OnlyAt e m m'

  pub called-OnlyAt : (e : TwoEnds) (t : Tcb Ring) (m : Manager Ring) → OnlyAt e m (called e t m)
  unfolding called
  called-OnlyAt e t m = (refl, λ e' h. find-update_other e e' (record t { out = [] }) m.tcbs h)

  pub called-Handled :
      (e : TwoEnds) (t : Tcb Ring) (conn : Connection Ring) (m : Manager Ring)
      → find e m.tcbs ≡ some conn
      → Handled e conn.on_connection_established t m (called e t m)
  called-Handled e t conn m h = record {
    entry = unfold called in find-update_here e (record t { out = [] }) conn m.tcbs h;
    queue = unfold called in refl;
    only = called-OnlyAt e t m;
  }

  -- The table with a new entry.
  pub emplace-new :
      (e : TwoEnds) (conn : Connection Ring) (tcbs : Connections Ring)
      → find e tcbs ≡ none
      → emplace e conn tcbs ≡ (tcbs ++ (e, conn) ∷ [], true)
  unfolding emplace
  emplace-new e conn tcbs h = rw (emplace, h) refl

  pub inserted-Handled :
      (e : TwoEnds) (t : Tcb Ring) (conn : Connection Ring) (m : Manager Ring)
      → find e m.tcbs ≡ none
      → Handled e conn.on_connection_established t m
          (called e t (record m { tcbs = m.tcbs ++ (e, conn) ∷ [] }))
  inserted-Handled e t conn m h =
      let n : Manager Ring = record m { tcbs = m.tcbs ++ (e, conn) ∷ [] } in
      let k = called-Handled e t conn n (find-append_here e conn m.tcbs h) in
      record {
        entry = k.entry;
        queue = k.queue;
        only = (k.only.0, λ e' d. k.only.1 e' d ∙ find-append_other e e' conn m.tcbs d);
      }

module _ {Ring : Type 0} (C : CircularBuffer Ring) (env : Env) (junk : Indeterminate Ring) where
  -- Where the block of a packet's endpoints stands in the table and its `process` returns, the
  -- manager's `process` returns: the entry has that block and the callback it had, the block's
  -- packets are on the queue, and no other entry and no rule changes.
  pub process-known :
      (pkt_in : TcpPacket) (m : Manager Ring) (conn : Connection Ring) (t : Tcb Ring)
      → find (ends pkt_in) m.tcbs ≡ some conn
      → Segment.process C env pkt_in conn.tcb ≡ ok t
      → (m' : Manager Ring) × (process C env junk pkt_in m ≡ ok m')
        × Handled (ends pkt_in) conn.on_connection_established t m m'
  unfolding process
  process-known pkt_in m conn t h p =
      (called (ends pkt_in) t m, rw (process, h, p) refl, called-Handled (ends pkt_in) t conn m h)

  pub process-unknown :
      (pkt_in : TcpPacket) (m : Manager Ring)
      → find (ends pkt_in) m.tcbs ≡ none
      → first_match (ends pkt_in) m.rules ≡ none
      → process C env junk pkt_in m ≡ ok m
  unfolding process
  process-unknown pkt_in m h r = rw (process, h, r) refl

  -- The block that a rule makes for a packet.
  abbrev pub accepted_block : TcpPacket → Tcb Ring
  accepted_block pkt_in =
      Tcb.initial_block C pkt_in.remote_ep pkt_in.local_ep listen listen junk.send junk.rcv_next
        junk.rcv_mss

  pub process-new :
      (pkt_in : TcpPacket) (m : Manager Ring) (cb : ℕ) (t : Tcb Ring)
      → find (ends pkt_in) m.tcbs ≡ none
      → first_match (ends pkt_in) m.rules ≡ some (some cb)
      → Segment.process C env pkt_in (accepted_block pkt_in) ≡ ok t
      → (m' : Manager Ring) × (process C env junk pkt_in m ≡ ok m')
        × Handled (ends pkt_in) (some cb) t m m'
  unfolding process
  process-new pkt_in m cb t h r p =
      let conn : Connection Ring = record {
        tcb = accepted_block pkt_in;
        on_connection_established = some cb;
      } in
      (
        called (ends pkt_in) t (record m { tcbs = m.tcbs ++ (ends pkt_in, conn) ∷ [] }),
        rw (process, h, r, p, emplace-new (ends pkt_in) conn m.tcbs h) refl,
        inserted-Handled (ends pkt_in) t conn m h,
      )

  -- A packet with readable header and options that is a SYN without ACK and RST, that no
  -- connection claims and whose first matching rule has a callback, makes `process` return, where
  -- the numbers fit the fields of a header: the table has a new entry with that callback, whose
  -- block is in SYN-RECEIVED with the numbers of the SYN and of `env.isn`, what the block sent is
  -- on the queue, which is one packet that reads as a SYN-ACK, and no other entry changes.
  pub process-opens :
      (pkt_in : TcpPacket) (m : Manager Ring) (cb : ℕ) (tcph : TcpHeader) (opts segment : List ℕ)
      (decoded : List TcpOption)
      → find (ends pkt_in) m.tcbs ≡ none
      → first_match (ends pkt_in) m.rules ≡ some (some cb)
      → parse pkt_in ≡ ok (tcph, opts, segment)
      → decode_options opts ≡ ok decoded
      → IsSyn tcph
      → Fields (accepted_block pkt_in)
      → env.isn < 2 ^ 32
      → (t : Tcb Ring) × (m' : Manager Ring) × (process C env junk pkt_in m ≡ ok m')
        × Handled (ends pkt_in) (some cb) t m m'
        × Opened C env tcph (accepted_block pkt_in) t
  process-opens pkt_in m cb tcph opts segment decoded h r p d s f i =
      let is_listen : (accepted_block pkt_in).state ≡ listen = refl in
      let (t, e, o) =
        process-listen C env pkt_in tcph opts segment decoded (accepted_block pkt_in) p d is_listen
          s f i in
      let (m', q, k) = process-new pkt_in m cb t h r e in (t, m', q, k, o)
