-- ===== src/Tcp/Meanwhile.antt =====
-- What the layer does besides the packets and the readers of one pair.
use mathlib.Core.Path.{subst}
use mstack_cpp.Base.{
  ℕ, ◌≡◌, refl, ◌∙◌, List, [], ◌∷◌, none, some, Option, Bool, false, ok, inl, inr, Option-cases,
  Holds, Holds-after,
}
use mstack_cpp.Endpoint.{Endpoint, TwoEnds, TcpPacket, two_ends_eq}
use mstack_cpp.Packets.{Ipv4Packet}
use mstack_cpp.Protocol.{Lower}
use mstack_cpp.Tcp.{
  Tcp, RawState, attach, detach, async_wait, wait_at, receive_at, set_state, no_packets, process,
  async_write, rule_insert_front, rule_insert_back,
}
use mstack_cpp.Tcp.States
use mstack_cpp.Tcp.States.Laws.{find-assign_at, find-erase_at}

module _ {Waiter Cb : Type 0} where
  -- A step that neither brings a packet or a reader to the pair `e` nor attaches or detaches it: a
  -- posted task, the calls for another pair, a new rule, a packet that is sent, and what the layer
  -- below takes.
  pub data Meanwhile (e : TwoEnds) : Tcp Waiter Cb → Tcp Waiter Cb → Type 0 where
    runs_task :
        (t : Tcp Waiter Cb) (call : Waiter × TcpPacket) (rest : List (Waiter × TcpPacket))
        → t.posted ≡ call ∷ rest
        → Meanwhile e t (record t { posted = rest })
    receives_other :
        (other : TwoEnds) (pkt : TcpPacket) (state : RawState Waiter) (t : Tcp Waiter Cb)
        → two_ends_eq other e ≡ false
        → States.find other t.rcv_raw_states ≡ some state
        → Meanwhile e t (receive_at other pkt state t).0
    intercepts_other :
        (other : TwoEnds) (pkt : TcpPacket) (t : Tcp Waiter Cb)
        → two_ends_eq other e ≡ false
        → Meanwhile e t (set_state other (record { pq = pkt ∷ []; on_data_receive = [] }) t)
    waits_other :
        (other : TwoEnds) (cb : Waiter) (t t' : Tcp Waiter Cb)
        → two_ends_eq other e ≡ false
        → async_wait other cb t ≡ some t'
        → Meanwhile e t t'
    attaches_other :
        (other : TwoEnds) (t t' : Tcp Waiter Cb)
        → two_ends_eq other e ≡ false
        → attach other t ≡ some t'
        → Meanwhile e t t'
    detaches_other :
        (other : TwoEnds) (t : Tcp Waiter Cb)
        → two_ends_eq other e ≡ false
        → Meanwhile e t (detach other t)
    inserts_front :
        (matcher : Endpoint → Endpoint → Bool) (cb : Cb) (t : Tcp Waiter Cb)
        → Meanwhile e t (rule_insert_front matcher cb t)
    inserts_back :
        (matcher : Endpoint → Endpoint → Bool) (cb : Cb) (t : Tcp Waiter Cb)
        → Meanwhile e t (rule_insert_back matcher cb t)
    writes :
        (base : ℕ) (pkt : TcpPacket) (cb : ℕ) (t t' : Tcp Waiter Cb)
        → async_write base pkt cb t ≡ ok t'
        → Meanwhile e t t'
    moves_below :
        (lower : Lower Ipv4Packet) (t : Tcp Waiter Cb) → Meanwhile e t (record t { lower = lower })

  -- The entry of the pair stays.
  abbrev Keeps : TwoEnds → Tcp Waiter Cb → Tcp Waiter Cb → Type 0
  Keeps e t t' = States.find e t'.rcv_raw_states ≡ States.find e t.rcv_raw_states

  set_state-Keeps :
      (e other : TwoEnds) (state : RawState Waiter) (t : Tcp Waiter Cb)
      → two_ends_eq other e ≡ false
      → Keeps e t (set_state other state t)
  set_state-Keeps e other state t d = find-assign_at e other state t.rcv_raw_states ∙ rw d refl

  receive_at-Keeps :
      (e other : TwoEnds) (pkt : TcpPacket) (pq : List TcpPacket) (readers : List Waiter)
      (t : Tcp Waiter Cb)
      → two_ends_eq other e ≡ false
      → Keeps e t (receive_at other pkt (record { pq = pq; on_data_receive = readers }) t).0
  unfolding receive_at
  receive_at-Keeps e other pkt pq [] t d = set_state-Keeps e other _ t d
  receive_at-Keeps e other pkt pq (cb ∷ rest) t d = set_state-Keeps e other _ t d

  wait_at-Keeps :
      (e other : TwoEnds) (cb : Waiter) (pq : List TcpPacket) (readers : List Waiter)
      (t : Tcp Waiter Cb)
      → two_ends_eq other e ≡ false
      → Keeps e t (wait_at other cb (record { pq = pq; on_data_receive = readers }) t)
  unfolding wait_at
  wait_at-Keeps e other cb [] readers t d = set_state-Keeps e other _ t d
  wait_at-Keeps e other cb (pkt ∷ pq) readers t d = set_state-Keeps e other _ t d

  -- What holds of the result, where there is one.
  abbrev Gives : (Tcp Waiter Cb → Type 0) → Option (Tcp Waiter Cb) → Type 0
  Gives P none = Unit
  Gives P (some t) = P t

  async_wait-Keeps :
      (e other : TwoEnds) (cb : Waiter) (t : Tcp Waiter Cb)
      → two_ends_eq other e ≡ false
      → Gives (Keeps e t) (async_wait other cb t)
  unfolding async_wait
  async_wait-Keeps e other cb t d = elim (Option-cases (States.find other t.rcv_raw_states)) [
    | inl q ↦ rw (Gives, q) tt
    | inr (state, q) ↦ rw (Gives, q) (wait_at-Keeps e other cb state.pq state.on_data_receive t d)
  ]

  attach-Keeps :
      (e other : TwoEnds) (t : Tcp Waiter Cb)
      → two_ends_eq other e ≡ false
      → Gives (Keeps e t) (attach other t)
  unfolding attach
  attach-Keeps e other t d = elim (Option-cases (States.find other t.rcv_raw_states)) [
    | inl q ↦ rw (Gives, q) (set_state-Keeps e other no_packets t d)
    | inr (state, q) ↦ rw (Gives, q) tt
  ]

  async_write-Keeps :
      (e : TwoEnds) (base : ℕ) (pkt : TcpPacket) (cb : ℕ) (t : Tcp Waiter Cb)
      → Holds (Keeps e t) (async_write base pkt cb t)
  async_write-Keeps e base pkt cb t =
      unfold async_write in Holds-after (Keeps e t) (process base pkt t.lower) _ λ lower. refl

  pub Meanwhile-Keeps : {e : TwoEnds} {t t' : Tcp Waiter Cb} → Meanwhile e t t' → Keeps e t t'
  unfolding detach rule_insert_front rule_insert_back
  Meanwhile-Keeps (runs_task t call rest p) = refl
  Meanwhile-Keeps (receives_other other pkt state t d at) =
      receive_at-Keeps _ other pkt state.pq state.on_data_receive t d
  Meanwhile-Keeps (intercepts_other other pkt t d) = set_state-Keeps _ other _ t d
  Meanwhile-Keeps (waits_other other cb t t' d w) =
      subst (Gives (Keeps _ t)) w (async_wait-Keeps _ other cb t d)
  Meanwhile-Keeps (attaches_other other t t' d a) =
      subst (Gives (Keeps _ t)) a (attach-Keeps _ other t d)
  Meanwhile-Keeps (detaches_other other t d) = find-erase_at _ other t.rcv_raw_states ∙ rw d refl
  Meanwhile-Keeps (inserts_front matcher cb t) = refl
  Meanwhile-Keeps (inserts_back matcher cb t) = refl
  Meanwhile-Keeps (writes base pkt cb t t' w) =
      subst (Holds (Keeps _ t)) w (async_write-Keeps _ base pkt cb t)
  Meanwhile-Keeps (moves_below lower t) = refl
