-- ===== src/Tcp.antt =====
-- mstack/mstack/tcp.hpp and tcp.cpp. `base` is the address of the packet's buffer, and a load behind
-- a payload is an access out of bounds. A callback of `async_wait` is
-- a `Waiter`, one of a rule a `Cb`, which `intercept` runs: it says whether the callback returned,
-- or threw, and what it left of the layer.
pub mod States
pub mod Checksum
pub mod Laws
pub mod Meanwhile
pub mod Queue
pub mod Rules
use mstack_cpp.Base.{
  ℕ, ◌+◌, List, [], ◌∷◌, ◌++◌, Bool, not, ltb, ◌==◌, if◌then◌else◌, Option, none, some, Result, ok,
  fault, dangling, ◌>>=◌, ◌>>◌, assert, length, u16,
}
use mstack_cpp.Wire.{to_bytes, hton, checksum}
use mstack_cpp.Skbuff.{Skbuff, payload, headroom, pop_front, push_front, store_head, store_off}
use mstack_cpp.Endpoint.{Endpoint, TwoEnds, TcpPacket}
use mstack_cpp.TcpHeader
use mstack_cpp.TcpHeader.{TcpHeader}
use mstack_cpp.Packets.{Ipv4Packet}
use mstack_cpp.Protocol.{Lower, enqueue}
use mstack_cpp.Tcp.States.{StateMap}
use mstack_cpp.Tcb.{is_some}

-- The size of the pseudo header, the offset of `chsum`, and `tcp::PROTO`.
abbrev pub pseudo_size : ℕ
pseudo_size = 12

abbrev pub chsum_off : ℕ
chsum_off = 16

abbrev pub proto_tcp : ℕ
proto_tcp = 0x06

pub pseudo_header : TcpPacket → List ℕ
pseudo_header pkt_in =
    to_bytes 4 (hton 4 pkt_in.local_ep.addrv4)
    ++ (to_bytes 4 (hton 4 pkt_in.remote_ep.addrv4)
        ++ (to_bytes 1 0
            ++ (to_bytes 1 pkt_in.proto
                ++ to_bytes 2 (hton 2 (u16 (length (payload pkt_in.skb)))))))

-- What `process` makes of the buffer.
pub segment : ℕ → TcpPacket → Result Skbuff
unfolding pseudo_header
segment base pkt_in = do
  assert (not (ltb (length (payload pkt_in.skb)) TcpHeader.fixed_size))
  let cleared = store_off chsum_off (0 ∷ 0 ∷ []) pkt_in.skb
  assert (not (ltb (headroom cleared) pseudo_size))
  pushed ← push_front pseudo_size cleared
  let whole = store_head (pseudo_header pkt_in) pushed
  chsum_net ← checksum (base + whole.head) (payload whole) 0
  skb ← pop_front pseudo_size whole
  ok (store_off chsum_off (to_bytes 2 chsum_net) skb)

pub process_raw : TcpPacket → Lower Ipv4Packet → Lower Ipv4Packet
process_raw pkt_in lower =
    enqueue
      (record {
        src_addrv4 = pkt_in.local_ep.addrv4;
        dst_addrv4 = pkt_in.remote_ep.addrv4;
        proto = pkt_in.proto;
        skb = pkt_in.skb;
      })
      lower

pub process : ℕ → TcpPacket → Lower Ipv4Packet → Result (Lower Ipv4Packet)
unfolding segment process_raw
process base pkt_in lower = do
  skb ← segment base pkt_in
  ok (process_raw (record pkt_in { skb = skb }) lower)

pub record RawState (Waiter : Type 0) : Type 0 where
  pub pq : List TcpPacket
  pub on_data_receive : List Waiter

pub record Rule (Cb : Type 0) : Type 0 where
  pub matcher : Endpoint → Endpoint → Bool
  pub cb : Cb

-- `posted` has the callbacks that a task will call, each with its packet, and `wrote` those of
-- `async_write`, by their names.
pub record Tcp (Waiter Cb : Type 0) : Type 0 where
  pub rules : List (Rule Cb)
  pub rcv_raw_states : StateMap (RawState Waiter)
  pub posted : List (Waiter × TcpPacket)
  pub wrote : List ℕ
  pub lower : Lower Ipv4Packet

-- What `make_packet` does with a packet: it is kept here, passed up, or passed up after a callback
-- that threw, when its buffer has been moved away and freed.
pub data Fate : Type 0 where
  kept : Fate
  passed : TcpPacket → Fate
  passed_empty : Fate

abbrev pub no_packets : {Waiter : Type 0} → RawState Waiter
no_packets = record { pq = []; on_data_receive = [] }

-- The packet of a received segment, and its ends.
abbrev pub packet_of : TcpHeader → Ipv4Packet → TcpPacket
packet_of tcph pkt_in = record {
  proto = proto_tcp;
  remote_ep = record { addrv4 = pkt_in.src_addrv4; addrv4_port = tcph.src_port };
  local_ep = record { addrv4 = pkt_in.dst_addrv4; addrv4_port = tcph.dst_port };
  skb = pkt_in.skb;
}

abbrev pub ends_of : TcpHeader → Ipv4Packet → TwoEnds
ends_of tcph pkt_in = record {
  remote_ep = (packet_of tcph pkt_in).remote_ep;
  local_ep = (packet_of tcph pkt_in).local_ep;
}

module _ {Waiter Cb : Type 0} where
  pub rule_insert_front : (Endpoint → Endpoint → Bool) → Cb → Tcp Waiter Cb → Tcp Waiter Cb
  rule_insert_front matcher cb t = record t {
    rules = (record { matcher = matcher; cb = cb }) ∷ t.rules;
  }

  pub rule_insert_back : (Endpoint → Endpoint → Bool) → Cb → Tcp Waiter Cb → Tcp Waiter Cb
  rule_insert_back matcher cb t = record t {
    rules = t.rules ++ (record { matcher = matcher; cb = cb }) ∷ [];
  }

  -- `none` where the code throws.
  pub attach : TwoEnds → Tcp Waiter Cb → Option (Tcp Waiter Cb)
  attach key t = elim (States.find key t.rcv_raw_states) [
    | none ↦ some (record t { rcv_raw_states = States.assign key no_packets t.rcv_raw_states })
    | some state ↦ none
  ]

  pub detach : TwoEnds → Tcp Waiter Cb → Tcp Waiter Cb
  detach key t = record t { rcv_raw_states = States.erase key t.rcv_raw_states }

  abbrev pub set_state : TwoEnds → RawState Waiter → Tcp Waiter Cb → Tcp Waiter Cb
  set_state key state t = record t { rcv_raw_states = States.assign key state t.rcv_raw_states }

  unfoldable pub wait_at : TwoEnds → Waiter → RawState Waiter → Tcp Waiter Cb → Tcp Waiter Cb
  wait_at two_end cb state t = elim state.pq [
    | [] ↦ set_state two_end (record state { on_data_receive = state.on_data_receive ++ cb ∷ [] }) t
    | tcp_pkt ∷ rest ↦ record (set_state two_end (record state { pq = rest }) t) {
      posted = t.posted ++ (cb, tcp_pkt) ∷ [];
    }
  ]

  -- `none` where the code throws.
  unfoldable pub async_wait : TwoEnds → Waiter → Tcp Waiter Cb → Option (Tcp Waiter Cb)
  unfolding wait_at
  async_wait two_end cb t = elim (States.find two_end t.rcv_raw_states) [
    | none ↦ none
    | some state ↦ some (wait_at two_end cb state t)
  ]

  pub async_write : ℕ → TcpPacket → ℕ → Tcp Waiter Cb → Result (Tcp Waiter Cb)
  unfolding process
  async_write base pkt cb t = do
    lower ← process base pkt t.lower
    ok (record t { lower = lower; wrote = t.wrote ++ cb ∷ [] })

  -- A packet of an attached pair goes to the first callback that waits, which is called, or else
  -- into the queue.
  pub receive_at :
      TwoEnds
      → TcpPacket
      → RawState Waiter
      → Tcp Waiter Cb
      → Tcp Waiter Cb × List (Waiter × TcpPacket)
  receive_at two_end tcp_pkt state t = elim state.on_data_receive [
    | [] ↦ (set_state two_end (record state { pq = state.pq ++ tcp_pkt ∷ [] }) t, [])
    | cb ∷ rest ↦
        (set_state two_end (record state { on_data_receive = rest }) t, (cb, tcp_pkt) ∷ [])
  ]

  -- `erase(it)`: the callback may have erased the entry itself.
  pub erase_at : TwoEnds → Tcp Waiter Cb → Result (Tcp Waiter Cb)
  unfolding detach
  erase_at two_end t = elim (States.find two_end t.rcv_raw_states) [
    | none ↦ fault dangling
    | some state ↦ ok (detach two_end t)
  ]

  module _ (intercept : Cb → TwoEnds → Tcp Waiter Cb → Bool × Tcp Waiter Cb) where
    -- The rules that are left after a callback threw: a second one that matches uses the iterator
    -- that was erased, as a hint.
    pub after_throw : List (Rule Cb) → TwoEnds → Tcp Waiter Cb → Result (Tcp Waiter Cb × Fate)
    after_throw [] two_end t = ok (t, passed_empty)
    after_throw (rule ∷ rules) two_end t =
        let rest = after_throw rules two_end t in
        if rule.matcher two_end.remote_ep two_end.local_ep then fault dangling else rest

    -- The callbacks do not change the rules, so the loop is on the list that it started with.
    pub try_rules :
        List (Rule Cb) → TwoEnds → TcpPacket → Tcp Waiter Cb → Result (Tcp Waiter Cb × Fate)
    unfolding after_throw erase_at
    try_rules [] two_end tcp_pkt t = ok (t, passed tcp_pkt)
    try_rules (rule ∷ rules) two_end tcp_pkt t =
        let rest = try_rules rules two_end tcp_pkt t in
        let (returned, t1) =
          intercept rule.cb two_end
            (set_state two_end (record { pq = tcp_pkt ∷ []; on_data_receive = [] }) t) in
        if rule.matcher two_end.remote_ep two_end.local_ep
        then (if returned
            then ok (t1, kept)
            else (do t2 ← erase_at two_end t1; after_throw rules two_end t2))
        else rest

    -- What the two ends decide about a packet.
    pub deliver :
        TwoEnds
        → TcpPacket
        → Tcp Waiter Cb
        → Result (Tcp Waiter Cb × List (Waiter × TcpPacket) × Fate)
    unfolding receive_at try_rules
    deliver two_end tcp_pkt t = elim (States.find two_end t.rcv_raw_states) [
      | some state ↦ (let (t1, calls) = receive_at two_end tcp_pkt state t in ok (t1, calls, kept))
      | none ↦ (do (t1, fate) ← try_rules t.rules two_end tcp_pkt t; ok (t1, [], fate))
    ]

    pub make_packet :
        Ipv4Packet → Tcp Waiter Cb → Result (Tcp Waiter Cb × List (Waiter × TcpPacket) × Fate)
    unfolding deliver
    make_packet pkt_in t = do
      tcph ← TcpHeader.consume (payload pkt_in.skb)
      deliver (ends_of tcph pkt_in) (packet_of tcph pkt_in) t
