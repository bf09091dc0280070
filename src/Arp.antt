-- ===== src/Arp.antt =====
-- mstack/mstack/arp.cpp. `Waiter` stands for the callbacks of `async_resolve`, and `junk` for what
-- new memory holds. A load behind the payload is an access out of bounds.
pub mod Laws
pub mod Answer
pub mod Resolve
use mstack_cpp.Base.{
  ℕ, ◌+◌, List, [], ◌∷◌, ◌++◌, map, ◌==◌, ◌&&◌, ◌||◌, if◌then◌else◌, Option, none, some, Result, ok,
  ◌>>=◌,
}
use mstack_cpp.Skbuff.{Skbuff, skbuff, fresh, payload, pop_front, push_front, store_head}
use mstack_cpp.AddrMap
use mstack_cpp.AddrMap.{AddrMap}
use mstack_cpp.MacAddr.{MacAddr, zero_mac, broadcast_mac, is_broadcast, is_zero}
use mstack_cpp.ArpHeader
use mstack_cpp.ArpHeader.{ArpHeader}
use mstack_cpp.EthernetHeader
use mstack_cpp.NeighCache
use mstack_cpp.NeighCache.{NeighCache}
use mstack_cpp.Packets.{EthernetFrame}
use mstack_cpp.Protocol.{Lower, enqueue}

abbrev pub proto_arp : ℕ
proto_arp = 0x0806

-- The slots of a signal are called in the order of their connection. `posted` has the callbacks that
-- a task will call, each with its address.
pub record Arp (Waiter : Type 0) : Type 0 where
  pub arp_cache : NeighCache
  pub on_replies : AddrMap (List Waiter)
  pub posted : List (Waiter × MacAddr)
  pub lower : Lower EthernetFrame

-- The calls that a handler makes, in order.
abbrev pub Calls : Type 0 → Type 0
Calls Waiter = List (Waiter × MacAddr)

abbrev pub reply_header : MacAddr × ℕ → MacAddr × ℕ → ArpHeader
reply_header from to = record {
  htype = 0x0001;
  ptype = 0x0800;
  hlen = 0x06;
  plen = 0x04;
  oper = 0x0002;
  sha = from.0;
  spa = from.1;
  tha = to.0;
  tpa = to.1;
}

abbrev pub request_header : MacAddr × ℕ → ℕ → ArpHeader
request_header from to = record {
  htype = 0x0001;
  ptype = 0x0800;
  hlen = 0x06;
  plen = 0x04;
  oper = 0x0001;
  sha = from.0;
  spa = from.1;
  tha = zero_mac;
  tpa = to;
}

pub update : {Waiter : Type 0} → MacAddr × ℕ → Arp Waiter → Arp Waiter
update peer b =
    if is_broadcast peer.0 || is_zero peer.0
    then b
    else record b { arp_cache = NeighCache.update (peer.1, peer.0) b.arp_cache }

pub async_reply :
    {Waiter : Type 0} → MacAddr × ℕ → MacAddr × ℕ → EthernetFrame → Arp Waiter → Result (Arp Waiter)
async_reply from to in_frame b = do
  skb ← push_front ArpHeader.size in_frame.skb
  let out_buffer = store_head (ArpHeader.produce (reply_header from to)) skb
  ok (record b {
    lower =
        enqueue
          (record {
            src_mac_addr = from.0;
            dst_mac_addr = to.0;
            proto = proto_arp;
            skb = out_buffer;
            dev = in_frame.dev;
          })
          b.lower;
  })

pub process_request :
    {Waiter : Type 0} → ArpHeader → EthernetFrame → Arp Waiter → Result (Arp Waiter)
unfolding update async_reply
process_request in_arp in_frame b =
    let b1 = update (in_arp.sha, in_arp.spa) b in
    elim (NeighCache.query in_arp.tpa b1.arp_cache) [
      | none ↦ ok b1
      | some tha ↦ async_reply (tha, in_arp.tpa) (in_arp.sha, in_arp.spa) in_frame b1
    ]

pub async_request :
    {Waiter : Type 0} → (ℕ → ℕ) → MacAddr × ℕ → ℕ → Option ℕ → Arp Waiter → Result (Arp Waiter)
async_request junk from to dev b =
    let room = EthernetHeader.size + ArpHeader.size in
    do
      skb ← skbuff (fresh junk room) room EthernetHeader.size
      let skb_out = store_head (ArpHeader.produce (request_header from to)) skb
      ok (record b {
        lower =
            enqueue
              (record {
                src_mac_addr = from.0;
                dst_mac_addr = broadcast_mac;
                proto = proto_arp;
                skb = skb_out;
                dev = dev;
              })
              b.lower;
      })

-- `on_replies_[addr]`, which is a signal without slots where there was none.
abbrev pub slots_of : {Waiter : Type 0} → Option (List Waiter) → List Waiter
slots_of none = []
slots_of (some slots) = slots

pub on_reply_at : {Waiter : Type 0} → ℕ → Arp Waiter → List Waiter
on_reply_at addr b = slots_of (AddrMap.find addr b.on_replies)

pub async_resolve :
    {Waiter : Type 0}
    → (ℕ → ℕ)
    → MacAddr
    → ℕ
    → ℕ
    → Option ℕ
    → Waiter
    → Arp Waiter
    → Result (Arp Waiter)
unfolding async_request on_reply_at
async_resolve junk from_mac from_ipv4 to_ipv4 dev cb b =
    elim (NeighCache.query to_ipv4 b.arp_cache) [
      | some mac ↦ ok (record b { posted = b.posted ++ (cb, mac) ∷ [] })
      | none ↦
          async_request junk (from_mac, from_ipv4) to_ipv4 dev
            (record b {
              on_replies = AddrMap.assign to_ipv4 (on_reply_at to_ipv4 b ++ cb ∷ []) b.on_replies;
            })
    ]

pub process_reply : {Waiter : Type 0} → ArpHeader → Arp Waiter → Arp Waiter × Calls Waiter
unfolding update on_reply_at
process_reply in_arp b =
    let b1 = update (in_arp.sha, in_arp.spa) b in
    (
      record b1 { on_replies = AddrMap.assign in_arp.spa [] b1.on_replies },
      map (λ cb. (cb, in_arp.sha)) (on_reply_at in_arp.spa b1),
    )

pub process : {Waiter : Type 0} → EthernetFrame → Arp Waiter → Result (Arp Waiter × Calls Waiter)
unfolding process_request process_reply
process in_frame b = do
  in_arp ← ArpHeader.consume (payload in_frame.skb)
  skb ← pop_front ArpHeader.size in_frame.skb
  if (0x0001 == in_arp.htype) && (0x0800 == in_arp.ptype)
      then (if in_arp.oper == 0x0001
          then (do b1 ← process_request in_arp (record in_frame { skb = skb }) b; ok (b1, []))
          else (if in_arp.oper == 0x0002 then ok (process_reply in_arp b) else ok (b, [])))
      else ok (b, [])
