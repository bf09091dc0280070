-- ===== src/Arp/Resolve.antt =====
-- An unknown address is asked for, and a reply calls those who wait.
use mstack_cpp.Base.{
  ℕ, ◌^◌, ◌<◌, ◌≡◌, refl, ◌∙◌, ap, List, [], ◌∷◌, ◌++◌, map, arith, false, ◌||◌, Option, none, some,
  ok,
}
use mstack_cpp.AddrMap
use mstack_cpp.Skbuff.{Skbuff, fresh, payload, store_head}
use mstack_cpp.Skbuff.Laws.{IsValid, skbuff_lem, payload-store_head, length-fresh}
use mstack_cpp.MacAddr.{MacAddr, broadcast_mac, is_broadcast, is_zero}
use mstack_cpp.MacAddr.Laws.{IsMac}
use mstack_cpp.ArpHeader
use mstack_cpp.ArpHeader.{ArpHeader}
use mstack_cpp.ArpHeader.Roundtrip.{Fits, length-produce, consume-produce_arp}
use mstack_cpp.NeighCache
use mstack_cpp.Packets.{EthernetFrame}
use mstack_cpp.Protocol.{enqueue}
use mstack_cpp.Arp.{
  Arp, proto_arp, request_header, update, process_reply, async_request, async_resolve, on_reply_at,
  process,
}
use mstack_cpp.Arp.Laws.{update-cache, query-update_learnt, on_reply_at-assign, process-reply}

-- The frame that asks for an address.
abbrev asking : (ℕ → ℕ) → MacAddr → ℕ → ℕ → Option ℕ → EthernetFrame
asking junk from_mac from_ipv4 to dev = record {
  src_mac_addr = from_mac;
  dst_mac_addr = broadcast_mac;
  proto = proto_arp;
  skb =
      store_head (ArpHeader.produce (request_header (from_mac, from_ipv4) to))
        (record { buf = fresh junk 42; capacity = 42; head = 14; tail = 42 });
  dev = dev;
}

module _ {Waiter : Type 0} (junk : ℕ → ℕ) (from_mac : MacAddr) (from_ipv4 to : ℕ) (dev : Option ℕ)
    (cb : Waiter) (b : Arp Waiter) where
  -- The state after the request.
  abbrev waiting : Arp Waiter
  waiting = record b {
    on_replies = AddrMap.assign to (on_reply_at to b ++ cb ∷ []) b.on_replies;
    lower = enqueue (asking junk from_mac from_ipv4 to dev) b.lower;
  }

  async_resolve-unknown :
      NeighCache.query to b.arp_cache ≡ none
      → async_resolve junk from_mac from_ipv4 to dev cb b ≡ ok waiting
  unfolding async_resolve async_request
  async_resolve-unknown unknown =
      rw (async_resolve, unknown, skbuff_lem (fresh junk 42) 42 14 (omega arith)) refl

  on_reply_at-waiting : on_reply_at to waiting ≡ on_reply_at to b ++ cb ∷ []
  unfolding on_reply_at
  on_reply_at-waiting = on_reply_at-assign to to (on_reply_at to b ++ cb ∷ []) b ∙ ground arith

pub async_resolve-known :
    {Waiter : Type 0} (junk : ℕ → ℕ) (from_mac : MacAddr) (from_ipv4 to : ℕ) (dev : Option ℕ)
    (cb : Waiter) (b : Arp Waiter) (mac : MacAddr)
    → NeighCache.query to b.arp_cache ≡ some mac
    → async_resolve junk from_mac from_ipv4 to dev cb b
      ≡ ok (record b { posted = b.posted ++ (cb, mac) ∷ [] })
unfolding async_resolve
async_resolve-known junk from_mac from_ipv4 to dev cb b mac known = rw (async_resolve, known) refl

process_reply_lem :
    {Waiter : Type 0} (h : ArpHeader) (slots : List Waiter) (b : Arp Waiter)
    → on_reply_at h.spa b ≡ slots
    → NeighCache.query h.spa b.arp_cache ≡ none
    → (is_broadcast h.sha || is_zero h.sha) ≡ false
    → (b' : Arp Waiter) × (process_reply h b ≡ (b', map (λ w. (w, h.sha)) slots))
      × (on_reply_at h.spa b' ≡ [])
      × (NeighCache.query h.spa b'.arp_cache ≡ some h.sha)
unfolding process_reply on_reply_at
process_reply_lem {Waiter = Waiter} h slots b waits unknown good =
    let b1 : Arp Waiter = update (h.sha, h.spa) b in
    (
      record b1 { on_replies = AddrMap.assign h.spa [] b1.on_replies },
      ap
          (λ ws. (
            record b1 { on_replies = AddrMap.assign h.spa [] b1.on_replies },
            map (λ w. (w, h.sha)) ws,
          ))
          (ap (λ (c : Arp Waiter). on_reply_at h.spa c) (update-cache (h.sha, h.spa) b) ∙ waits),
      on_reply_at-assign h.spa h.spa [] b1 ∙ ground arith,
      query-update_learnt h.spa h.sha b unknown good,
    )

request-Fits :
    (from_mac : MacAddr) (from_ipv4 to : ℕ)
    → IsMac from_mac
    → from_ipv4 < 2 ^ 32
    → to < 2 ^ 32
    → Fits (request_header (from_mac, from_ipv4) to)
request-Fits from_mac from_ipv4 to mac from_fits to_fits = record {
  htype = omega arith;
  ptype = omega arith;
  hlen = omega arith;
  plen = omega arith;
  oper = omega arith;
  sha = mac;
  spa = from_fits;
  tha = record { size = refl; bytes = ground arith };
  tpa = to_fits;
}

asking-readable :
    (junk : ℕ → ℕ) (from_mac : MacAddr) (from_ipv4 to : ℕ) (dev : Option ℕ)
    → IsMac from_mac
    → from_ipv4 < 2 ^ 32
    → to < 2 ^ 32
    → ArpHeader.consume (payload (asking junk from_mac from_ipv4 to dev).skb)
      ≡ ok (request_header (from_mac, from_ipv4) to)
asking-readable junk from_mac from_ipv4 to dev mac from_fits to_fits =
    let h = request_header (from_mac, from_ipv4) to in
    let f : Fits h = request-Fits from_mac from_ipv4 to mac from_fits to_fits in
    let s : Skbuff = record { buf = fresh junk 42; capacity = 42; head = 14; tail = 42 } in
    ap ArpHeader.consume (
      payload-store_head (ArpHeader.produce h) s
        (record { sized = length-fresh junk 42; ordered = omega arith; inside = omega arith })
        (omega (arith, length-produce h f)))
    ∙ consume-produce_arp h _ f

-- What is asked for.
pub record IsAsking (from_mac : MacAddr) (from_ipv4 to : ℕ) (dev : Option ℕ) (asked : EthernetFrame)
    : Type 0 where
  pub src_mac_addr : asked.src_mac_addr ≡ from_mac
  pub dst_mac_addr : asked.dst_mac_addr ≡ broadcast_mac
  pub proto : asked.proto ≡ proto_arp
  pub same_dev : asked.dev ≡ dev
  pub readable :
      ArpHeader.consume (payload asked.skb) ≡ ok (request_header (from_mac, from_ipv4) to)

-- Where an address is not known, and the own addresses fit, the request for it is broadcast. A valid
-- frame with a reply from the address, whose fields fit and whose link address is neither the
-- broadcast nor the zero address, then calls each
-- callback that waits for the address once, in the order of their requests, the last one included;
-- afterwards nobody waits for the address, and the cache has it.
pub async_resolve-process_reply :
    {Waiter : Type 0} (junk : ℕ → ℕ) (from_mac : MacAddr) (from_ipv4 : ℕ) (dev : Option ℕ)
    (cb : Waiter) (b : Arp Waiter) (h : ArpHeader) (rest : List ℕ) (frame : EthernetFrame)
    → IsMac from_mac
    → from_ipv4 < 2 ^ 32
    → NeighCache.query h.spa b.arp_cache ≡ none
    → Fits h
    → IsValid frame.skb
    → payload frame.skb ≡ ArpHeader.produce h ++ rest
    → h.htype ≡ 1
    → h.ptype ≡ 0x0800
    → h.oper ≡ 2
    → (is_broadcast h.sha || is_zero h.sha) ≡ false
    → (asked : EthernetFrame) × (b1 b2 : Arp Waiter) × (async_resolve junk from_mac from_ipv4 h.spa
          dev cb b
        ≡ ok b1)
      × (b1.lower ≡ enqueue asked b.lower)
      × IsAsking from_mac from_ipv4 h.spa dev asked
      × (process frame b1 ≡ ok (b2, map (λ w. (w, h.sha)) (on_reply_at h.spa b ++ cb ∷ [])))
      × (on_reply_at h.spa b2 ≡ [])
      × (NeighCache.query h.spa b2.arp_cache ≡ some h.sha)
async_resolve-process_reply junk from_mac from_ipv4 dev cb b h rest frame mac from_fits unknown f v
      p ht pt op good =
    let asked = asking junk from_mac from_ipv4 h.spa dev in
    let b1 = waiting junk from_mac from_ipv4 h.spa dev cb b in
    let (b2, e, none_left, known) =
      process_reply_lem h (on_reply_at h.spa b ++ cb ∷ []) b1
        (on_reply_at-waiting junk from_mac from_ipv4 h.spa dev cb b) unknown good in
    (
      asked,
      b1,
      b2,
      async_resolve-unknown junk from_mac from_ipv4 h.spa dev cb b unknown,
      refl,
      record {
        src_mac_addr = refl;
        dst_mac_addr = refl;
        proto = refl;
        same_dev = refl;
        readable = asking-readable junk from_mac from_ipv4 h.spa dev mac from_fits f.spa;
      },
      process-reply h rest frame b1 f v p ht pt op ∙ ap ok e,
      none_left,
      known,
    )
