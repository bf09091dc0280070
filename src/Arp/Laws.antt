-- ===== src/Arp/Laws.antt =====
-- What an update leaves, who waits, and how a frame is read.
use mstack_cpp.Base.{
  ℕ, ◌≡◌, refl, ◌∙◌, ap, List, [], ◌++◌, arith, Bool-cases, inl, inr, false, ==_iff, ◌==◌,
  if◌then◌else◌, ◌||◌, none, some, ok, ◌>>=◌,
}
use mstack_cpp.AddrMap
use mstack_cpp.AddrMap.Laws.{find-assign, or_else}
use mstack_cpp.Skbuff.{payload}
use mstack_cpp.Skbuff.Laws.{IsValid, popped}
use mstack_cpp.Skbuff.Stores.{pop_header}
use mstack_cpp.MacAddr.{MacAddr, is_broadcast, is_zero}
use mstack_cpp.ArpHeader
use mstack_cpp.ArpHeader.{ArpHeader}
use mstack_cpp.ArpHeader.Roundtrip.{Fits, length-produce, consume-produce_arp}
use mstack_cpp.NeighCache
use mstack_cpp.NeighCache.Laws.{query-update}
use mstack_cpp.Packets.{EthernetFrame}
use mstack_cpp.Arp.{Arp, update, process_request, process_reply, on_reply_at, slots_of, process}

-- An update changes the cache only.
abbrev refreshed : {W : Type 0} → MacAddr × ℕ → Arp W → Arp W
refreshed peer b = record b { arp_cache = (update peer b).arp_cache }

module _ {Waiter : Type 0} where
  pub update-cache : (peer : MacAddr × ℕ) (b : Arp Waiter) → update peer b ≡ refreshed peer b
  unfolding update
  update-cache peer b = elim (Bool-cases (is_broadcast peer.0 || is_zero peer.0)) [
    | inl q ↦ rw q refl
    | inr q ↦ rw q refl
  ]

  -- A link address that was known stays.
  pub query-update_known :
      (addr : ℕ) (mac : MacAddr) (peer : MacAddr × ℕ) (b : Arp Waiter)
      → NeighCache.query addr b.arp_cache ≡ some mac
      → NeighCache.query addr (update peer b).arp_cache ≡ some mac
  unfolding update
  query-update_known addr mac peer b k = elim (Bool-cases (is_broadcast peer.0 || is_zero peer.0)) [
    | inl q ↦ rw q k
    | inr q ↦ rw q ((query-update addr peer.1 peer.0 b.arp_cache).0 ∙ kept)
  ]
    where
      kept :
          (if peer.1 == addr
            then some (or_else (NeighCache.query peer.1 b.arp_cache) peer.0)
            else NeighCache.query addr b.arp_cache)
          ≡ some mac
      kept = elim (Bool-cases (peer.1 == addr)) [
        | inl q ↦ rw q (
            ap (λ o. some (or_else o peer.0))
              (ap (λ a. NeighCache.query a b.arp_cache) (omega (arith, (==_iff peer.1 addr).0 q))
                ∙ k))
        | inr q ↦ rw q k
      ]

  -- A link address that was not known is learnt, unless it is the broadcast or the zero address.
  pub query-update_learnt :
      (addr : ℕ) (mac : MacAddr) (b : Arp Waiter)
      → NeighCache.query addr b.arp_cache ≡ none
      → (is_broadcast mac || is_zero mac) ≡ false
      → NeighCache.query addr (update (mac, addr) b).arp_cache ≡ some mac
  unfolding update
  query-update_learnt addr mac b k q = rw q (
      (query-update addr addr mac b.arp_cache).0
      ∙ ap (λ o. if addr == addr then some (or_else o mac) else NeighCache.query addr b.arp_cache) k
      ∙ ground arith)

  pub on_reply_at-assign :
      (addr key : ℕ) (slots : List Waiter) (b : Arp Waiter)
      → on_reply_at addr (record b { on_replies = AddrMap.assign key slots b.on_replies })
        ≡ (if key == addr then slots else on_reply_at addr b)
  unfolding on_reply_at
  on_reply_at-assign addr key slots b =
      ap slots_of (find-assign addr key slots b.on_replies)
      ∙ elim (Bool-cases (key == addr)) [ inl q ↦ rw q refl | inr q ↦ rw q refl ]

-- The header of a valid frame is read and taken off.
module _ {Waiter : Type 0} (h : ArpHeader) (rest : List ℕ) (frame : EthernetFrame) (b : Arp Waiter)
    (f : Fits h) (v : IsValid frame.skb) (p : payload frame.skb ≡ ArpHeader.produce h ++ rest) where
  pub process-request :
      h.htype ≡ 1
      → h.ptype ≡ 0x0800
      → h.oper ≡ 1
      → process frame b ≡ (
          process_request h (record frame { skb = popped ArpHeader.size frame.skb }) b >>= λ b1.
          ok (b1, []))
  unfolding process
  process-request ht pt op =
      rw
        (
          ap ArpHeader.consume p ∙ consume-produce_arp h rest f,
          (pop_header ArpHeader.size (ArpHeader.produce h) rest frame.skb v (length-produce h f)
              p).pops,
        )
        (rw (ht, pt, op) refl)

  pub process-reply :
      h.htype ≡ 1 → h.ptype ≡ 0x0800 → h.oper ≡ 2 → process frame b ≡ ok (process_reply h b)
  unfolding process
  process-reply ht pt op =
      rw
        (
          ap ArpHeader.consume p ∙ consume-produce_arp h rest f,
          (pop_header ArpHeader.size (ArpHeader.produce h) rest frame.skb v (length-produce h f)
              p).pops,
        )
        (rw (ht, pt, op) refl)
