-- ===== src/Arp/Answer.antt =====
-- A request for a known address is answered.
use mstack_cpp.Base.{ℕ, ◌≡◌, refl, ◌∙◌, ap, List, [], ◌++◌, arith, some, ok, ◌>>=◌, ◌≤◌}
use mstack_cpp.Skbuff.{Skbuff, payload, store_head}
use mstack_cpp.Skbuff.Laws.{IsValid, popped}
use mstack_cpp.Skbuff.Stores.{
  pushed, push_front_lem, pop_header, payload-push_store, push_store-IsValid,
}
use mstack_cpp.MacAddr.{MacAddr}
use mstack_cpp.MacAddr.Laws.{IsMac}
use mstack_cpp.ArpHeader
use mstack_cpp.ArpHeader.{ArpHeader}
use mstack_cpp.ArpHeader.Roundtrip.{Fits, length-produce, consume-produce_arp}
use mstack_cpp.NeighCache
use mstack_cpp.Packets.{EthernetFrame}
use mstack_cpp.Protocol.{enqueue}
use mstack_cpp.Arp.{Arp, proto_arp, reply_header, update, async_reply, process_request, process}
use mstack_cpp.Arp.Laws.{update-cache, query-update_known, process-request}

-- What the answer is.
pub record IsAnswer (h : ArpHeader) (tha : MacAddr) (request reply : EthernetFrame) : Type 0 where
  pub src_mac_addr : reply.src_mac_addr ≡ tha
  pub dst_mac_addr : reply.dst_mac_addr ≡ h.sha
  pub proto : reply.proto ≡ proto_arp
  pub dev : reply.dev ≡ request.dev
  pub readable :
      ArpHeader.consume (payload reply.skb) ≡ ok (reply_header (tha, h.tpa) (h.sha, h.spa))
  pub valid : IsValid reply.skb

reply-Fits :
    (h : ArpHeader) (tha : MacAddr)
    → Fits h
    → IsMac tha
    → Fits (reply_header (tha, h.tpa) (h.sha, h.spa))
reply-Fits h tha f mac = record {
  htype = omega arith;
  ptype = omega arith;
  hlen = omega arith;
  plen = omega arith;
  oper = omega arith;
  sha = mac;
  spa = f.tpa;
  tha = f.sha;
  tpa = f.spa;
}

abbrev answer_skb : ArpHeader → MacAddr → Skbuff → Skbuff
answer_skb h tha s =
    store_head (ArpHeader.produce (reply_header (tha, h.tpa) (h.sha, h.spa)))
      (pushed ArpHeader.size s)

answered :
    {Waiter : Type 0} (h : ArpHeader) (tha : MacAddr) (frame : EthernetFrame) (b : Arp Waiter)
    (s : Skbuff)
    → ArpHeader.size ≤ s.head
    → NeighCache.query h.tpa b.arp_cache ≡ some tha
    → process_request h (record frame { skb = s }) b
      ≡ ok (record (update (h.sha, h.spa) b) {
        lower =
            enqueue
              (record {
                src_mac_addr = tha;
                dst_mac_addr = h.sha;
                proto = proto_arp;
                skb = answer_skb h tha s;
                dev = frame.dev;
              })
              b.lower;
      })
unfolding process_request async_reply
answered h tha frame b s room known =
    rw
      (
        process_request,
        query-update_known h.tpa tha (h.sha, h.spa) b known,
        push_front_lem ArpHeader.size s room,
        ap (λ c. c.lower) (update-cache (h.sha, h.spa) b),
      )
      refl

-- A valid frame whose payload is a header of fields that fit, which asks for an address that the
-- cache has with six bytes, and then any bytes, is answered by one frame to the sender, which reads
-- as the reply; nothing else is sent and nobody is called.
pub process-IsAnswer :
    {Waiter : Type 0} (h : ArpHeader) (rest : List ℕ) (tha : MacAddr) (frame : EthernetFrame)
    (b : Arp Waiter)
    → Fits h
    → IsValid frame.skb
    → payload frame.skb ≡ ArpHeader.produce h ++ rest
    → h.htype ≡ 1
    → h.ptype ≡ 0x0800
    → h.oper ≡ 1
    → NeighCache.query h.tpa b.arp_cache ≡ some tha
    → IsMac tha
    → (reply : EthernetFrame) × (process frame b
        ≡ ok (record (update (h.sha, h.spa) b) { lower = enqueue reply b.lower }, []))
      × IsAnswer h tha frame reply
process-IsAnswer h rest tha frame b f v p ht pt op known mac =
    let s = popped ArpHeader.size frame.skb in
    let off =
      pop_header ArpHeader.size (ArpHeader.produce h) rest frame.skb v (length-produce h f) p in
    let out = reply_header (tha, h.tpa) (h.sha, h.spa) in
    let fits : Fits out = reply-Fits h tha f mac in
    let room : ArpHeader.size ≤ s.head = omega arith in
    (
      _,
      process-request h rest frame b f v p ht pt op
          ∙ ap (λ r. r >>= λ b1. ok (b1, [])) (answered h tha frame b s room known),
      record {
        src_mac_addr = refl;
        dst_mac_addr = refl;
        proto = refl;
        dev = refl;
        readable =
            ap ArpHeader.consume (
              payload-push_store (ArpHeader.produce out) ArpHeader.size s off.valid
                (length-produce out fits) room)
            ∙ consume-produce_arp out (payload s) fits;
        valid =
            push_store-IsValid (ArpHeader.produce out) ArpHeader.size s off.valid
              (length-produce out fits) room;
      },
    )
