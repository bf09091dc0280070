-- ===== src/Icmp/Laws.antt =====
-- The answer to an echo request.
use mathlib.Core.Path.{subst}
use mstack_cpp.Base.{
  ℕ, ◌+◌, ◌-◌, ◌%◌, ◌^◌, ◌≤◌, ◌<◌, ◌≡◌, refl, ◌∙◌, ap, sym, List, [], ◌∷◌, ◌++◌, append_assoc,
  append-nil, arith, ok, ltb, false, length, length-append, All-append,
}
use mstack_cpp.Wire.{to_bytes, ntoh, produce_to_net, checksum}
use mstack_cpp.Wire.Roundtrip.{IsBytes, length-produce_to_net, produce_to_net-IsBytes}
use mstack_cpp.Wire.Patch.{Verifies, chsum_bytes, chsum_zero, ntoh-lt}
use mstack_cpp.Skbuff.{payload, store_head, store_off}
use mstack_cpp.Skbuff.Laws.{IsValid, popped}
use mstack_cpp.Skbuff.Stores.{
  pushed, push_front_lem, payload-push_store, push_store-IsValid, pop_header,
}
use mstack_cpp.Skbuff.Chsum.{store_checksum}
use mstack_cpp.IcmpHeader
use mstack_cpp.IcmpHeader.{IcmpHeader}
use mstack_cpp.IcmpHeader.Roundtrip.{
  Fits, consume-produce_icmp, produce-split, front, back, length-produce,
}
use mstack_cpp.Packets.{Ipv4Packet}
use mstack_cpp.Protocol.{Lower, enqueue}
use mstack_cpp.Icmp.{size, chsum_off, reply_header, async_reply, process}

-- The reply with its checksum, as a reader loads it.
abbrev pub replied : IcmpHeader → ℕ → IcmpHeader
replied h c = record (reply_header h) { chsum = ntoh 2 c }

module _ (h : IcmpHeader) (rest : List ℕ) where
  -- What stands behind the checksum of the reply.
  abbrev behind : List ℕ
  behind = back (reply_header h) ++ rest

  -- The reply as it is written first, with a checksum of 0.
  cleared : IcmpHeader.produce (reply_header h) ++ rest ≡ front (reply_header h) ++ (0 ∷ 0 ∷ behind)
  cleared =
      ap (λ ys. ys ++ rest) (produce-split (reply_header h))
      ∙ append_assoc (front (reply_header h)) (produce_to_net 2 0 ++ back (reply_header h)) rest
      ∙ ap (λ zs. front (reply_header h) ++ ((zs ++ back (reply_header h)) ++ rest)) chsum_zero

  completed :
      (c : ℕ)
      → c < 2 ^ 16
      → front (reply_header h) ++ (to_bytes 2 c ++ behind)
        ≡ IcmpHeader.produce (replied h c) ++ rest
  completed c small = sym (
      ap (λ ys. ys ++ rest) (produce-split (replied h c))
      ∙ append_assoc (front (reply_header h)) (produce_to_net 2 (ntoh 2 c) ++ back (reply_header h))
          rest
      ∙ ap (λ ys. front (reply_header h) ++ ys)
          (append_assoc (produce_to_net 2 (ntoh 2 c)) (back (reply_header h)) rest
            ∙ ap (λ zs. zs ++ behind) (chsum_bytes c small)))

  length-front : length (front (reply_header h)) ≡ 2
  length-front =
      omega
        (arith, length-append (produce_to_net 1 0) (produce_to_net 1 0), length-produce_to_net 1 0)

  reply-IsBytes : IsBytes rest → IsBytes (front (reply_header h) ++ (0 ∷ 0 ∷ behind))
  reply-IsBytes b =
      All-append (λ b. b < 256) (front (reply_header h)) (0 ∷ 0 ∷ behind)
        (All-append (λ b. b < 256) (produce_to_net 1 0) (produce_to_net 1 0)
          (produce_to_net-IsBytes 1 0) (produce_to_net-IsBytes 1 0))
        (
          omega arith,
          (
            omega arith,
            All-append (λ b. b < 256) (back (reply_header h)) rest
                (All-append (λ b. b < 256) (produce_to_net 2 h.id) (produce_to_net 2 h.seq)
                  (produce_to_net-IsBytes 2 h.id) (produce_to_net-IsBytes 2 h.seq))
                b,
          ),
        )

  length-cleared : length (front (reply_header h) ++ (0 ∷ 0 ∷ behind)) ≡ 8 + length rest
  length-cleared = omega (
    arith,
    ap length cleared,
    length-append (IcmpHeader.produce (reply_header h)) rest,
    length-produce (reply_header h),
  )

-- What the reply is: the addresses are exchanged, the identifier, the sequence number and the data
-- are those of the request, and the checksum verifies.
pub record IsReply (h : IcmpHeader) (rest : List ℕ) (request reply : Ipv4Packet) : Type 0 where
  pub chsum : ℕ
  pub src_addrv4 : reply.src_addrv4 ≡ request.dst_addrv4
  pub dst_addrv4 : reply.dst_addrv4 ≡ request.src_addrv4
  pub proto : reply.proto ≡ request.proto
  pub bytes : payload reply.skb ≡ IcmpHeader.produce (replied h chsum) ++ rest
  pub readable : IcmpHeader.consume (payload reply.skb) ≡ ok (replied h chsum)
  pub verifies : Verifies (payload reply.skb)
  pub valid : IsValid reply.skb

async_reply-IsReply :
    (base : ℕ) (h : IcmpHeader) (rest : List ℕ) (pkt : Ipv4Packet) (lower : Lower Ipv4Packet)
    → Fits h
    → IsValid pkt.skb
    → payload pkt.skb ≡ rest
    → size ≤ pkt.skb.head
    → (base + (pkt.skb.head - size)) % 2 ≡ 0
    → IsBytes rest
    → 8 + length rest < 2 ^ 16
    → (reply : Ipv4Packet) × (async_reply base h pkt lower ≡ ok (enqueue reply lower))
      × IsReply h rest pkt reply
      × (reply.skb.head ≡ pkt.skb.head - size)
unfolding async_reply store_head store_off
async_reply-IsReply base h rest pkt lower f v p room even b short =
    let header = IcmpHeader.produce (reply_header h) in
    let s = store_head header (pushed size pkt.skb) in
    let w = push_store-IsValid header size pkt.skb v (length-produce (reply_header h)) room in
    let shape : payload s ≡ front (reply_header h) ++ (0 ∷ 0 ∷ behind h rest) =
      payload-push_store header size pkt.skb v (length-produce (reply_header h)) room
      ∙ ap (λ ys. header ++ ys) p
      ∙ cleared h rest in
    let (c, st) =
      store_checksum (base + s.head) chsum_off (front (reply_header h)) (behind h rest) [] s even
        refl (length-front h rest) (reply-IsBytes h rest b) (omega (arith, length-cleared h rest)) w
        (shape ∙ sym (append-nil _)) in
    let bytes : payload (store_off chsum_off (to_bytes 2 c) s)
        ≡ IcmpHeader.produce (replied h c) ++ rest =
      st.bytes ∙ append-nil _ ∙ completed h rest c st.small in
    let open_room : ltb pkt.skb.head size ≡ false = ground arith in
    let sum : checksum (base + s.head) (payload s) 0 ≡ ok c =
      ap (λ ys. checksum (base + s.head) ys 0) shape ∙ st.sum in
    (
      _,
      rw (open_room, push_front_lem size pkt.skb room, sum) refl,
      record {
        chsum = c;
        src_addrv4 = refl;
        dst_addrv4 = refl;
        proto = refl;
        bytes = bytes;
        readable =
            ap IcmpHeader.consume bytes
            ∙ consume-produce_icmp (replied h c) rest (ground (arith, ntoh-lt c));
        verifies = subst Verifies (completed h rest c st.small ∙ sym bytes) st.verifies;
        valid = st.valid;
      },
      refl,
    )

-- A readable echo request of fewer than 2 ^ 16 bytes, with a valid buffer at an even address, is
-- answered by one packet with the addresses exchanged, the identifier, the sequence number and the
-- data of the request, and a checksum that verifies; the reply starts where the request did.
pub process-IsReply :
    (base : ℕ) (h : IcmpHeader) (rest : List ℕ) (pkt : Ipv4Packet) (lower : Lower Ipv4Packet)
    → Fits h
    → h.proto_type ≡ 8
    → IsValid pkt.skb
    → payload pkt.skb ≡ IcmpHeader.produce h ++ rest
    → (base + pkt.skb.head) % 2 ≡ 0
    → IsBytes rest
    → 8 + length rest < 2 ^ 16
    → (reply : Ipv4Packet) × (process base pkt lower ≡ ok (enqueue reply lower))
      × IsReply h rest pkt reply
      × (reply.skb.head ≡ pkt.skb.head)
unfolding process
process-IsReply base h rest pkt lower f echo v p even b short =
    let off = pop_header size (IcmpHeader.produce h) rest pkt.skb v (length-produce h) p in
    let long : ltb (length (payload pkt.skb)) size ≡ false =
      ground (arith, ap length p, length-append (IcmpHeader.produce h) rest, length-produce h) in
    let read : IcmpHeader.consume (payload pkt.skb) ≡ ok h =
      ap IcmpHeader.consume p ∙ consume-produce_icmp h rest f in
    let (reply, e, r, room) =
      async_reply-IsReply base h rest (record pkt { skb = popped size pkt.skb }) lower f off.valid
        off.behind (omega arith) (omega (arith, even)) b short in
    (
      reply,
      rw (long, read, off.pops) (simp (echo) e),
      record {
        chsum = r.chsum;
        src_addrv4 = r.src_addrv4;
        dst_addrv4 = r.dst_addrv4;
        proto = r.proto;
        bytes = r.bytes;
        readable = r.readable;
        verifies = r.verifies;
        valid = r.valid;
      },
      omega (arith, room),
    )
