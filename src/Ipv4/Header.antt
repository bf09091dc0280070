-- ===== src/Ipv4/Header.antt =====
-- The datagram that is written: its header, with a checksum that verifies, and its data.
use mathlib.Core.Path.{subst}
use mstack_cpp.Base.{
  ℕ, ◌+◌, ◌-◌, ◌%◌, ◌^◌, ◌≤◌, ◌<◌, ◌≡◌, refl, ◌∙◌, ap, sym, ◌∷◌, ◌++◌, arith, All-append, ok, ltb,
  false, length, take, take-append,
}
use mstack_cpp.Wire.{to_bytes, ntoh, produce_to_net, checksum}
use mstack_cpp.Wire.Roundtrip.{IsBytes}
use mstack_cpp.Wire.Patch.{Verifies, chsum_bytes, chsum_zero}
use mstack_cpp.Skbuff.{Skbuff, payload, store_head, store_off}
use mstack_cpp.Skbuff.Laws.{IsValid}
use mstack_cpp.Skbuff.Stores.{pushed, push_front_lem, payload-push_store, push_store-IsValid}
use mstack_cpp.Skbuff.Chsum.{store_checksum}
use mstack_cpp.Ipv4Header
use mstack_cpp.Ipv4Header.{Ipv4Header}
use mstack_cpp.Ipv4Header.Roundtrip.{
  front, back, produce-split, length-front, front-IsBytes, back-IsBytes, length-produce,
}
use mstack_cpp.Packets.{Ipv4Packet}
use mstack_cpp.Ipv4.{size, chsum_off, header_of, datagram}

-- The header with its checksum, as a reader loads it.
abbrev pub checked : ℕ → Ipv4Packet → ℕ → Ipv4Header
checked seq pkt c = record (header_of seq pkt) { header_chsum = ntoh 2 c }

module _ (h : Ipv4Header) where
  -- A header as it is written first, with a checksum of 0.
  cleared : h.header_chsum ≡ 0 → Ipv4Header.produce h ≡ front h ++ (0 ∷ 0 ∷ back h)
  cleared z =
      produce-split h h.header_chsum
      ∙ ap (λ k. front h ++ (produce_to_net 2 k ++ back h)) z
      ∙ ap (λ zs. front h ++ (zs ++ back h)) chsum_zero

  completed :
      (c : ℕ)
      → c < 2 ^ 16
      → front h ++ (to_bytes 2 c ++ back h)
        ≡ Ipv4Header.produce (record h { header_chsum = ntoh 2 c })
  completed c small =
      sym (produce-split h (ntoh 2 c) ∙ ap (λ zs. front h ++ (zs ++ back h)) (chsum_bytes c small))

  cleared-IsBytes : IsBytes (front h ++ (0 ∷ 0 ∷ back h))
  cleared-IsBytes =
      All-append (λ b. b < 256) (front h) (0 ∷ 0 ∷ back h) (front-IsBytes h)
        (omega arith, (omega arith, back-IsBytes h))

-- What `datagram` gives.
pub record Written (seq : ℕ) (pkt : Ipv4Packet) (skb : Skbuff) : Type 0 where
  pub chsum : ℕ
  pub fits : chsum < 2 ^ 16
  pub bytes : payload skb ≡ Ipv4Header.produce (checked seq pkt chsum) ++ payload pkt.skb
  pub verifies : Verifies (take size (payload skb))
  pub valid : IsValid skb
  pub room : skb.head ≡ pkt.skb.head - size

pub datagram-Written :
    (base seq : ℕ) (pkt : Ipv4Packet)
    → IsValid pkt.skb
    → size ≤ pkt.skb.head
    → (base + (pkt.skb.head - size)) % 2 ≡ 0
    → (skb : Skbuff) × (datagram base seq pkt ≡ ok skb) × Written seq pkt skb
unfolding datagram store_head store_off
datagram-Written base seq pkt v room even =
    let h = header_of seq pkt in
    let header = Ipv4Header.produce h in
    let before = front h ++ (0 ∷ 0 ∷ back h) in
    let s = store_head header (pushed size pkt.skb) in
    let shape : payload s ≡ before ++ payload pkt.skb =
      payload-push_store header size pkt.skb v (length-produce h) room
      ∙ ap (λ ys. ys ++ payload pkt.skb) (cleared h refl) in
    let long : length before ≡ size = ap length (sym (cleared h refl)) ∙ length-produce h in
    let (c, st) =
      store_checksum (base + s.head) chsum_off (front h) (back h) (payload pkt.skb) s even refl
        (length-front h) (cleared-IsBytes h) (omega (arith, long))
        (push_store-IsValid header size pkt.skb v (length-produce h) room) shape in
    let sum : checksum (base + s.head) (take size (payload s)) 0 ≡ ok c =
      ap (λ ys. checksum (base + s.head) (take size ys) 0) shape
      ∙ ap (λ ys. checksum (base + s.head) ys 0) (take-append size before (payload pkt.skb) long)
      ∙ st.sum in
    let open_room : ltb pkt.skb.head size ≡ false = ground arith in
    let out = checked seq pkt (ntoh 2 c) in
    let whole = front h ++ (to_bytes 2 c ++ back h) in
    let same : whole ≡ Ipv4Header.produce (checked seq pkt c) = completed h c st.small in
    (
      _,
      rw (open_room, push_front_lem size pkt.skb room, sum) refl,
      record {
        chsum = c;
        fits = st.small;
        bytes = st.bytes ∙ ap (λ ys. ys ++ payload pkt.skb) same;
        verifies =
            subst Verifies
              (sym (
                ap (take size) st.bytes
                ∙ take-append size whole (payload pkt.skb)
                    (ap length same ∙ length-produce (checked seq pkt c))))
              st.verifies;
        valid = st.valid;
        room = refl;
      },
    )
