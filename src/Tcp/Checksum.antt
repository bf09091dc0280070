-- ===== src/Tcp/Checksum.antt =====
-- The checksum over the pseudo header and the segment.
use mathlib.Core.Path.{subst}
use mstack_cpp.Base.{
  ℕ, ◌+◌, ◌-◌, ◌%◌, ◌^◌, ◌≤◌, ◌<◌, ◌≡◌, refl, ◌∙◌, ap, sym, List, [], ◌∷◌, ◌++◌, append_assoc,
  arith, All-append, ok, ltb, false, length, length-append, u16,
}
use mstack_cpp.Wire.{to_bytes, hton, checksum}
use mstack_cpp.Wire.Roundtrip.{IsBytes, to_bytes-IsBytes, length-to_bytes}
use mstack_cpp.Wire.Patch.{Verifies, checksum-stored}
use mstack_cpp.Skbuff.{Skbuff, payload, store_head, store_off}
use mstack_cpp.Skbuff.Laws.{IsValid, popped, length-payload}
use mstack_cpp.Skbuff.Stores.{
  pushed, push_front_lem, payload-push_store, push_store-IsValid, pop_header, patch, patch-at,
  payload-store_off, store_off-IsValid,
}
use mstack_cpp.Endpoint.{TcpPacket}
use mstack_cpp.TcpHeader
use mstack_cpp.Tcp.{pseudo_size, chsum_off, pseudo_header, segment}

length-pseudo_header : (pkt : TcpPacket) → length (pseudo_header pkt) ≡ pseudo_size
unfolding pseudo_header
length-pseudo_header pkt = simp (length-append, length-to_bytes)

bytes_then : (w v : ℕ) (bs : List ℕ) → IsBytes bs → IsBytes (to_bytes w v ++ bs)
bytes_then w v bs b = All-append (λ b. b < 256) (to_bytes w v) bs (to_bytes-IsBytes w v) b

pseudo_header-IsBytes : (pkt : TcpPacket) → IsBytes (pseudo_header pkt)
unfolding pseudo_header
pseudo_header-IsBytes pkt = bytes_then 4 (hton 4 pkt.local_ep.addrv4) _ (
    bytes_then 4 (hton 4 pkt.remote_ep.addrv4) _ (
      bytes_then 1 0 _
        (bytes_then 1 pkt.proto _ (to_bytes-IsBytes 2 (hton 2 (u16 (length (payload pkt.skb))))))))

-- What `segment` gives: the checksum is stored, and nothing else changes.
pub record Summed (pkt : TcpPacket) (front back : List ℕ) (skb : Skbuff) : Type 0 where
  pub chsum : ℕ
  pub fits : chsum < 2 ^ 16
  pub bytes : payload skb ≡ front ++ (to_bytes 2 chsum ++ back)
  pub verifies : Verifies (pseudo_header pkt ++ payload skb)
  pub valid : IsValid skb
  pub room : skb.head ≡ pkt.skb.head

pub segment-Summed :
    (base : ℕ) (pkt : TcpPacket) (front old back : List ℕ)
    → IsValid pkt.skb
    → payload pkt.skb ≡ front ++ (old ++ back)
    → length front ≡ chsum_off
    → length old ≡ 2
    → TcpHeader.fixed_size ≤ length (payload pkt.skb)
    → pseudo_size ≤ pkt.skb.head
    → (base + (pkt.skb.head - pseudo_size)) % 2 ≡ 0
    → IsBytes front
    → IsBytes back
    → length (payload pkt.skb) + pseudo_size < 2 ^ 16
    → (skb : Skbuff) × (segment base pkt ≡ ok skb) × Summed pkt front back skb
unfolding segment store_head store_off
segment-Summed base pkt front old back v p len two whole_header room even bf bb short =
    let pseudo = pseudo_header pkt in
    let zeros : List ℕ = 0 ∷ 0 ∷ [] in
    let inside : pkt.skb.head + chsum_off + 2 ≤ pkt.skb.tail =
      omega (arith, length-payload pkt.skb v) in
    let s1 = store_off chsum_off zeros pkt.skb in
    let v1 : IsValid s1 = store_off-IsValid chsum_off zeros pkt.skb v inside in
    let p1 : payload s1 ≡ front ++ (zeros ++ back) =
      payload-store_off chsum_off zeros pkt.skb v inside
      ∙ ap (λ ys. patch chsum_off zeros ys) p
      ∙ patch-at chsum_off zeros old front back len two in
    let s3 = store_head pseudo (pushed pseudo_size s1) in
    let v3 : IsValid s3 =
      push_store-IsValid pseudo pseudo_size s1 v1 (length-pseudo_header pkt) room in
    let p3 : payload s3 ≡ pseudo ++ payload s1 =
      payload-push_store pseudo pseudo_size s1 v1 (length-pseudo_header pkt) room in
    let off = pop_header pseudo_size pseudo (payload s1) s3 v3 (length-pseudo_header pkt) p3 in
    let before : payload s3 ≡ (pseudo ++ front) ++ (zeros ++ back) =
      p3 ∙ ap (λ ys. pseudo ++ ys) p1 ∙ sym (append_assoc pseudo front (zeros ++ back)) in
    let (c, e, small, sum) =
      checksum-stored (base + s3.head) (pseudo ++ front) back even
        (omega (arith, length-append pseudo front, length-pseudo_header pkt, len))
        (All-append (λ b. b < 256) (pseudo ++ front) (zeros ++ back)
          (All-append (λ b. b < 256) pseudo front (pseudo_header-IsBytes pkt) bf)
          (omega arith, (omega arith, bb)))
        (omega (
          arith,
          ap length before,
          length-append pseudo (payload s1),
          ap length p3,
          length-pseudo_header pkt,
          ap length p1,
          ap length p,
          length-append front (zeros ++ back),
          length-append front (old ++ back),
          length-append old back,
          two,
        )) in
    let s4 = popped pseudo_size s3 in
    let p4 : payload s4 ≡ front ++ (zeros ++ back) = off.behind ∙ p1 in
    let bs = to_bytes 2 c in
    let inside4 : s4.head + chsum_off + length bs ≤ s4.tail =
      omega (arith, inside, length-to_bytes 2 c) in
    let done : payload (store_off chsum_off bs s4) ≡ front ++ (bs ++ back) =
      payload-store_off chsum_off bs s4 off.valid inside4
      ∙ ap (λ ys. patch chsum_off bs ys) p4
      ∙ patch-at chsum_off bs zeros front back len (sym (length-to_bytes 2 c)) in
    let long : ltb (length (payload pkt.skb)) TcpHeader.fixed_size ≡ false = ground arith in
    let open_room : ltb pkt.skb.head pseudo_size ≡ false = ground arith in
    (
      _,
      rw
          (
            long,
            open_room,
            push_front_lem pseudo_size s1 room,
            ap (λ ys. checksum (base + s3.head) ys 0) before ∙ e,
            off.pops,
          )
          refl,
      record {
        chsum = c;
        fits = small;
        bytes = done;
        verifies =
            subst Verifies
              (append_assoc pseudo front (bs ++ back) ∙ ap (λ ys. pseudo ++ ys) (sym done)) sum;
        valid = store_off-IsValid chsum_off bs s4 off.valid inside4;
        room = omega arith;
      },
    )
