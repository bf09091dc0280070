-- ===== src/Tcb/Segment/Parse.antt =====
-- `process` takes apart what `make_packet` puts together.
use mstack_cpp.Base.{
  ℕ, ◌+◌, ◌-◌, ◌*◌, ◌^◌, ◌≡◌, refl, ◌∙◌, ap, List, ◌++◌, arith, ok, u64, take, drop, length,
  length-append, drop-append, take-append,
}
use mstack_cpp.Endpoint.{TcpPacket}
use mstack_cpp.Skbuff.{payload, pop_front}
use mstack_cpp.Skbuff.Laws.{IsValid, length-payload, payload-pop_front, popped, pop_front_lem}
use mstack_cpp.TcpHeader.{TcpHeader, fixed_size}
use mstack_cpp.TcpHeader
use mstack_cpp.TcpHeader.Roundtrip.{Fits, length-produce, consume-produce_header}
use mstack_cpp.Tcb.Segment.{parse}

-- A valid packet whose payload is a header that fits its fields and whose reserved bits are 0, the
-- option bytes, and the text, where `data_offset` is the words of header and options together, is
-- read as just those.
pub parse-produce :
    (pkt : TcpPacket) (h : TcpHeader) (opts segment : List ℕ)
    → IsValid pkt.skb
    → payload pkt.skb ≡ TcpHeader.produce h ++ (opts ++ segment)
    → Fits h
    → h.reserved ≡ 0
    → h.data_offset * 4 ≡ fixed_size + length opts
    → parse pkt ≡ ok (h, opts, segment)
unfolding parse
parse-produce pkt h opts segment v p f r size =
    let s1 = popped fixed_size pkt.skb in
    let s2 = popped (length opts) s1 in
    let long : pkt.skb.tail - pkt.skb.head ≡ fixed_size + (length opts + length segment) = omega (
      arith,
      length-payload pkt.skb v,
      ap length p,
      length-append (TcpHeader.produce h) (opts ++ segment),
      length-append opts segment,
      length-produce h,
    ) in
    let pop1 : pop_front fixed_size pkt.skb ≡ ok s1 =
      pop_front_lem fixed_size pkt.skb (omega (arith, long)) in
    let behind : payload s1 ≡ opts ++ segment =
      payload-pop_front fixed_size pkt.skb s1 pop1
      ∙ ap (drop fixed_size) p
      ∙ drop-append fixed_size (TcpHeader.produce h) (opts ++ segment) (length-produce h) in
    let pop2 : pop_front (length opts) s1 ≡ ok s2 =
      pop_front_lem (length opts) s1 (omega (arith, long)) in
    let last : payload s2 ≡ segment =
      payload-pop_front (length opts) s1 s2 pop2
      ∙ ap (drop (length opts)) behind
      ∙ drop-append (length opts) opts segment refl in
    let front : take (length opts) (payload s1) ≡ opts =
      ap (take (length opts)) behind ∙ take-append (length opts) opts segment refl in
    let read : TcpHeader.consume (payload pkt.skb) ≡ ok h =
      ap TcpHeader.consume p ∙ consume-produce_header h (opts ++ segment) f r in
    let optlen : u64 (h.data_offset * 4 + 2 ^ 64 - fixed_size) ≡ length opts =
      omega (arith, f.data_offset) in
    ground (
      arith,
      long,
      length-payload pkt.skb v,
      pop1,
      pop2,
      last,
      front,
      read,
      optlen,
      ap length behind,
      length-append opts segment,
    )
