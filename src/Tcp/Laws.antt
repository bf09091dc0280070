-- ===== src/Tcp/Laws.antt =====
-- A segment that is sent is the segment that is received.
use mstack_cpp.Base.{
  ℕ, ◌+◌, ◌-◌, ◌%◌, ◌^◌, ◌≤◌, ◌<◌, ◌≡◌, refl, ◌∙◌, ap, sym, List, [], ◌∷◌, ◌++◌, append_assoc,
  arith, Bool, false, All, none, ok, length, length-append,
}
use mstack_cpp.Wire.{ntoh, produce_to_net}
use mstack_cpp.Wire.Roundtrip.{IsBytes, length-produce_to_net, produce-IsBytes}
use mstack_cpp.Wire.Patch.{Verifies, chsum_bytes}
use mstack_cpp.Skbuff.{payload}
use mstack_cpp.Skbuff.Laws.{IsValid}
use mstack_cpp.Endpoint.{TwoEnds, TcpPacket}
use mstack_cpp.TcpHeader
use mstack_cpp.TcpHeader.{TcpHeader}
use mstack_cpp.TcpHeader.Roundtrip.{
  Fits, length-produce, consume-produce_header, front, produce-split, length-front, front-IsBytes,
}
use mstack_cpp.Packets.{Ipv4Packet}
use mstack_cpp.Protocol.{Lower, enqueue}
use mstack_cpp.Tcp.{
  Tcp, Rule, passed, pseudo_size, pseudo_header, process_raw, process, try_rules, make_packet,
  deliver, packet_of, ends_of,
}
use mstack_cpp.Tcp.States
use mstack_cpp.Tcp.Checksum.{segment-Summed}

-- What is sent: the checksum of the pseudo header and the segment verifies, and nothing else of the
-- packet changes.
pub record IsSent (h : TcpHeader) (rest : List ℕ) (pkt : TcpPacket) (sent : Ipv4Packet)
    : Type 0 where
  pub chsum : ℕ
  pub src_addrv4 : sent.src_addrv4 ≡ pkt.local_ep.addrv4
  pub dst_addrv4 : sent.dst_addrv4 ≡ pkt.remote_ep.addrv4
  pub proto : sent.proto ≡ pkt.proto
  pub bytes : payload sent.skb ≡ TcpHeader.produce (record h { chsum = ntoh 2 chsum }) ++ rest
  pub verifies : Verifies (pseudo_header pkt ++ payload sent.skb)
  pub valid : IsValid sent.skb
  pub room : sent.skb.head ≡ pkt.skb.head

regrouped :
    (h : TcpHeader) (k : ℕ) (rest : List ℕ)
    → TcpHeader.produce (record h { chsum = k }) ++ rest
      ≡ front h ++ (produce_to_net 2 k ++ (produce_to_net 2 h.urgent_pointer ++ rest))
regrouped h k rest =
    ap (λ ys. ys ++ rest) (produce-split h k)
    ∙ append_assoc (front h) (produce_to_net 2 k ++ produce_to_net 2 h.urgent_pointer) rest
    ∙ ap (λ ys. front h ++ ys)
        (append_assoc (produce_to_net 2 k) (produce_to_net 2 h.urgent_pointer) rest)

-- A valid segment of fewer than 2 ^ 16 bytes with its pseudo header, with room for the pseudo header
-- at an even address, is queued for the layer below with the checksum of both, so that all words
-- add up to 0 modulo 65535; nothing else of it changes.
pub process-IsSent :
    (base : ℕ) (h : TcpHeader) (rest : List ℕ) (pkt : TcpPacket) (lower : Lower Ipv4Packet)
    → IsValid pkt.skb
    → payload pkt.skb ≡ TcpHeader.produce h ++ rest
    → pseudo_size ≤ pkt.skb.head
    → (base + (pkt.skb.head - pseudo_size)) % 2 ≡ 0
    → IsBytes rest
    → TcpHeader.fixed_size + length rest + pseudo_size < 2 ^ 16
    → (sent : Ipv4Packet) × (process base pkt lower ≡ ok (enqueue sent lower))
      × IsSent h rest pkt sent
unfolding process process_raw
process-IsSent base h rest pkt lower v p room even b short =
    let long : length (payload pkt.skb) ≡ TcpHeader.fixed_size + length rest =
      ap length p ∙ omega (arith, length-append (TcpHeader.produce h) rest, length-produce h) in
    let (skb, e, sum) =
      segment-Summed base pkt (front h) (produce_to_net 2 h.chsum)
        (produce_to_net 2 h.urgent_pointer ++ rest) v (p ∙ regrouped h h.chsum rest)
        (length-front h) (length-produce_to_net 2 h.chsum) (omega (arith, long)) room even
        (front-IsBytes h) (produce-IsBytes 2 h.urgent_pointer rest b) (omega (arith, long)) in
    (
      _,
      rw e refl,
      record {
        chsum = sum.chsum;
        src_addrv4 = refl;
        dst_addrv4 = refl;
        proto = refl;
        bytes =
            sum.bytes
            ∙ ap (λ zs. front h ++ (zs ++ (produce_to_net 2 h.urgent_pointer ++ rest)))
                (sym (chsum_bytes sum.chsum sum.fits))
            ∙ sym (regrouped h (ntoh 2 sum.chsum) rest);
        verifies = sum.verifies;
        valid = sum.valid;
        room = sum.room;
      },
    )

module _ {Waiter Cb : Type 0}
    (intercept : Cb → TwoEnds → Tcp Waiter Cb → Bool × Tcp Waiter Cb) where
  -- No rule matches the two ends.
  abbrev pub Unmatched : TwoEnds → List (Rule Cb) → Type 0
  Unmatched two_end = All (λ (r : Rule Cb). r.matcher two_end.remote_ep two_end.local_ep ≡ false)

  try_rules-Unmatched :
      (rules : List (Rule Cb)) (two_end : TwoEnds) (pkt : TcpPacket) (t : Tcp Waiter Cb)
      → Unmatched two_end rules
      → try_rules intercept rules two_end pkt t ≡ ok (t, passed pkt)
  unfolding try_rules
  try_rules-Unmatched [] two_end pkt t u = refl
  try_rules-Unmatched (rule ∷ rules) two_end pkt t u =
      rw u.0 (try_rules-Unmatched rules two_end pkt t u.1)

  deliver-passed :
      (two_end : TwoEnds) (pkt : TcpPacket) (t : Tcp Waiter Cb)
      → States.find two_end t.rcv_raw_states ≡ none
      → Unmatched two_end t.rules
      → deliver intercept two_end pkt t ≡ ok (t, [], passed pkt)
  unfolding deliver
  deliver-passed two_end pkt t free u =
      rw (deliver, free, try_rules-Unmatched t.rules two_end pkt t u) refl

  -- A segment that is read goes up where its pair is not attached and no rule matches.
  pub make_packet-passed :
      (h : TcpHeader) (rest : List ℕ) (pkt_in : Ipv4Packet) (t : Tcp Waiter Cb)
      → Fits h
      → h.reserved ≡ 0
      → payload pkt_in.skb ≡ TcpHeader.produce h ++ rest
      → States.find (ends_of h pkt_in) t.rcv_raw_states ≡ none
      → Unmatched (ends_of h pkt_in) t.rules
      → make_packet intercept pkt_in t ≡ ok (t, [], passed (packet_of h pkt_in))
  unfolding make_packet
  make_packet-passed h rest pkt_in t f r p free u =
      rw (ap TcpHeader.consume p ∙ consume-produce_header h rest f r)
        (deliver-passed (ends_of h pkt_in) (packet_of h pkt_in) t free u)
