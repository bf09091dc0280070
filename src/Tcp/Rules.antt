-- ===== src/Tcp/Rules.antt =====
-- The first rule that matches a new pair decides.
use mstack_cpp.Base.{ℕ, ◌≡◌, refl, ◌∙◌, ap, List, [], ◌∷◌, ◌++◌, Bool, true, none, ok}
use mstack_cpp.Skbuff.{payload}
use mstack_cpp.Endpoint.{TwoEnds, TcpPacket}
use mstack_cpp.TcpHeader
use mstack_cpp.TcpHeader.{TcpHeader}
use mstack_cpp.TcpHeader.Roundtrip.{Fits, consume-produce_header}
use mstack_cpp.Packets.{Ipv4Packet}
use mstack_cpp.Tcp.{Tcp, Rule, kept, packet_of, ends_of, set_state, try_rules, make_packet, deliver}
use mstack_cpp.Tcp.States
use mstack_cpp.Tcp.Laws.{Unmatched}

-- The layer when the callback of a rule is called with the first packet of a pair.
abbrev pub queued : {Waiter Cb : Type 0} → TwoEnds → TcpPacket → Tcp Waiter Cb → Tcp Waiter Cb
queued two_end pkt t = set_state two_end (record { pq = pkt ∷ []; on_data_receive = [] }) t

module _ {Waiter Cb : Type 0} (run_cb : Cb → TwoEnds → Tcp Waiter Cb → Bool × Tcp Waiter Cb) where
  -- The first rule that matches decides.
  pub try_rules-first :
      (before after : List (Rule Cb)) (rule : Rule Cb) (two_end : TwoEnds) (pkt : TcpPacket)
      (t t1 : Tcp Waiter Cb)
      → Unmatched run_cb two_end before
      → rule.matcher two_end.remote_ep two_end.local_ep ≡ true
      → run_cb rule.cb two_end (queued two_end pkt t) ≡ (true, t1)
      → try_rules run_cb (before ++ rule ∷ after) two_end pkt t ≡ ok (t1, kept)
  unfolding try_rules
  try_rules-first [] after rule two_end pkt t t1 u m r = rw (m, r) refl
  try_rules-first (first ∷ before) after rule two_end pkt t t1 u m r =
      rw u.0 (try_rules-first before after rule two_end pkt t t1 u.1 m r)

  deliver-first :
      (before after : List (Rule Cb)) (rule : Rule Cb) (two_end : TwoEnds) (pkt : TcpPacket)
      (t t1 : Tcp Waiter Cb)
      → t.rules ≡ before ++ rule ∷ after
      → States.find two_end t.rcv_raw_states ≡ none
      → Unmatched run_cb two_end before
      → rule.matcher two_end.remote_ep two_end.local_ep ≡ true
      → run_cb rule.cb two_end (queued two_end pkt t) ≡ (true, t1)
      → deliver run_cb two_end pkt t ≡ ok (t1, [], kept)
  unfolding deliver
  deliver-first before after rule two_end pkt t t1 rs free u m r =
      rw
        (
          deliver,
          free,
          ap (λ rules. try_rules run_cb rules two_end pkt t) rs
              ∙ try_rules-first before after rule two_end pkt t t1 u m r,
        )
        refl

  pub make_packet-first :
      (h : TcpHeader) (rest : List ℕ) (pkt_in : Ipv4Packet) (before after : List (Rule Cb))
      (rule : Rule Cb) (t t1 : Tcp Waiter Cb)
      → Fits h
      → h.reserved ≡ 0
      → payload pkt_in.skb ≡ TcpHeader.produce h ++ rest
      → t.rules ≡ before ++ rule ∷ after
      → States.find (ends_of h pkt_in) t.rcv_raw_states ≡ none
      → Unmatched run_cb (ends_of h pkt_in) before
      → rule.matcher (ends_of h pkt_in).remote_ep (ends_of h pkt_in).local_ep ≡ true
      → run_cb rule.cb (ends_of h pkt_in) (queued (ends_of h pkt_in) (packet_of h pkt_in) t)
        ≡ (true, t1)
      → make_packet run_cb pkt_in t ≡ ok (t1, [], kept)
  unfolding make_packet
  make_packet-first h rest pkt_in before after rule t t1 f r p rs free u m run =
      rw (ap TcpHeader.consume p ∙ consume-produce_header h rest f r) (
        deliver-first before after rule (ends_of h pkt_in) (packet_of h pkt_in) t t1 rs free u m
          run)
