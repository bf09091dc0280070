-- ===== src/Interceptor/Laws.antt =====
-- What becomes of the first packet of a pair.
use mstack_cpp.Base.{ℕ, ◌≡◌, refl, List, [], ◌∷◌, ◌++◌, Bool, true, none, some, ok}
use mstack_cpp.Skbuff.{payload}
use mstack_cpp.Endpoint.{TwoEnds, TcpPacket}
use mstack_cpp.TcpHeader
use mstack_cpp.TcpHeader.{TcpHeader}
use mstack_cpp.TcpHeader.Roundtrip.{Fits}
use mstack_cpp.Packets.{Ipv4Packet}
use mstack_cpp.Tcp.{Tcp, Rule, kept, packet_of, ends_of, no_packets, make_packet, wait_at}
use mstack_cpp.Tcp.States
use mstack_cpp.Tcp.Laws.{Unmatched}
use mstack_cpp.Tcp.Queue.{async_wait-at, state_at-set}
use mstack_cpp.Tcp.Rules.{queued, make_packet-first}
use mstack_cpp.Interceptor.{Interceptor, RawSocket, raw_socket, called, intercept, async_read}

-- The first packet of a pair, read at once by a callback that waits for an interception.
module _ {User Waiter Cb : Type 0}
    (run : User → RawSocket → Tcp Waiter Cb → Bool × Tcp Waiter Cb) where
  -- The layer after the packet was given to the reader.
  abbrev handed : TwoEnds → TcpPacket → Waiter → Tcp Waiter Cb → Tcp Waiter Cb
  handed two_end pkt w t =
      wait_at two_end w (record { pq = pkt ∷ []; on_data_receive = [] }) (queued two_end pkt t)

  read_at_once :
      (two_end : TwoEnds) (pkt : TcpPacket) (user : User) (users : List User) (self : Cb)
      (w : Waiter) (i : Interceptor User) (t : Tcp Waiter Cb)
      → i.cbs ≡ user ∷ users
      → ((sk : RawSocket) (t1 t2 : Tcp Waiter Cb)
          → async_read sk w t1 ≡ some t2
          → run user sk t1 ≡ (true, t2))
      → intercept run i self two_end (queued two_end pkt t) ≡ (true, handed two_end pkt w t)
  unfolding intercept called async_read
  read_at_once two_end pkt user users self w i t q reads =
      rw (intercept, called, q)
        (reads (raw_socket two_end) _ _ (
          async_wait-at two_end w (record { pq = pkt ∷ []; on_data_receive = [] }) _
            (state_at-set two_end (record { pq = pkt ∷ []; on_data_receive = [] }) t)))

  -- A readable packet of a pair that is not attached, whose first matching rule is that of an
  -- interceptor with a callback waiting that returns after it reads from its raw socket, is kept
  -- from the layers above; that callback is taken off the queue and gets a raw socket with the two
  -- ends, and its reader is given the packet by a task, after which the pair is attached with
  -- nothing left in its queue.
  pub make_packet-async_read :
      (h : TcpHeader) (rest : List ℕ) (pkt_in : Ipv4Packet) (before after : List (Rule Cb))
      (rule : Rule Cb) (user : User) (users : List User) (w : Waiter) (i : Interceptor User)
      (t : Tcp Waiter Cb)
      → Fits h
      → h.reserved ≡ 0
      → payload pkt_in.skb ≡ TcpHeader.produce h ++ rest
      → t.rules ≡ before ++ rule ∷ after
      → States.find (ends_of h pkt_in) t.rcv_raw_states ≡ none
      → Unmatched (intercept run i) (ends_of h pkt_in) before
      → rule.matcher (ends_of h pkt_in).remote_ep (ends_of h pkt_in).local_ep ≡ true
      → i.cbs ≡ user ∷ users
      → ((sk : RawSocket) (t1 t2 : Tcp Waiter Cb)
          → async_read sk w t1 ≡ some t2
          → run user sk t1 ≡ (true, t2))
      → (t' : Tcp Waiter Cb) × (make_packet (intercept run i) pkt_in t ≡ ok (t', [], kept))
        × (called (ends_of h pkt_in) i
            ≡ (record { cbs = users }, some (user, raw_socket (ends_of h pkt_in))))
        × (t'.posted ≡ t.posted ++ (w, packet_of h pkt_in) ∷ [])
        × (States.find (ends_of h pkt_in) t'.rcv_raw_states ≡ some no_packets)
  unfolding called wait_at
  make_packet-async_read h rest pkt_in before after rule user users w i t f r p rs free u m q
        reads =
      let e = ends_of h pkt_in in
      let pkt = packet_of h pkt_in in
      (
        handed e pkt w t,
        make_packet-first (intercept run i) h rest pkt_in before after rule t (handed e pkt w t) f r
            p rs free u m (read_at_once e pkt user users rule.cb w i t q reads),
        rw (called, q) refl,
        refl,
        state_at-set e no_packets (queued e pkt t),
      )

  -- Where no callback waits for an interception, the packet stays in the queue of the pair.
  pub make_packet-unawaited :
      (h : TcpHeader) (rest : List ℕ) (pkt_in : Ipv4Packet) (before after : List (Rule Cb))
      (rule : Rule Cb) (i : Interceptor User) (t : Tcp Waiter Cb)
      → Fits h
      → h.reserved ≡ 0
      → payload pkt_in.skb ≡ TcpHeader.produce h ++ rest
      → t.rules ≡ before ++ rule ∷ after
      → States.find (ends_of h pkt_in) t.rcv_raw_states ≡ none
      → Unmatched (intercept run i) (ends_of h pkt_in) before
      → rule.matcher (ends_of h pkt_in).remote_ep (ends_of h pkt_in).local_ep ≡ true
      → i.cbs ≡ []
      → make_packet (intercept run i) pkt_in t
        ≡ ok (queued (ends_of h pkt_in) (packet_of h pkt_in) t, [], kept)
  unfolding intercept called
  make_packet-unawaited h rest pkt_in before after rule i t f r p rs free u m q =
      make_packet-first (intercept run i) h rest pkt_in before after rule t
        (queued (ends_of h pkt_in) (packet_of h pkt_in) t) f r p rs free u m
        (rw (intercept, called, q) refl)
