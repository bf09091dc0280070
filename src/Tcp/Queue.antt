-- ===== src/Tcp/Queue.antt =====
-- The packets of an attached pair are read in the order in which they came.
use mathlib.Core.Path.{subst}
use mathlib.Core.Option.{some_inj}
use mathlib.Core.List.{map-append}
use mstack_cpp.Base.{
  ◌≡◌, refl, ◌∙◌, ap, sym, List, [], ◌∷◌, ◌++◌, append_assoc, append-nil, arith, none, some, map,
  drop, drop-append, length, ◌⊎◌, inl, inr, Option-cases,
}
use mstack_cpp.Endpoint.{TwoEnds, TcpPacket}
use mstack_cpp.Manager.Table.{two_ends_eq_refl}
use mstack_cpp.Tcp.{Tcp, RawState, attach, async_wait, wait_at, receive_at, set_state, no_packets}
use mstack_cpp.Tcp.Meanwhile.{Meanwhile, Meanwhile-Keeps}
use mstack_cpp.Tcp.States
use mstack_cpp.Tcp.States.Laws.{find-assign_at}

-- The readers and the packets that have met, and what is left of one of the two.
pub record IsMatched {Waiter : Type 0} (came : List TcpPacket) (waited : List Waiter)
    (got : List (Waiter × TcpPacket)) (state : RawState Waiter) : Type 0 where
  pub readers : map (λ g. g.0) got ++ state.on_data_receive ≡ waited
  pub packets : map (λ g. g.1) got ++ state.pq ≡ came
  pub one_left : (state.pq ≡ []) ⊎ (state.on_data_receive ≡ [])

-- Another packet, or another reader, that nobody met yet.
one_more :
    {A : Type 0} (met left all : List A) (a : A)
    → met ++ left ≡ all
    → met ++ (left ++ a ∷ []) ≡ all ++ a ∷ []
one_more met left all a h = sym (append_assoc met left (a ∷ [])) ∙ ap (λ ys. ys ++ a ∷ []) h

-- One reader meets one packet.
met_one :
    {A B : Type 0} (f : A → B) (got : List A) (a : A) (left : List B)
    → map f (got ++ a ∷ []) ++ left ≡ map f got ++ f a ∷ left
met_one f got a left =
    ap (λ ys. ys ++ left) (map-append f got (a ∷ [])) ∙ append_assoc (map f got) (f a ∷ []) left

not_both :
    {A B : Type 0} {x : A} {xs : List A} {y : B} {ys : List B}
    → ((x ∷ xs) ≡ []) ⊎ ((y ∷ ys) ≡ [])
    → ⊥
not_both h = ground arith

none_new : {A : Type 0} (got : List A) (posted : List A) → got ++ drop (length posted) posted ≡ got
none_new got posted =
    ap (λ ys. got ++ drop (length posted) ys) (sym (append-nil posted))
    ∙ ap (λ ys. got ++ ys) (drop-append (length posted) posted [] refl)
    ∙ append-nil got

module _ {Waiter Cb : Type 0} where
  pub state_at-set :
      (e : TwoEnds) (state : RawState Waiter) (t : Tcp Waiter Cb)
      → States.find e (set_state e state t).rcv_raw_states ≡ some state
  state_at-set e state t = find-assign_at e e state t.rcv_raw_states ∙ rw (two_ends_eq_refl e) refl

  -- The tasks that an operation posted.
  abbrev pub new_tasks : Tcp Waiter Cb → Tcp Waiter Cb → List (Waiter × TcpPacket)
  new_tasks t t' = drop (length t.posted) t'.posted

  -- What happens at one pair, from its attachment or from its first packet, which a rule kept, until
  -- it is detached: a packet comes, a reader waits, or the layer does something else. `got` has the
  -- callbacks that were given a packet, at once or by a task, each with its packet, oldest first.
  pub data Reads (e : TwoEnds)
      : List TcpPacket → List Waiter → List (Waiter × TcpPacket) → Tcp Waiter Cb → Type 0 where
    attaches : (t : Tcp Waiter Cb) {t' : Tcp Waiter Cb} → attach e t ≡ some t' → Reads e [] [] [] t'
    intercepts :
        (t : Tcp Waiter Cb) (pkt : TcpPacket)
        → Reads e (pkt ∷ []) [] [] (set_state e (record { pq = pkt ∷ []; on_data_receive = [] }) t)
    receives :
        {came : List TcpPacket} {waited : List Waiter} {got : List (Waiter × TcpPacket)}
        {t : Tcp Waiter Cb} (pkt : TcpPacket) (state : RawState Waiter)
        → Reads e came waited got t
        → States.find e t.rcv_raw_states ≡ some state
        → Reads e
            (came ++ pkt ∷ [])
            waited
            (got ++ (receive_at e pkt state t).1)
            (receive_at e pkt state t).0
    waits :
        {came : List TcpPacket} {waited : List Waiter} {got : List (Waiter × TcpPacket)}
        (t t' : Tcp Waiter Cb) (cb : Waiter)
        → Reads e came waited got t
        → async_wait e cb t ≡ some t'
        → Reads e came (waited ++ cb ∷ []) (got ++ new_tasks t t') t'
    meanwhile :
        {came : List TcpPacket} {waited : List Waiter} {got : List (Waiter × TcpPacket)}
        {t t' : Tcp Waiter Cb}
        → Reads e came waited got t
        → Meanwhile e t t'
        → Reads e came waited got t'

  -- The state of the pair.
  pub record IsOrdered (e : TwoEnds) (came : List TcpPacket) (waited : List Waiter)
      (got : List (Waiter × TcpPacket)) (t : Tcp Waiter Cb) : Type 0 where
    pub state : RawState Waiter
    pub stands : States.find e t.rcv_raw_states ≡ some state
    pub matched : IsMatched came waited got state

  received :
      (e : TwoEnds) (came : List TcpPacket) (waited : List Waiter) (got : List (Waiter × TcpPacket))
      (pkt : TcpPacket) (pq : List TcpPacket) (readers : List Waiter) (t : Tcp Waiter Cb)
      → IsMatched came waited got (record { pq = pq; on_data_receive = readers })
      → IsOrdered e
          (came ++ pkt ∷ [])
          waited
          (got ++ (receive_at e pkt (record { pq = pq; on_data_receive = readers }) t).1)
          (receive_at e pkt (record { pq = pq; on_data_receive = readers }) t).0
  unfolding receive_at
  received e came waited got pkt pq [] t m = record {
    state = record { pq = pq ++ pkt ∷ []; on_data_receive = [] };
    stands = state_at-set e (record { pq = pq ++ pkt ∷ []; on_data_receive = [] }) t;
    matched = record {
      readers =
          ap (λ g. map (λ (g : Waiter × TcpPacket). g.0) g ++ []) (append-nil got) ∙ m.readers;
      packets =
          ap (λ g. map (λ (g : Waiter × TcpPacket). g.1) g ++ (pq ++ pkt ∷ [])) (append-nil got)
          ∙ one_more (map (λ g. g.1) got) pq came pkt m.packets;
      one_left = inr refl;
    };
  }
  received e came waited got pkt (first ∷ pq) (cb ∷ rest) t m = absurd (not_both m.one_left)
  received e came waited got pkt [] (cb ∷ rest) t m = record {
    state = record { pq = []; on_data_receive = rest };
    stands = state_at-set e (record { pq = []; on_data_receive = rest }) t;
    matched = record {
      readers = met_one (λ g. g.0) got (cb, pkt) rest ∙ m.readers;
      packets =
          met_one (λ g. g.1) got (cb, pkt) []
          ∙ sym (append_assoc (map (λ g. g.1) got) [] (pkt ∷ []))
          ∙ ap (λ ys. ys ++ pkt ∷ []) m.packets;
      one_left = inl refl;
    };
  }

  waited_for :
      (e : TwoEnds) (came : List TcpPacket) (waited : List Waiter) (got : List (Waiter × TcpPacket))
      (cb : Waiter) (pq : List TcpPacket) (readers : List Waiter) (t : Tcp Waiter Cb)
      → IsMatched came waited got (record { pq = pq; on_data_receive = readers })
      → IsOrdered e came
          (waited ++ cb ∷ [])
          (got ++ new_tasks t (wait_at e cb (record { pq = pq; on_data_receive = readers }) t))
          (wait_at e cb (record { pq = pq; on_data_receive = readers }) t)
  unfolding wait_at
  waited_for e came waited got cb [] readers t m = record {
    state = record { pq = []; on_data_receive = readers ++ cb ∷ [] };
    stands = state_at-set e (record { pq = []; on_data_receive = readers ++ cb ∷ [] }) t;
    matched = record {
      readers =
          ap (λ g. map (λ (g : Waiter × TcpPacket). g.0) g ++ (readers ++ cb ∷ []))
            (none_new got t.posted)
          ∙ one_more (map (λ g. g.0) got) readers waited cb m.readers;
      packets =
          ap (λ g. map (λ (g : Waiter × TcpPacket). g.1) g ++ []) (none_new got t.posted)
          ∙ m.packets;
      one_left = inl refl;
    };
  }
  waited_for e came waited got cb (pkt ∷ pq) (reader ∷ readers) t m = absurd (not_both m.one_left)
  waited_for e came waited got cb (pkt ∷ pq) [] t m = record {
    state = record { pq = pq; on_data_receive = [] };
    stands = state_at-set e (record { pq = pq; on_data_receive = [] }) t;
    matched = record {
      readers =
          ap (λ ys. map (λ (g : Waiter × TcpPacket). g.0) (got ++ ys) ++ [])
            (drop-append (length t.posted) t.posted ((cb, pkt) ∷ []) refl)
          ∙ met_one (λ g. g.0) got (cb, pkt) []
          ∙ sym (append_assoc (map (λ g. g.0) got) [] (cb ∷ []))
          ∙ ap (λ ys. ys ++ cb ∷ []) m.readers;
      packets =
          ap (λ ys. map (λ (g : Waiter × TcpPacket). g.1) (got ++ ys) ++ pq)
            (drop-append (length t.posted) t.posted ((cb, pkt) ∷ []) refl)
          ∙ met_one (λ g. g.1) got (cb, pkt) pq
          ∙ m.packets;
      one_left = inr refl;
    };
  }

  attach-new :
      (e : TwoEnds) (t : Tcp Waiter Cb)
      → States.find e t.rcv_raw_states ≡ none
      → attach e t ≡ some (set_state e no_packets t)
  unfolding attach
  attach-new e t h = rw (attach, h) refl

  attach-taken :
      (e : TwoEnds) (state : RawState Waiter) (t : Tcp Waiter Cb)
      → States.find e t.rcv_raw_states ≡ some state
      → attach e t ≡ none
  unfolding attach
  attach-taken e state t h = rw (attach, h) refl

  pub async_wait-at :
      (e : TwoEnds) (cb : Waiter) (state : RawState Waiter) (t : Tcp Waiter Cb)
      → States.find e t.rcv_raw_states ≡ some state
      → async_wait e cb t ≡ some (wait_at e cb state t)
  unfolding async_wait
  async_wait-at e cb state t h = rw (async_wait, h) refl

  attached : (e : TwoEnds) (t t' : Tcp Waiter Cb) → attach e t ≡ some t' → IsOrdered e [] [] [] t'
  attached e t t' h = elim (Option-cases (States.find e t.rcv_raw_states)) [
    | inl q ↦ subst (IsOrdered e [] [] []) (some_inj.0 (sym (attach-new e t q) ∙ h)) (record {
      state = no_packets;
      stands = state_at-set e no_packets t;
      matched = record { readers = refl; packets = refl; one_left = inl refl };
    })
    | inr (state, q) ↦ absurd (ground (arith, sym (attach-taken e state t q) ∙ h))
  ]

  waited_on :
      (e : TwoEnds) (came : List TcpPacket) (waited : List Waiter) (got : List (Waiter × TcpPacket))
      (cb : Waiter) (t t' : Tcp Waiter Cb)
      → IsOrdered e came waited got t
      → async_wait e cb t ≡ some t'
      → IsOrdered e came (waited ++ cb ∷ []) (got ++ new_tasks t t') t'
  waited_on e came waited got cb t t' o h =
      subst (λ u. IsOrdered e came (waited ++ cb ∷ []) (got ++ new_tasks t u) u)
        (some_inj.0 (sym (async_wait-at e cb o.state t o.stands) ∙ h))
        (waited_for e came waited got cb o.state.pq o.state.on_data_receive t o.matched)

  -- From the attachment of a pair, or its first packet that a rule kept, as long as it is not
  -- detached, through packets and readers of the pair, posted tasks, the calls for other pairs, new
  -- rules and packets that are sent, in any order: the `k`-th reader has the `k`-th packet, that is,
  -- the readers that were given a packet, followed by those that wait, are all that came, the packets
  -- that they were given, followed by those in the queue, are all that came, and nobody waits while a
  -- packet is there.
  pub Reads-IsOrdered :
      {e : TwoEnds} {came : List TcpPacket} {waited : List Waiter} {got : List (Waiter × TcpPacket)}
      {t : Tcp Waiter Cb}
      → Reads e came waited got t
      → IsOrdered e came waited got t
  Reads-IsOrdered (attaches t h) = attached _ t _ h
  Reads-IsOrdered (intercepts t pkt) = record {
    state = record { pq = pkt ∷ []; on_data_receive = [] };
    stands = state_at-set _ (record { pq = pkt ∷ []; on_data_receive = [] }) t;
    matched = record { readers = refl; packets = refl; one_left = inr refl };
  }
  Reads-IsOrdered (receives pkt state life at) =
      let o = Reads-IsOrdered life in
      received _ _ _ _ pkt state.pq state.on_data_receive _
        (subst (IsMatched _ _ _) (some_inj.0 (sym o.stands ∙ at)) o.matched)
  Reads-IsOrdered (waits t t' cb life h) = waited_on _ _ _ _ cb t t' (Reads-IsOrdered life) h
  Reads-IsOrdered (meanwhile life step) =
      let o = Reads-IsOrdered life in
      record { state = o.state; stands = Meanwhile-Keeps step ∙ o.stands; matched = o.matched }
