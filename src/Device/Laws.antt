-- ===== src/Device/Laws.antt =====
-- Frames are written in order, one at a time.
use mstack_cpp.Base.{
  ℕ, zero, suc, ◌≡◌, refl, ◌∙◌, ap, sym, List, [], ◌∷◌, ◌++◌, append_assoc, append-nil, map, arith,
  false, ◌==◌, Result, ok, ok_injective, ◌>>=◌, length, length-append,
}
use mathlib.Core.Path.{subst}
use mathlib.Core.List.{map-append}
use mstack_cpp.Skbuff.{Skbuff, payload}
use mstack_cpp.Device.{Device, process, completion, next, send_front_pkt_out}

-- The lives of a device that has written without an error, with the buffers it was given.
pub data Life : List Skbuff → Device → Type 0 where
  start : Life [] (record { out_skb_q = []; writing = []; written = [] })
  processes :
      {sent : List Skbuff} {d d' : Device} (skb : Skbuff)
      → Life sent d
      → process skb d ≡ ok d'
      → Life (sent ++ skb ∷ []) d'
  completes :
      {sent : List Skbuff} {d d' : Device}
      → Life sent d
      → completion false d.writing d ≡ ok d'
      → Life sent d'

-- The payload of the front.
abbrev pub front_of : List Skbuff → List (List ℕ)
front_of [] = []
front_of (skb ∷ rest) = payload skb ∷ []

-- The front of the queue is in flight, and what was written and the queue are what was given.
pub record IsOrdered (sent : List Skbuff) (d : Device) : Type 0 where
  pub in_flight : d.writing ≡ front_of d.out_skb_q
  pub order : d.written ++ map payload d.out_skb_q ≡ map payload sent

-- Another buffer that was given stands last in the queue.
added :
    (sent queue : List Skbuff) (written : List (List ℕ)) (skb : Skbuff)
    → written ++ map payload queue ≡ map payload sent
    → written ++ map payload (queue ++ skb ∷ []) ≡ map payload (sent ++ skb ∷ [])
added sent queue written skb o =
    ap (λ ys. written ++ ys) (map-append payload queue (skb ∷ []))
    ∙ sym (append_assoc written (map payload queue) (payload skb ∷ []))
    ∙ ap (λ ys. ys ++ payload skb ∷ []) o
    ∙ sym (map-append payload sent (skb ∷ []))

-- With a buffer in the queue, another one only waits.
pub waits :
    (front skb : Skbuff) (rest : List Skbuff) (writing written : List (List ℕ))
    → process skb (record { out_skb_q = front ∷ rest; writing = writing; written = written })
      ≡ ok (record { out_skb_q = front ∷ (rest ++ skb ∷ []); writing = writing; written = written })
unfolding process
waits front skb rest writing written =
    let long : (1 == length (front ∷ (rest ++ skb ∷ []))) ≡ false =
      ground (arith, length-append rest (skb ∷ [])) in
    rw long refl

-- A device without a buffer starts to write the one that it is given, and is done with it when the
-- write completes.
pub idle-process :
    (skb : Skbuff) (written : List (List ℕ))
    → process skb (record { out_skb_q = []; writing = []; written = written })
      ≡ ok (record { out_skb_q = skb ∷ []; writing = payload skb ∷ []; written = written })
unfolding process send_front_pkt_out
idle-process skb written = refl

pub idle-completion :
    (skb : Skbuff) (written : List (List ℕ))
    → completion false
        (payload skb ∷ [])
        (record { out_skb_q = skb ∷ []; writing = payload skb ∷ []; written = written })
      ≡ ok (record { out_skb_q = []; writing = []; written = written ++ payload skb ∷ [] })
unfolding completion next
idle-completion skb written = refl

processed :
    (sent queue : List Skbuff) (written : List (List ℕ)) (skb : Skbuff)
    → written ++ map payload queue ≡ map payload sent
    → (d' : Device) × (process skb
          (record { out_skb_q = queue; writing = front_of queue; written = written })
        ≡ ok d')
      × IsOrdered (sent ++ skb ∷ []) d'
unfolding process
processed sent [] written skb o = (
  record { out_skb_q = skb ∷ []; writing = payload skb ∷ []; written = written },
  refl,
  record { in_flight = refl; order = added sent [] written skb o },
)
processed sent (front ∷ rest) written skb o = (
  record {
    out_skb_q = front ∷ (rest ++ skb ∷ []);
    writing = payload front ∷ [];
    written = written;
  },
  waits front skb rest (payload front ∷ []) written,
  record { in_flight = refl; order = added sent (front ∷ rest) written skb o },
)

completed :
    (sent queue : List Skbuff) (written : List (List ℕ)) (front : Skbuff)
    → written ++ map payload (front ∷ queue) ≡ map payload sent
    → (d' : Device) × (completion false
          (payload front ∷ [])
          (record { out_skb_q = front ∷ queue; writing = payload front ∷ []; written = written })
        ≡ ok d')
      × IsOrdered sent d'
      × (length d'.out_skb_q ≡ length queue)
unfolding completion
completed sent [] written front o = (
  record { out_skb_q = []; writing = []; written = written ++ payload front ∷ [] },
  refl,
  record { in_flight = refl; order = append-nil _ ∙ o },
  refl,
)
completed sent (next ∷ rest) written front o = (
  record {
    out_skb_q = next ∷ rest;
    writing = payload next ∷ [];
    written = written ++ payload front ∷ [];
  },
  refl,
  record {
    in_flight = refl;
    order = append_assoc written (payload front ∷ []) (map payload (next ∷ rest)) ∙ o;
  },
  refl,
)

processed_one :
    (sent : List Skbuff) (d d' : Device) (skb : Skbuff)
    → IsOrdered sent d
    → process skb d ≡ ok d'
    → IsOrdered (sent ++ skb ∷ []) d'
processed_one sent d d' skb i h =
    let (e, r, k) = processed sent d.out_skb_q d.written skb i.order in
    let same : record d { writing = front_of d.out_skb_q } ≡ d =
      ap (λ (w : List (List ℕ)). record d { writing = w }) (sym i.in_flight) in
    subst (IsOrdered (sent ++ skb ∷ [])) (ok_injective (sym r ∙ ap (process skb) same ∙ h)) k

-- The write in flight completes.
completed_one :
    (sent rest : List Skbuff) (front : Skbuff) (d : Device)
    → d.out_skb_q ≡ front ∷ rest
    → IsOrdered sent d
    → (d' : Device) × (completion false d.writing d ≡ ok d')
      × IsOrdered sent d'
      × (length d'.out_skb_q ≡ length rest)
completed_one sent rest front d q i =
    subst
      (λ (e : Device).
        (d' : Device) × (completion false e.writing e ≡ ok d')
        × IsOrdered sent d'
        × (length d'.out_skb_q ≡ length rest))
      (ap
          (λ (w : List (List ℕ)). record {
            out_skb_q = front ∷ rest;
            writing = w;
            written = d.written;
          })
          (sym (i.in_flight ∙ ap front_of q))
        ∙ ap (λ (ys : List Skbuff). record d { out_skb_q = ys }) (sym q))
      (completed sent rest d.written front
        (ap (λ ys. d.written ++ map payload ys) (sym q) ∙ i.order))

completed_life :
    (sent queue : List Skbuff) (d d' : Device)
    → d.out_skb_q ≡ queue
    → IsOrdered sent d
    → completion false d.writing d ≡ ok d'
    → IsOrdered sent d'
unfolding completion
completed_life sent [] d d' q i h = absurd (ground (arith, i.in_flight ∙ ap front_of q, h))
completed_life sent (front ∷ rest) d d' q i h =
    let (e, r, k, n) = completed_one sent rest front d q i in
    subst (IsOrdered sent) (ok_injective (sym r ∙ h)) k

-- Whatever the device was given, and whenever its writes completed, the front of the queue alone is
-- in flight, and what was written, followed by the queue, is what it was given, in order.
pub Life-IsOrdered : {sent : List Skbuff} {d : Device} → Life sent d → IsOrdered sent d
Life-IsOrdered start = record { in_flight = refl; order = refl }
Life-IsOrdered (processes skb life h) = processed_one _ _ _ skb (Life-IsOrdered life) h
Life-IsOrdered (completes life h) = completed_life _ _ _ _ refl (Life-IsOrdered life) h

-- `n` completions without an error.
pub complete_all : ℕ → Device → Result Device
complete_all zero d = ok d
complete_all (suc n) d = do d1 ← completion false d.writing d; complete_all n d1

all_written :
    (n : ℕ) (sent queue : List Skbuff) (d : Device)
    → d.out_skb_q ≡ queue
    → length queue ≡ n
    → IsOrdered sent d
    → (d' : Device) × (complete_all n d ≡ ok d') × (d'.written ≡ map payload sent)
unfolding complete_all
all_written zero sent [] d q h i =
    (d, refl, sym (append-nil d.written) ∙ ap (λ ys. d.written ++ map payload ys) (sym q) ∙ i.order)
all_written zero sent (front ∷ rest) d q h i = absurd (omega arith)
all_written (suc n) sent [] d q h i = absurd (omega arith)
all_written (suc n) sent (front ∷ rest) d q h i =
    let (d1, r, k, len) = completed_one sent rest front d q i in
    let (d', e, w) = all_written n sent d1.out_skb_q d1 refl (omega (arith, len)) k in
    (d', rw r e, w)

-- Of a device that has had no error: once as many writes have completed without one as buffers are
-- in its queue, everything that it was given is written, in order.
pub complete_all-writes :
    {sent : List Skbuff} (d : Device)
    → Life sent d
    → (d' : Device) × (complete_all (length d.out_skb_q) d ≡ ok d')
      × (d'.written ≡ map payload sent)
complete_all-writes d life = all_written _ _ d.out_skb_q d refl refl (Life-IsOrdered life)
