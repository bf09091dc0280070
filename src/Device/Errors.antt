-- ===== src/Device/Errors.antt =====
-- After a write that failed.
use mstack_cpp.Base.{
  ℕ, ◌≡◌, refl, ◌∙◌, ap, sym, List, [], ◌∷◌, ◌++◌, append_assoc, append-nil, true, Result, ok,
  ◌>>=◌,
}
use mstack_cpp.Skbuff.{Skbuff}
use mstack_cpp.Device.{Device, process, completion}
use mstack_cpp.Device.Laws.{Life, Life-IsOrdered, front_of, waits}

-- More buffers are given, one after the other.
pub process_all : List Skbuff → Device → Result Device
process_all [] d = ok d
process_all (skb ∷ skbs) d = do d1 ← process skb d; process_all skbs d1

stalled :
    (skbs rest : List Skbuff) (front : Skbuff) (written : List (List ℕ))
    → process_all skbs (record { out_skb_q = front ∷ rest; writing = []; written = written })
      ≡ ok (record { out_skb_q = front ∷ (rest ++ skbs); writing = []; written = written })
unfolding process_all
stalled [] rest front written =
    ap
      (λ (ys : List Skbuff).
        ok (record { out_skb_q = front ∷ ys; writing = []; written = written }))
      (sym (append-nil rest))
stalled (skb ∷ skbs) rest front written = rw (waits front skb rest [] written) (
    stalled skbs (rest ++ skb ∷ []) front written
    ∙ ap
        (λ (ys : List Skbuff).
          ok (record { out_skb_q = front ∷ ys; writing = []; written = written }))
        (append_assoc rest (skb ∷ []) skbs))

failed :
    (front : Skbuff) (rest : List Skbuff) (d : Device)
    → d.out_skb_q ≡ front ∷ rest
    → d.writing ≡ front_of d.out_skb_q
    → completion true d.writing d
      ≡ ok (record { out_skb_q = front ∷ rest; writing = []; written = d.written })
unfolding completion
failed front rest d q w =
    rw (w ∙ ap front_of q) (
      ap (λ (ys : List Skbuff). ok (record { out_skb_q = ys; writing = []; written = d.written }))
        q)

-- When the write in flight fails, the first that does, the device never writes again: whatever it is given then, no write
-- is started and nothing more is written, since the buffer that failed stays in the queue.
pub process_all-stalled :
    {sent : List Skbuff} (front : Skbuff) (rest skbs : List Skbuff) (d : Device)
    → Life sent d
    → d.out_skb_q ≡ front ∷ rest
    → (d1 d2 : Device) × (completion true d.writing d ≡ ok d1)
      × (process_all skbs d1 ≡ ok d2)
      × (d2.writing ≡ [])
      × (d2.written ≡ d.written)
      × (d2.out_skb_q ≡ front ∷ (rest ++ skbs))
process_all-stalled front rest skbs d life q = (
  record { out_skb_q = front ∷ rest; writing = []; written = d.written },
  record { out_skb_q = front ∷ (rest ++ skbs); writing = []; written = d.written },
  failed front rest d q (Life-IsOrdered life).in_flight,
  stalled skbs rest front d.written,
  refl,
  refl,
  refl,
)
