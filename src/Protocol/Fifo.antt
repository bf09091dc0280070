-- ===== src/Protocol/Fifo.antt =====
-- The queue is first in, first out, and every packet is delivered once all tasks have run.
use mathlib.Core.Path.{subst}
use mstack_cpp.Base.{
  ℕ, zero, suc, ◌+◌, ◌-◌, ◌<◌, ◌≡◌, refl, ◌∙◌, ap, sym, List, [], ◌∷◌, ◌++◌, append_assoc, arith,
  true, false, Result, ok, ok_injective, ◌>>=◌, if◌then◌else◌, length, length-append,
}
use mstack_cpp.Protocol.{Lower, constructed, under_proto_update, enqueue, hand_over, run_posted}

-- The lives of a layer. `sent` are the packets that were enqueued, and `missed` the number of tasks
-- that ran before `under_proto_` was set.
pub data Life {Packet : Type 0} : List Packet → ℕ → Lower Packet → Type 0 where
  start : Life [] 0 constructed
  connects :
      {sent : List Packet} {missed : ℕ} {b : Lower Packet}
      → Life sent missed b
      → Life sent missed (under_proto_update b)
  enqueues :
      {sent : List Packet} {missed : ℕ} {b : Lower Packet} (pkt : Packet)
      → Life sent missed b
      → Life (sent ++ pkt ∷ []) missed (enqueue pkt b)
  hands :
      {sent : List Packet} {missed : ℕ} {b b' : Lower Packet}
      → Life sent missed b
      → 0 < b.posted
      → b.under ≡ true
      → run_posted b ≡ ok b'
      → Life sent missed b'
  misses :
      {sent : List Packet} {missed : ℕ} {b b' : Lower Packet}
      → Life sent missed b
      → 0 < b.posted
      → b.under ≡ false
      → run_posted b ≡ ok b'
      → Life sent (suc missed) b'

pub record IsFifo {Packet : Type 0} (sent : List Packet) (missed : ℕ) (b : Lower Packet)
    : Type 0 where
  pub order : b.delivered ++ b.packet_queue ≡ sent
  pub balance : length b.packet_queue ≡ b.posted + missed

module _ {Packet : Type 0} where
  handed :
      (sent queue : List Packet) (missed : ℕ) (b : Lower Packet)
      → b.packet_queue ≡ queue
      → IsFifo sent missed b
      → 0 < b.posted
      → b.under ≡ true
      → (b' : Lower Packet) × (run_posted b ≡ ok b')
        × IsFifo sent missed b'
        × (suc b'.posted ≡ b.posted)
        × (b'.under ≡ true)
  unfolding run_posted hand_over
  handed sent [] missed b q f p u = absurd (omega (arith, ap length q, f.balance))
  handed sent (pkt ∷ rest) missed b q f p u = (
    record b { packet_queue = rest; delivered = b.delivered ++ pkt ∷ []; posted = b.posted - 1 },
    rw (u, q) refl,
    record {
      order =
          append_assoc b.delivered (pkt ∷ []) rest ∙ ap (λ ys. b.delivered ++ ys) (sym q) ∙ f.order;
      balance = omega (arith, ap length q, f.balance);
    },
    omega arith,
    u,
  )

  after_miss :
      (b b' : Lower Packet)
      → b.under ≡ false
      → run_posted b ≡ ok b'
      → record b { posted = b.posted - 1 } ≡ b'
  unfolding run_posted
  after_miss b b' u e =
      let b1 : Lower Packet = record b { posted = b.posted - 1 } in
      ok_injective (sym (ap (λ c. if c then hand_over b1.packet_queue b1 else ok b1) u) ∙ e)

  missed_one :
      (sent : List Packet) (missed : ℕ) (b b' : Lower Packet)
      → IsFifo sent missed b
      → 0 < b.posted
      → b.under ≡ false
      → run_posted b ≡ ok b'
      → IsFifo sent (suc missed) b'
  missed_one sent missed b b' f p u e =
      subst (IsFifo sent (suc missed)) (after_miss b b' u e)
        (record { order = f.order; balance = omega (arith, f.balance) })

  handed_one :
      (sent : List Packet) (missed : ℕ) (b b' : Lower Packet)
      → IsFifo sent missed b
      → 0 < b.posted
      → b.under ≡ true
      → run_posted b ≡ ok b'
      → IsFifo sent missed b'
  handed_one sent missed b b' f p u e =
      let (c, r, g, n, w) = handed sent b.packet_queue missed b refl f p u in
      subst (IsFifo sent missed) (ok_injective (sym r ∙ e)) g

  enqueued :
      (sent : List Packet) (missed : ℕ) (pkt : Packet) (b : Lower Packet)
      → IsFifo sent missed b
      → IsFifo (sent ++ pkt ∷ []) missed (enqueue pkt b)
  unfolding enqueue
  enqueued sent missed pkt b f = record {
    order =
        sym (append_assoc b.delivered b.packet_queue (pkt ∷ []))
        ∙ ap (λ ys. ys ++ pkt ∷ []) f.order;
    balance = omega (arith, length-append b.packet_queue (pkt ∷ []), f.balance);
  }

  -- In every life nothing is lost or reordered, and the queue is longer than the tasks that are left
  -- to run by the number of tasks that ran too early.
  pub Life-IsFifo :
      {sent : List Packet} {missed : ℕ} {b : Lower Packet}
      → Life sent missed b
      → IsFifo sent missed b
  unfolding under_proto_update
  Life-IsFifo start = record { order = refl; balance = refl }
  Life-IsFifo (connects life) =
      let f = Life-IsFifo life in record { order = f.order; balance = f.balance }
  Life-IsFifo (enqueues pkt life) = enqueued _ _ pkt _ (Life-IsFifo life)
  Life-IsFifo (hands life p u e) = handed_one _ _ _ _ (Life-IsFifo life) p u e
  Life-IsFifo (misses life p u e) = missed_one _ _ _ _ (Life-IsFifo life) p u e

  -- The event loop runs `n` of the tasks.
  pub drain : ℕ → Lower Packet → Result (Lower Packet)
  drain zero b = ok b
  drain (suc n) b = do b1 ← run_posted b; drain n b1

  drained :
      (n : ℕ) (sent : List Packet) (missed : ℕ) (b : Lower Packet)
      → n ≡ b.posted
      → b.under ≡ true
      → IsFifo sent missed b
      → (b' : Lower Packet) × (drain n b ≡ ok b') × (b'.posted ≡ 0) × IsFifo sent missed b'
  unfolding drain
  drained zero sent missed b h u f = (b, refl, omega arith, f)
  drained (suc n) sent missed b h u f =
      let (c, r, g, fewer, still) = handed sent b.packet_queue missed b refl f (omega arith) u in
      let (b', e, done, k) = drained n sent missed c (omega arith) still g in (b', rw r e, done, k)

  -- Once `under_proto_` is set, running the posted tasks never fails. Then the packets that were
  -- delivered, followed by those left in the queue, are the ones that were enqueued, in order, and
  -- just as many are left as tasks had run before `under_proto_` was set.
  pub drain-delivers :
      {sent : List Packet} {missed : ℕ} (b : Lower Packet)
      → Life sent missed b
      → b.under ≡ true
      → (b' : Lower Packet) × (drain b.posted b ≡ ok b')
        × (b'.delivered ++ b'.packet_queue ≡ sent)
        × (length b'.packet_queue ≡ missed)
  drain-delivers b life u =
      let (b', e, done, f) = drained b.posted _ _ b refl u (Life-IsFifo life) in
      (b', e, f.order, omega (arith, f.balance))
