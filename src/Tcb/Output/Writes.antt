-- ===== src/Tcb/Output/Writes.antt =====
-- What writes leave in the send queue, and what holds over the loop that sends it.
use mstack_cpp.Base.{
  ℕ, zero, suc, ◌+◌, ◌≤◌, ◌<◌, ◌≡◌, refl, List, [], ◌∷◌, ◌++◌, arith, Bool, true, false, some,
  Result, ok, fault, assertion, ◌>>=◌, Holds, Holds->>=, length, ltb,
}
use mstack_cpp.Ring.{CircularBuffer}
use mstack_cpp.Tcb.{Tcb, Env, write_done, send_pending}
use mstack_cpp.Tcb.Output.{
  async_write, enqueue_app_data, make_and_send_pkt, has_app_data_to_send, send_loop,
}

-- What each packet keeps, the loop keeps.
module _ {Ring : Type 0} (C : CircularBuffer Ring) (env : Env) (P : Tcb Ring → Type 0)
    (keeps : (u : Tcb Ring) → P u → Holds P (make_and_send_pkt C env u)) where
  round-Holds :
      (t : Tcb Ring) (rest : Tcb Ring → Result (Tcb Ring))
      → P t
      → ((u : Tcb Ring) → P u → Holds P (rest u))
      → (more : Result Bool)
      → Holds P (
          more >>= λ b. elim b [
            | true ↦ make_and_send_pkt C env t >>= λ t'. rest t'
            | false ↦ ok t
          ])
  round-Holds t rest e ih (fault why) = tt
  round-Holds t rest e ih (ok false) = e
  round-Holds t rest e ih (ok true) = Holds->>= P P (make_and_send_pkt C env t) rest (keeps t e) ih

  pub send_loop-Holds : (fuel : ℕ) (t : Tcb Ring) → P t → Holds P (send_loop C env fuel t)
  unfolding send_loop
  send_loop-Holds zero t e = tt
  send_loop-Holds (suc fuel) t e =
      round-Holds t (send_loop C env fuel) e (λ u h. send_loop-Holds fuel u h)
        (has_app_data_to_send C t)

module _ {Ring : Type 0} (C : CircularBuffer Ring) where
  -- The block after a write that fits the queue.
  abbrev pub write_queued : List ℕ → ℕ → Tcb Ring → Ring → Tcb Ring
  write_queued bytes cb t pq = record t {
    send = record (t.send) { pq = some (C.insert_end bytes pq) };
    posted = (t.posted ++ send_pending ∷ []) ++ write_done cb (length bytes) ∷ [];
  }

  pub async_write_lem :
      (bytes : List ℕ) (cb : ℕ) (t : Tcb Ring) (pq : Ring)
      → t.send.pq ≡ some pq
      → length (C.items pq) + length bytes ≤ C.capacity pq
      → async_write C bytes cb t ≡ ok (write_queued bytes cb t pq)
  unfolding async_write enqueue_app_data
  async_write_lem bytes cb t pq q fits =
      let room : ltb (C.capacity pq) (length (C.items pq) + length bytes) ≡ false = ground arith in
      rw (q, room) refl

  pub async_write-overflow :
      (bytes : List ℕ) (cb : ℕ) (t : Tcb Ring) (pq : Ring)
      → t.send.pq ≡ some pq
      → C.capacity pq < length (C.items pq) + length bytes
      → async_write C bytes cb t ≡ fault assertion
  unfolding async_write enqueue_app_data
  async_write-overflow bytes cb t pq q over =
      let room : ltb (C.capacity pq) (length (C.items pq) + length bytes) ≡ true = ground arith in
      rw (q, room) refl
