-- ===== src/Tcb/Output/States.antt =====
-- What sending does to the states.
use mstack_cpp.Base.{
  ℕ, zero, suc, ◌≡◌, refl, inl, inr, List, length, Bool, true, false, none, Option-cases, Result,
  ok, fault, null_deref, ◌>>=◌, Holds, Holds->>=, Holds-map, Holds-after, assert, not, ltb, ◌+◌,
}
use mstack_cpp.Ring.{CircularBuffer}
use mstack_cpp.Tcb.{Tcb, Env, Task, deref, read_done, write_done, send_pending, notify_connected}
use mstack_cpp.Tcb.Phase.{
  phase, Advances, Stays, Sends, Sends-Advances, Stays-Advances, Advances-trans,
}
use mstack_cpp.Tcb.Output.{
  make_packet, make_and_send_pkt, app_data_to_send_left, has_app_data_to_send, send_loop,
  run_send_pending, run_task, enqueue_app_data, async_write,
}
use mstack_cpp.Tcb.Output.Packet.{make_and_send_pkt_lem}
use mstack_cpp.Tcb.Output.Pending.{run-enters}

module _ {Ring : Type 0} (C : CircularBuffer Ring) where
  -- A block that has no send queue yet cannot send: the null pointer is read.
  pub make_and_send_pkt-null :
      (env : Env) (t : Tcb Ring) → t.send.pq ≡ none → make_and_send_pkt C env t ≡ fault null_deref
  unfolding make_and_send_pkt make_packet app_data_to_send_left
  make_and_send_pkt-null env t e = rw e

  pub make_and_send_pkt-Sends :
      (env : Env) (t : Tcb Ring) → Holds (Sends t) (make_and_send_pkt C env t)
  make_and_send_pkt-Sends env t = elim (Option-cases t.send.pq) [
    | inl e ↦ rw (make_and_send_pkt-null env t e) tt
    | inr (pq, e) ↦ rw (make_and_send_pkt_lem C env t pq e) (refl, refl)
  ]

  run-null :
      (env : Env) (t : Tcb Ring) → t.send.pq ≡ none → run_send_pending C env t ≡ fault null_deref
  run-null env t e = unfold run_send_pending in rw e

  pub make_and_send_pkt-Advances :
      (env : Env) (t : Tcb Ring)
      → phase t.state t.next_state ≡ true
      → Holds (Advances t) (make_and_send_pkt C env t)
  make_and_send_pkt-Advances env t h =
      Holds-map (Sends t) (Advances t) (make_and_send_pkt C env t) (make_and_send_pkt-Sends env t)
        (λ u s. Sends-Advances t u h s)

  -- One round, whatever the test comes to, over rounds that advance.
  round-Advances :
      (env : Env) (t : Tcb Ring) (rest : Tcb Ring → Result (Tcb Ring))
      → phase t.state t.next_state ≡ true
      → ((u : Tcb Ring) → phase u.state u.next_state ≡ true → Holds (Advances u) (rest u))
      → (more : Result Bool)
      → Holds (Advances t) (
          more >>= λ b. elim b [
            | true ↦ make_and_send_pkt C env t >>= λ t'. rest t'
            | false ↦ ok t
          ])
  round-Advances env t rest h ih (fault e) = tt
  round-Advances env t rest h ih (ok false) = Stays-Advances t t h (refl, refl)
  round-Advances env t rest h ih (ok true) =
      Holds->>= (Advances t) (Advances t) (make_and_send_pkt C env t) rest
        (make_and_send_pkt-Advances env t h)
        λ u a.
          Holds-map (Advances u) (Advances t) (rest u) (ih u a.0) (λ v b. Advances-trans t u v a b)

  send_loop-Advances :
      (env : Env) (fuel : ℕ) (t : Tcb Ring)
      → phase t.state t.next_state ≡ true
      → Holds (Advances t) (send_loop C env fuel t)
  unfolding send_loop
  send_loop-Advances env zero t h = tt
  send_loop-Advances env (suc fuel) t h =
      round-Advances env t (send_loop C env fuel) h (send_loop-Advances env fuel)
        (has_app_data_to_send C t)

  run_send_pending-Advances :
      (env : Env) (t : Tcb Ring)
      → phase t.state t.next_state ≡ true
      → Holds (Advances t) (run_send_pending C env t)
  run_send_pending-Advances env t h = elim (Option-cases t.send.pq) [
    | inl e ↦ rw (run-null env t e) tt
    | inr (pq, e) ↦
        rw (run-enters C env t pq e) (send_loop-Advances env (suc (length (C.items pq))) t h)
  ]

  -- Every posted task advances the block that it runs on.
  pub run_task-Advances :
      (env : Env) (task : Task) (t : Tcb Ring)
      → phase t.state t.next_state ≡ true
      → Holds (Advances t) (run_task C env task t)
  unfolding run_task
  run_task-Advances env (read_done cb bytes) t h = make_and_send_pkt-Advances env t h
  run_task-Advances env (write_done cb size) t h = Stays-Advances t t h (refl, refl)
  run_task-Advances env send_pending t h = run_send_pending-Advances env t h
  run_task-Advances env notify_connected t h = Stays-Advances t t h (refl, refl)

  enqueue_app_data-Stays :
      (buf : List ℕ) (t : Tcb Ring) → Holds (Stays t) (enqueue_app_data C buf t)
  unfolding enqueue_app_data
  enqueue_app_data-Stays buf t = Holds-after (Stays t) (deref t.send.pq) _ λ pq.
      Holds-after (Stays t) (assert (not (ltb (C.capacity pq) (length (C.items pq) + length buf))))
        _ λ u. (refl, refl)

  pub async_write-Stays :
      (buf : List ℕ) (cb : ℕ) (t : Tcb Ring) → Holds (Stays t) (async_write C buf cb t)
  unfolding async_write
  async_write-Stays buf cb t =
      Holds->>= (Stays t) (Stays t) (enqueue_app_data C buf t) _ (enqueue_app_data-Stays buf t)
        (λ u s. s)
