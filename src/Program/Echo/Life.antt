-- ===== src/Program/Echo/Life.antt =====
-- The life of a block that the program echoes.
use mstack_cpp.Base.{
  ℕ, ◌+◌, ◌≤◌, ◌≡◌, refl, ◌∙◌, ap, sym, List, [], ◌∷◌, ◌++◌, append_assoc, arith, Result, ok, Holds,
  Holds->>=, length, append-nil, drop-all, ok_injective, inl, drop,
}
use mathlib.Core.Path.{subst}
use mstack_cpp.Ring.{CircularBuffer}
use mstack_cpp.TcpHeader.{TcpHeader}
use mstack_cpp.Tcb.{Tcb, Env, Task, read_done, write_done, send_pending, notify_connected}
use mstack_cpp.Tcb.Input.{receive_text}
use mstack_cpp.Tcb.Input.Stream.{stream, delivered}
use mstack_cpp.Tcb.Output.{async_write, make_and_send_pkt}
use mstack_cpp.Tcb.Output.Packet.{sent}
use mstack_cpp.Tcb.Output.Pending.{texts}
use mstack_cpp.Program.{echo_task, async_read_and_echo, buf_size}
use mstack_cpp.Program.Echo.{outstanding, HasQueue, Carries, IsEcho}
use mstack_cpp.Program.Echo.Sends.{
  delivered-both, outstanding-both, make_and_send_pkt-IsEcho, run_send_pending-IsEcho,
  async_write-IsEcho,
}
use mstack_cpp.Program.Echo.Reads.{keeps_queue, async_read_some-IsEcho, receive_text-IsEcho}

module _ {Ring : Type 0} (C : CircularBuffer Ring) (env : Env) (sk : ℕ) where
  -- A connection as `async_accept` gives it: nothing was sent or read on it yet, and what it has
  -- received is in its buffer.
  pub record IsAccepted (t : Tcb Ring) : Type 0 where
    pub pq : Ring
    pub has_queue : HasQueue C t pq
    pub nothing_to_send : C.items pq ≡ []
    pub nothing_sent : t.out ≡ []
    pub nothing_posted : t.posted ≡ []
    pub nobody_reads : t.on_data_receive ≡ []

  -- `heard` has the bytes that were received, oldest first: those in the buffer at first, and then
  -- the text of each segment that follows what was received and fits the buffer.
  pub data EchoLife : List ℕ → Tcb Ring → Type 0 where
    accepted :
        (t : Tcb Ring) → IsAccepted t → EchoLife (C.items t.rcv.pq) (async_read_and_echo C env sk t)
    hears :
        {heard : List ℕ} {t t' : Tcb Ring} (tcph : TcpHeader) (segment : List ℕ)
        → EchoLife heard t
        → length (C.items t.rcv.pq) + length segment ≤ C.capacity t.rcv.pq
        → t.rcv.next + length (C.items t.rcv.pq) ≤ tcph.seq_no
        → receive_text C tcph segment t ≡ ok t'
        → EchoLife (heard ++ segment) t'
    runs_task :
        {heard : List ℕ} {t t' : Tcb Ring} (task : Task) (rest : List Task)
        → EchoLife heard t
        → t.posted ≡ task ∷ rest
        → echo_task C env sk task (record t { posted = rest }) ≡ ok t'
        → EchoLife heard t'

  abbrev pub unposted : List Task → Tcb Ring → Tcb Ring
  unposted rest t = record t { posted = rest }

  -- A block without the task that runs.
  record IsBare (heard bytes : List ℕ) (count : ℕ) (rest : List Task) (t : Tcb Ring) : Type 0 where
    pq : Ring
    has_queue : HasQueue C (unposted rest t) pq
    carries : Carries C heard (bytes ++ stream C (unposted rest t)) (unposted rest t) pq
    one : count + (outstanding rest + length t.on_data_receive) ≡ 1

  bare :
      (heard : List ℕ) (task : Task) (rest : List Task) (t : Tcb Ring)
      → t.posted ≡ task ∷ rest
      → IsEcho C heard t
      → IsBare heard (delivered (task ∷ [])) (outstanding (task ∷ [])) rest t
  bare heard task rest t p e =
      let apart : delivered t.posted ≡ delivered (task ∷ []) ++ delivered rest =
        ap delivered p ∙ delivered-both (task ∷ []) rest in
      let left = drop (sent C t e.pq) (C.items e.pq) in
      record {
        pq = e.pq;
        has_queue = keeps_queue C t (unposted rest t) e.pq refl e.has_queue;
        carries =
            ap (λ ys. texts t.out ++ (left ++ ys))
              (sym (append_assoc (delivered (task ∷ [])) (delivered rest) (C.items t.rcv.pq))
                ∙ ap (λ ds. ds ++ C.items t.rcv.pq) (sym apart))
            ∙ e.carries;
        one = omega (arith, e.one, ap outstanding p, outstanding-both (task ∷ []) rest);
      }

  -- The tasks that are no callback of the program.
  other :
      (heard : List ℕ) (task : Task) (rest : List Task) (t : Tcb Ring)
      → t.posted ≡ task ∷ rest
      → IsEcho C heard t
      → delivered (task ∷ []) ≡ []
      → outstanding (task ∷ []) ≡ 0
      → IsEcho C heard (unposted rest t)
  other heard task rest t p e nothing none =
      let b = bare heard task rest t p e in
      record {
        pq = b.pq;
        has_queue = b.has_queue;
        carries =
            ap
              (λ ys.
                texts t.out
                ++ (drop (sent C t b.pq) (C.items b.pq) ++ (ys ++ stream C (unposted rest t))))
              (sym nothing)
            ∙ b.carries;
        one = omega (arith, b.one, none);
        waiting = e.waiting;
      }

  pub echo_task-IsEcho :
      (heard : List ℕ) (task : Task) (rest : List Task) (t : Tcb Ring)
      → t.posted ≡ task ∷ rest
      → IsEcho C heard t
      → Holds (IsEcho C heard) (echo_task C env sk task (unposted rest t))
  unfolding echo_task async_read_and_echo
  echo_task-IsEcho heard (read_done cb bytes) rest t p e =
      let b = bare heard (read_done cb bytes) rest t p e in
      Holds->>= (IsEcho C heard) (IsEcho C heard) (async_write C bytes sk (unposted rest t))
        (make_and_send_pkt C env)
        (async_write-IsEcho C heard bytes sk (unposted rest t) b.pq b.has_queue
          (ap
              (λ ys.
                texts t.out
                ++ (drop (sent C t b.pq) (C.items b.pq) ++ (ys ++ stream C (unposted rest t))))
              (sym (append-nil bytes))
            ∙ b.carries)
          (omega (arith, b.one)) e.waiting)
        (make_and_send_pkt-IsEcho C env heard)
  echo_task-IsEcho heard (write_done cb size) rest t p e =
      let b = bare heard (write_done cb size) rest t p e in
      async_read_some-IsEcho C heard buf_size sk (unposted rest t) b.pq b.has_queue b.carries
        (omega (arith, b.one)) e.waiting
  echo_task-IsEcho heard send_pending rest t p e =
      run_send_pending-IsEcho C env heard (unposted rest t)
        (other heard send_pending rest t p e refl refl)
  echo_task-IsEcho heard notify_connected rest t p e =
      other heard notify_connected rest t p e refl refl

  accepted-IsEcho :
      (t : Tcb Ring) → IsAccepted t → IsEcho C (C.items t.rcv.pq) (async_read_and_echo C env sk t)
  unfolding async_read_and_echo
  accepted-IsEcho t a =
      let left : drop (sent C t a.pq) (C.items a.pq) ≡ [] =
        drop-all (sent C t a.pq) (C.items a.pq) (omega (arith, ap length a.nothing_to_send)) in
      async_read_some-IsEcho C (C.items t.rcv.pq) buf_size sk t a.pq a.has_queue
        (ap (λ ps. texts ps ++ (drop (sent C t a.pq) (C.items a.pq) ++ stream C t)) a.nothing_sent
          ∙ ap (λ ys. ys ++ stream C t) left
          ∙ ap (λ ts. delivered ts ++ C.items t.rcv.pq) a.nothing_posted)
        (omega (arith, ap outstanding a.nothing_posted, ap length a.nobody_reads))
        (inl a.nobody_reads)

  pub returned :
      (P : Tcb Ring → Type 0) (m : Result (Tcb Ring)) (t : Tcb Ring) → m ≡ ok t → Holds P m → P t
  returned P m t e h = subst (Holds P) e h

  -- In every life of a connection that the program echoes: the texts of the packets that it sent,
  -- followed by the bytes of the send queue that were not sent yet, those of a read that has ended,
  -- and those in the receive buffer, are the bytes that it received, in order. Just one read or
  -- write is outstanding, and a read waits only while the receive buffer is empty. Acknowledgements,
  -- which take bytes off the queue, and errors are not among the steps.
  pub EchoLife-IsEcho : {heard : List ℕ} {t : Tcb Ring} → EchoLife heard t → IsEcho C heard t
  EchoLife-IsEcho (accepted t a) = accepted-IsEcho t a
  EchoLife-IsEcho (hears {heard} {t} {t'} tcph segment life fits ahead e) =
      let (t1, runs, echo) =
        receive_text-IsEcho C heard tcph segment t (EchoLife-IsEcho life) fits ahead in
      subst (IsEcho C (heard ++ segment)) (ok_injective (sym runs ∙ e)) echo
  EchoLife-IsEcho (runs_task {heard} {t} {t'} task rest life p e) =
      returned (IsEcho C heard) (echo_task C env sk task (unposted rest t)) t' e
        (echo_task-IsEcho heard task rest t p (EchoLife-IsEcho life))
