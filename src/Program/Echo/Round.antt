-- ===== src/Program/Echo/Round.antt =====
-- A segment that is echoed at once.
use mstack_cpp.Base.{
  ℕ, suc, ◌+◌, ◌≤◌, ◌<◌, ◌≡◌, refl, ◌∙◌, ap, sym, List, [], ◌∷◌, ◌++◌, append-nil, arith, some,
  none, Option, ok, Holds, length, length-append, drop, drop-all, min, take, take-all, ◌>>=◌, ◌==◌,
  true, ok_injective,
}
use mathlib.Core.Path.{subst}
use mstack_cpp.Ring.{CircularBuffer}
use mstack_cpp.TcpHeader.{TcpHeader}
use mstack_cpp.Tcb.{Tcb, Env, Reader, Task, Receive, Send, read_done, write_done, send_pending}
use mstack_cpp.Tcb.Input.{receive_text, async_read_some}
use mstack_cpp.Tcb.Input.Stream.{stream, delivered, items-after_deliver}
use mstack_cpp.Tcb.Input.Taken.{text_taken, receive_text_lem}
use mstack_cpp.Tcb.Output.{make_and_send_pkt, run_send_pending}
use mstack_cpp.Tcb.Output.Packet.{sent, make_and_send_pkt_lem}
use mstack_cpp.Tcb.Output.Pending.{texts, run-enters, run_send_pending-IsSent}
use mstack_cpp.Tcb.Output.Writes.{send_loop-Holds, write_queued, async_write_lem}
use mstack_cpp.Program.{echo_task, async_read_and_echo, next_task, run_tasks, buf_size}
use mstack_cpp.Program.Echo.{IsEcho}
use mstack_cpp.Program.Echo.Sends.{packet_sent}
use mstack_cpp.Program.Echo.Reads.{receive_text-IsEcho}
use mstack_cpp.Program.Echo.Life.{unposted, returned, echo_task-IsEcho}

module _ {Ring : Type 0} (C : CircularBuffer Ring) (env : Env) (sk : ℕ) where
  abbrev reader : Reader
  reader = record { room = buf_size; cb = sk }

  -- A connection where everything was echoed, and where the program reads.
  pub record IsQuiet (heard : List ℕ) (t : Tcb Ring) : Type 0 where
    pub echo : IsEcho C heard t
    pub reads : t.on_data_receive ≡ record { room = buf_size; cb = sk } ∷ []
    pub nothing_posted : t.posted ≡ []
    pub empty : C.items t.rcv.pq ≡ []
    pub all_sent : texts t.out ≡ heard

  -- What sending does not touch.
  abbrev Same : Tcb Ring → Ring → Tcb Ring → Type 0
  Same t pq u =
      (u.send.pq ≡ some pq)
      × (u.rcv ≡ t.rcv)
      × (u.posted ≡ t.posted)
      × (u.on_data_receive ≡ t.on_data_receive)

  make_and_send_pkt-Same :
      (t : Tcb Ring) (pq : Ring) (u : Tcb Ring)
      → Same t pq u
      → Holds (Same t pq) (make_and_send_pkt C env u)
  make_and_send_pkt-Same t pq u s = rw (make_and_send_pkt_lem C env u pq s.0) s

  run_send_pending-Same :
      (t : Tcb Ring) (pq : Ring)
      → t.send.pq ≡ some pq
      → Holds (Same t pq) (run_send_pending C env t)
  run_send_pending-Same t pq q = rw (run-enters C env t pq q) (
      send_loop-Holds C env (Same t pq) (make_and_send_pkt-Same t pq) (suc (length (C.items pq))) t
        (q, refl, refl, refl))

  run_tasks-one :
      (n : ℕ) (task : Task) (rest : List Task) (t t1 : Tcb Ring)
      → t.posted ≡ task ∷ rest
      → echo_task C env sk task (unposted C env sk rest t) ≡ ok t1
      → run_tasks C env sk (suc n) t ≡ run_tasks C env sk n t1
  unfolding run_tasks
  run_tasks-one n task rest t t1 p e =
      ap (λ ts. next_task C env sk ts t >>= run_tasks C env sk n) p
      ∙ ap (λ r. r >>= run_tasks C env sk n) e

  -- The block that waits for the next segment.
  abbrev read_waits : Tcb Ring → Tcb Ring
  read_waits t = record t { on_data_receive = t.on_data_receive ++ reader ∷ [] }

  async_read_some-waits :
      (t : Tcb Ring) → C.items t.rcv.pq ≡ [] → async_read_some C buf_size sk t ≡ read_waits t
  unfolding async_read_some
  async_read_some-waits t empty =
      let zero_long : (length (C.items t.rcv.pq) == 0) ≡ true = ap (λ xs. length xs == 0) empty in
      rw zero_long refl

  -- The text reaches the program's read.
  given :
      (heard : List ℕ) (segment : List ℕ) (t : Tcb Ring)
      → IsQuiet heard t
      → length segment ≤ buf_size
      → ((text_taken C t.on_data_receive segment t).posted ≡ read_done sk segment ∷ [])
        × ((text_taken C t.on_data_receive segment t).on_data_receive ≡ [])
        × (C.items (text_taken C t.on_data_receive segment t).rcv.pq ≡ [])
        × ((text_taken C t.on_data_receive segment t).send ≡ t.send)
  given heard segment t q short =
      let n : min (length segment) buf_size ≡ length segment = omega arith in
      let whole : take (min (length segment) buf_size) segment ≡ segment =
        take-all (min (length segment) buf_size) segment (omega arith) in
      subst
        (λ rs.
          ((text_taken C rs segment t).posted ≡ read_done sk segment ∷ [])
          × ((text_taken C rs segment t).on_data_receive ≡ [])
          × (C.items (text_taken C rs segment t).rcv.pq ≡ [])
          × ((text_taken C rs segment t).send ≡ t.send))
        (sym q.reads)
        (
          ap (λ ts. ts ++ read_done sk (take (min (length segment) buf_size) segment) ∷ [])
                q.nothing_posted
              ∙ ap (λ bs. read_done sk bs ∷ []) whole,
          refl,
          items-after_deliver C reader [] segment t q.empty
              ∙ drop-all (min (length segment) buf_size) segment (omega arith),
          refl,
        )

  -- The three tasks that a read leaves: the write, the loop that sends it, and the next read.
  pub written :
      (segment : List ℕ) (t : Tcb Ring) (pq : Ring)
      → t.send.pq ≡ some pq
      → t.posted ≡ read_done sk segment ∷ []
      → length (C.items pq) + length segment ≤ C.capacity pq
      → echo_task C env sk (read_done sk segment) (unposted C env sk [] t)
        ≡ ok (
            packet_sent C env
              (write_queued C segment sk (unposted C env sk [] t) pq)
              (C.insert_end segment pq))
  unfolding echo_task
  written segment t pq q p fits =
      let t0 = unposted C env sk [] t in
      ap (λ r. r >>= make_and_send_pkt C env) (async_write_lem C segment sk t0 pq q fits)
      ∙ make_and_send_pkt_lem C env (write_queued C segment sk t0 pq) (C.insert_end segment pq) refl

  some_injective : {A : Type 0} (a b : A) → some a ≡ some b → a ≡ b
  some_injective a b e = ap (λ o. or_a a o) e
    where
      or_a : {A : Type 0} → A → Option A → A
      or_a a none = a
      or_a a (some b) = b

  -- Where nothing is left to send or to read, everything was echoed.
  all_echoed :
      (heard : List ℕ) (t : Tcb Ring) (pq : Ring)
      → IsEcho C heard t
      → t.send.pq ≡ some pq
      → sent C t pq ≡ length (C.items pq)
      → t.posted ≡ []
      → C.items t.rcv.pq ≡ []
      → texts t.out ≡ heard
  all_echoed heard t pq e q all p empty =
      let same : e.pq ≡ pq = some_injective e.pq pq (sym e.has_queue.queue ∙ q) in
      let left : drop (sent C t e.pq) (C.items e.pq) ≡ [] =
        ap (λ r. drop (sent C t r) (C.items r)) same
        ∙ drop-all (sent C t pq) (C.items pq) (omega (arith, all)) in
      let nothing : stream C t ≡ [] = ap (λ ts. delivered ts ++ C.items t.rcv.pq) p ∙ empty in
      sym (
        ap (λ ys. texts t.out ++ (ys ++ stream C t)) left
        ∙ ap (λ ys. texts t.out ++ ys) nothing
        ∙ append-nil (texts t.out))
      ∙ e.carries

  -- A connection of the program where everything was echoed, whose send queue holds what is in
  -- flight and whose SND.UNA and capacity are below 2 ^ 32, is given the text of a segment that
  -- follows what was received, fits the program's buffer and the receive buffer, and fits the
  -- send queue with what is not acknowledged there; the peer's segment size is not 0. Then
  -- taking the text and running three posted tasks never fails, and the connection is again as
  -- it was, with the text echoed: the program reads, no task is left, and the texts of the
  -- packets that were sent are all that was heard. The segment size stays.
  pub run_tasks-echoes :
      (heard : List ℕ) (tcph : TcpHeader) (segment : List ℕ) (t : Tcb Ring)
      → (q : IsQuiet heard t) → 0 < t.send.mss
      → length segment ≤ buf_size
      → length segment ≤ C.capacity t.rcv.pq
      → t.rcv.next ≤ tcph.seq_no
      → length (C.items q.echo.pq) + length segment ≤ C.capacity q.echo.pq
      → (t1 t' : Tcb Ring) × (receive_text C tcph segment t ≡ ok t1)
        × (run_tasks C env sk 3 t1 ≡ ok t')
        × IsQuiet (heard ++ segment) t'
        × (t'.send.mss ≡ t.send.mss)
  unfolding echo_task async_read_and_echo run_tasks
  run_tasks-echoes heard tcph segment t q positive short fits ahead room =
      let none : length (C.items t.rcv.pq) ≡ 0 = ap length q.empty in
      let all = heard ++ segment in
      let pq = q.echo.pq in
      let t1 = text_taken C t.on_data_receive segment t in
      let (posted1, readers1, empty1, send1) = given heard segment t q short in
      let (t1', runs1, echo1') =
        receive_text-IsEcho C heard tcph segment t q.echo (omega (arith, none))
          (omega (arith, none)) in
      let (taken, grown) =
        receive_text_lem C tcph segment t q.echo.waiting (omega (arith, none))
          (omega (arith, none)) in
      let echo1 = subst (IsEcho C all) (ok_injective (sym runs1 ∙ taken)) echo1' in
      let read = read_done sk segment in
      let write = write_done sk (length segment) in
      let pq2 = C.insert_end segment pq in
      let items2 = C.items-insert_end segment pq room in
      let has1 : t1.send.pq ≡ some pq =
        ap (λ (x : Send Ring). x.pq) send1 ∙ q.echo.has_queue.queue in
      let mss1 : t1.send.mss ≡ t.send.mss = ap (λ (x : Send Ring). x.mss) send1 in
      let t2 = packet_sent C env (write_queued C segment sk (unposted C env sk [] t1) pq) pq2 in
      let e2 = written segment t1 pq has1 posted1 room in
      let echo2 =
        returned C env sk (IsEcho C all) _ t2 e2
          (echo_task-IsEcho C env sk all read [] t1 posted1 echo1) in
      let t2b = unposted C env sk (write ∷ []) t2 in
      let (t3, r3, s3) =
        run_send_pending-IsSent C env t2b pq2 refl (omega (arith, mss1, positive))
          echo2.has_queue.unack
          (omega (
            arith,
            ap length items2,
            length-append (C.items pq) segment,
            room,
            q.echo.has_queue.capacity,
          )) in
      let echo3 =
        returned C env sk (IsEcho C all) _ t3 r3
          (echo_task-IsEcho C env sk all send_pending (write ∷ []) t2 refl echo2) in
      let (queue3, rcv3, posted3, readers3) =
        returned C env sk (Same t2b pq2) _ t3 r3 (run_send_pending-Same t2b pq2 refl) in
      let empty3 : C.items t3.rcv.pq ≡ [] = ap (λ (r : Receive Ring). C.items r.pq) rcv3 ∙ empty1 in
      let t4 = read_waits (unposted C env sk [] t3) in
      let e4 : echo_task C env sk write (unposted C env sk [] t3) ≡ ok t4 =
        ap (λ u. ok u) (async_read_some-waits (unposted C env sk [] t3) empty3) in
      let echo4 =
        returned C env sk (IsEcho C all) _ t4 e4
          (echo_task-IsEcho C env sk all write [] t3 posted3 echo3) in
      (
        t1,
        t4,
        taken,
        run_tasks-one 2 read [] t1 t2 posted1 e2
            ∙ run_tasks-one 1 send_pending (write ∷ []) t2 t3 refl r3
            ∙ run_tasks-one 0 write [] t3 t4 posted3 e4,
        record {
          echo = echo4;
          reads = ap (λ rs. rs ++ reader ∷ []) (readers3 ∙ readers1);
          nothing_posted = refl;
          empty = empty3;
          all_sent = all_echoed all t4 pq2 echo4 queue3 s3.all_sent refl empty3;
        },
        s3.mss ∙ mss1,
      )
