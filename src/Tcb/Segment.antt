-- ===== src/Tcb/Segment.antt =====
-- `tcb_t::process` in mstack/mstack/tcb.cpp, step by step. A step's Boolean is true where
-- `process` returns in it.
pub mod Window
pub mod Ack
pub mod Wrapped
pub mod Fin
pub mod Parse
pub mod Opens
pub mod Connects
pub mod Completes
pub mod States
use mstack_cpp.Base.{
  ℕ, ◌+◌, ◌-◌, ◌*◌, ◌^◌, min, List, Bool, true, false, not, ◌&&◌, ◌||◌, ltb, leb, ◌==◌,
  if◌then◌else◌, some, Result, ok, fault, out_of_bounds, bad_bounds, ◌>>=◌, ◌>>◌, assert, u16, u32,
  u64, sub_u32, take, length,
}
use mstack_cpp.Endpoint.{TcpPacket}
use mstack_cpp.Skbuff.{payload, pop_front}
use mstack_cpp.TcpHeader.{TcpHeader, fixed_size, is_set}
use mstack_cpp.TcpHeader
use mstack_cpp.Ring.{CircularBuffer}
use mstack_cpp.Tcb.{
  Tcb, TcpState, closed, connecting, listen, syn_sent, syn_received, established, fin_wait_1,
  fin_wait_2, close_wait, closing, last_ack, time_wait, state_eq, Env, deref,
}
use mstack_cpp.Tcb.Output.{make_and_send_pkt}
use mstack_cpp.Tcb.Input.{text_stage}
use mstack_cpp.Tcb.Handshake.{
  tcp_handle_close_state, tcp_handle_listen_state, tcp_handle_syn_sent, listen_finish,
}

-- The eight states that the switches of `process` name together.
abbrev pub is_synchronized : TcpState → Bool
is_synchronized syn_received = true
is_synchronized established = true
is_synchronized fin_wait_1 = true
is_synchronized fin_wait_2 = true
is_synchronized close_wait = true
is_synchronized closing = true
is_synchronized last_ack = true
is_synchronized time_wait = true
is_synchronized _ = false

-- The text of the acceptability test; sums of sequence numbers wrap.
pub acceptable : ℕ → ℕ → ℕ → ℕ → Bool
acceptable next window seq_no seglen =
    let last = u32 (seq_no + seglen + 2 ^ 32 - 1) in
    let end = u32 (next + window) in
    if seglen == 0 && window == 0
    then seq_no == next
    else if seglen == 0 && ltb 0 window
    then leb next seq_no && ltb seq_no end
    else if ltb 0 seglen && window == 0
    then false
    else if ltb 0 seglen && ltb 0 window
    then (leb next seq_no && not (end == 0)) || (leb next last && ltb last end)
    else false

pub tcp_check_segment : {Ring : Type 0} → TcpHeader → ℕ → Tcb Ring → Bool
unfolding acceptable
tcp_check_segment tcph seglen t =
    if is_synchronized t.state then acceptable t.rcv.next t.rcv.window tcph.seq_no seglen else false

-- What `std::clamp` returns where its bounds are in order.
abbrev pub between : ℕ → ℕ → ℕ → ℕ
between v lo hi = if ltb v lo then lo else if ltb hi v then hi else v

-- `std::clamp`: bounds in the wrong order are undefined behaviour.
abbrev pub clamp : ℕ → ℕ → ℕ → Result ℕ
clamp v lo hi = if ltb hi lo then fault bad_bounds else ok (between v lo hi)

-- The test before it has the bounds of `std::clamp` in order.
pub ack_syn_received : {Ring : Type 0} → TcpHeader → Tcb Ring → Tcb Ring × Bool
ack_syn_received tcph t =
    if leb t.send.seq_nr_unack tcph.ack_no && leb tcph.ack_no t.send.seq_nr_next
    then (
      listen_finish (record t {
        send = record (t.send) {
          seq_nr_unack = between tcph.ack_no t.send.seq_nr_unack t.send.seq_nr_next;
        };
        state = established;
        next_state = established;
      }),
      false,
    )
    else (t, true)

-- What an acknowledgement means for a state that waits for that of a FIN.
abbrev pub ack_next_state : {Ring : Type 0} → Tcb Ring → TcpState
ack_next_state t =
    if state_eq t.state closing
    then time_wait
    else if state_eq t.state fin_wait_1
    then fin_wait_2
    else t.next_state

-- The cases of the eighth step fall through into one another.
abbrev pub fin_case_fin_wait_2 : {Ring : Type 0} → Tcb Ring → Tcb Ring
fin_case_fin_wait_2 t = record t { next_state = time_wait }

abbrev pub fin_case_fin_wait_1 : {Ring : Type 0} → Tcb Ring → Tcb Ring
fin_case_fin_wait_1 t =
    fin_case_fin_wait_2
      (record t { next_state = if state_eq t.next_state fin_wait_2 then time_wait else closing })

-- What follows a step that may have ended `process`.
abbrev pub unless_done :
    {Ring : Type 0} → Result (Tcb Ring × Bool) → (Tcb Ring → Result (Tcb Ring)) → Result (Tcb Ring)
unless_done m rest = m >>= λ (t, done). if done then ok t else rest t

module _ {Ring : Type 0} (C : CircularBuffer Ring) where
  -- Takes what the segment acknowledges off the send queue and moves `seq_nr_unack`.
  pub take_ack : TcpHeader → Tcb Ring → Result (Tcb Ring)
  take_ack tcph t = do
    pq ← deref t.send.pq
    let n = min (length (C.items pq)) (sub_u32 tcph.ack_no t.send.seq_nr_unack)
    seq_nr_unack ← clamp tcph.ack_no t.send.seq_nr_unack t.send.seq_nr_next
    ok (record t {
      send = record (t.send) { pq = some (C.erase_begin n pq); seq_nr_unack = seq_nr_unack };
    })

  pub ack_established : Env → TcpHeader → Tcb Ring → Result (Tcb Ring × Bool)
  unfolding take_ack
  ack_established env tcph t = do
    t1 ← take_ack tcph t
    if ltb t1.send.seq_nr_next tcph.ack_no
        then (do t2 ← make_and_send_pkt C env t1; ok (t2, true))
        else ok (record t1 { next_state = ack_next_state t1 }, false)

  -- The switch of the fifth step, on the state.
  pub ack_switch : TcpState → Env → TcpHeader → Tcb Ring → Result (Tcb Ring × Bool)
  unfolding ack_established ack_syn_received
  ack_switch syn_received env tcph t = ok (ack_syn_received tcph t)
  ack_switch established env tcph t = ack_established env tcph t
  ack_switch fin_wait_1 env tcph t = ack_established env tcph t
  ack_switch fin_wait_2 env tcph t = ack_established env tcph t
  ack_switch close_wait env tcph t = ack_established env tcph t
  ack_switch closing env tcph t = ack_established env tcph t
  ack_switch last_ack env tcph t = ok (record t { next_state = closed }, true)
  ack_switch time_wait env tcph t = do t1 ← make_and_send_pkt C env t; ok (t1, false)
  ack_switch _ env tcph t = ok (t, false)

  pub ack_stage : Env → TcpHeader → Tcb Ring → Result (Tcb Ring × Bool)
  unfolding ack_switch
  ack_stage env tcph t = if is_set tcph.ack then ack_switch t.state env tcph t else ok (t, false)

  pub fin_case_established : Env → Tcb Ring → Result (Tcb Ring)
  fin_case_established env t = do
    t1 ←
        make_and_send_pkt C env (record t {
          rcv = record (t.rcv) { next = u32 (t.rcv.next + 1) };
          next_state = close_wait;
        })
    ok (fin_case_fin_wait_1 t1)

  pub fin_switch : TcpState → Env → Tcb Ring → Result (Tcb Ring)
  unfolding fin_case_established
  fin_switch syn_received env t = fin_case_established env t
  fin_switch established env t = fin_case_established env t
  fin_switch fin_wait_1 env t = ok (fin_case_fin_wait_1 t)
  fin_switch fin_wait_2 env t = ok (fin_case_fin_wait_2 t)
  fin_switch _ env t = ok t

  pub fin_stage : Env → TcpHeader → Tcb Ring → Result (Tcb Ring)
  unfolding fin_switch
  fin_stage env tcph t = if is_set tcph.fin then fin_switch t.state env t else ok t

  -- From the sequence check on. RST and SYN end `process` in every state that passes the check;
  -- URG changes nothing.
  pub process_synchronized : Env → TcpHeader → List ℕ → Tcb Ring → Result (Tcb Ring)
  unfolding ack_stage fin_stage tcp_check_segment
  process_synchronized env tcph segment t =
      if not (tcp_check_segment tcph (u16 (length segment)) t)
      then ok t
      else if is_set tcph.rst && is_synchronized t.state
      then ok t
      else if is_set tcph.syn && is_synchronized t.state
      then ok t
      else unless_done (ack_stage env tcph t)
          (λ t1. text_stage C tcph segment t1 >>= λ t2. fin_stage env tcph t2)

  pub process_segment : Env → TcpHeader → List ℕ → List ℕ → Tcb Ring → Result (Tcb Ring)
  unfolding process_synchronized
  process_segment env tcph opts segment t =
      unless_done (if state_eq t.state closed then tcp_handle_close_state tcph t else ok (t, false))
        λ t1.
          unless_done
            (if state_eq t1.state listen
              then tcp_handle_listen_state C env tcph opts t1
              else ok (t1, false))
            λ t2.
              unless_done
                (if state_eq t2.state syn_sent
                  then tcp_handle_syn_sent C env tcph opts t2
                  else ok (t2, false))
                λ t3. process_synchronized env tcph segment t3

-- A packet's header, option bytes and text. `hlen - optlen` is computed in 64 bits, and a span
-- of options that reaches behind the payload is undefined behaviour.
unfoldable pub parse : TcpPacket → Result (TcpHeader × List ℕ × List ℕ)
parse pkt_in = do
  assert (not (ltb (length (payload pkt_in.skb)) fixed_size))
  tcph ← TcpHeader.consume (payload pkt_in.skb)
  let hlen = tcph.data_offset * 4
  let optlen = u64 (hlen + 2 ^ 64 - fixed_size)
  skb1 ← pop_front (u64 (hlen + 2 ^ 64 - optlen)) pkt_in.skb
  opts ←
      (if leb optlen (length (payload skb1))
        then ok (take optlen (payload skb1))
        else fault out_of_bounds)
  skb2 ← pop_front optlen skb1
  ok (tcph, opts, payload skb2)

pub process : {Ring : Type 0} → CircularBuffer Ring → Env → TcpPacket → Tcb Ring → Result (Tcb Ring)
unfolding process_segment parse
process C env pkt_in t = do
  (tcph, opts, segment) ← parse pkt_in
  process_segment C env tcph opts segment t
