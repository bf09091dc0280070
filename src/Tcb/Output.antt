-- ===== src/Tcb/Output.antt =====
-- The sending half of mstack/mstack/tcb.cpp: what is still to send, packets, writes.
pub mod Packet
pub mod Pending
pub mod Writes
pub mod States
use mstack_cpp.Base.{
  ℕ, zero, suc, ◌+◌, ◌-◌, min, List, ◌++◌, Bool, true, false, not, ltb, ◌==◌, if◌then◌else◌, some,
  Result, ok, fault, out_of_fuel, ◌>>=◌, ◌>>◌, assert, u32, sub_u32, take, drop, length,
}
use mstack_cpp.Endpoint.{TcpPacket}
use mstack_cpp.Skbuff.{skbuff, fresh, store_head}
use mstack_cpp.TcpHeader.{TcpHeader, fixed_size}
use mstack_cpp.TcpHeader
use mstack_cpp.Ring.{CircularBuffer}
use mstack_cpp.Tcb.{
  Tcb, TcpState, syn_received, state_eq, Env, Task, read_done, write_done, send_pending,
  notify_connected, deref, post, enqueue,
}

-- `ethernetv2_header_t::size() + ipv4_header_t::fixed_size()`.
abbrev pub additional_room : ℕ
additional_room = 34

abbrev pub flag : Bool → ℕ
flag true = 1
flag false = 0

module _ {Ring : Type 0} (C : CircularBuffer Ring) where
  pub app_data_unacknowleged : Tcb Ring → Result ℕ
  app_data_unacknowleged t = do
    pq ← deref t.send.pq
    ok (min (length (C.items pq)) (sub_u32 t.send.seq_nr_next t.send.seq_nr_unack))

  pub app_data_to_send_left : Tcb Ring → Result ℕ
  unfolding app_data_unacknowleged
  app_data_to_send_left t = do
    pq ← deref t.send.pq
    unacknowleged ← app_data_unacknowleged t
    ok (min t.send.mss (length (C.items pq) - unacknowleged))

  pub has_app_data_to_send : Tcb Ring → Result Bool
  unfolding app_data_to_send_left
  has_app_data_to_send t = do left ← app_data_to_send_left t; ok (not (left == 0))

  -- The header that `make_packet` writes before `seg_len` bytes of data.
  unfoldable pub out_header : Tcb Ring → ℕ → TcpHeader
  out_header t seg_len = record {
    src_port = t.local_ep.addrv4_port;
    dst_port = t.remote_ep.addrv4_port;
    seq_no = if seg_len == 0 then t.send.seq_nr_unack else t.send.seq_nr_next;
    ack_no = t.rcv.next;
    data_offset = 5;
    reserved = 0;
    cwr = 0;
    ece = 0;
    urg = 0;
    ack = 1;
    psh = flag (ltb 0 seg_len);
    rst = 0;
    syn = flag (state_eq syn_received t.next_state);
    fin = 0;
    window = t.rcv.window;
    chsum = 0;
    urgent_pointer = 0;
  }

  -- `state_` follows `next_state_` where they differ, so it becomes `next_state_`.
  pub make_packet : Env → Tcb Ring → Result (Tcb Ring × TcpPacket)
  unfolding app_data_to_send_left out_header
  make_packet env t = do
    seg_len ← app_data_to_send_left t
    let room = additional_room + fixed_size + seg_len
    skb_out ← skbuff (fresh env.junk room) room additional_room
    pq ← deref t.send.pq
    unacknowleged ← app_data_unacknowleged t
    assert (not (ltb (length (C.items pq)) (unacknowleged + seg_len)))
    let segment = take seg_len (drop unacknowleged (C.items pq))
    ok (
      record t {
        send = record (t.send) { seq_nr_next = u32 (t.send.seq_nr_next + seg_len) };
        state = t.next_state;
      },
      record {
        proto = 6;
        remote_ep = t.remote_ep;
        local_ep = t.local_ep;
        skb = store_head (TcpHeader.produce (out_header t seg_len) ++ segment) skb_out;
      },
    )

  pub make_and_send_pkt : Env → Tcb Ring → Result (Tcb Ring)
  unfolding make_packet
  make_and_send_pkt env t = do (t', pkt) ← make_packet env t; ok (enqueue pkt t')

  -- `while (has_app_data_to_send()) make_and_send_pkt();` on fuel.
  pub send_loop : Env → ℕ → Tcb Ring → Result (Tcb Ring)
  send_loop env zero t = fault out_of_fuel
  send_loop env (suc fuel) t = do
    more ← has_app_data_to_send t
    elim more [ true ↦ make_and_send_pkt env t >>= λ t'. send_loop env fuel t' | false ↦ ok t ]

  -- The task that `enqueue_app_data` posts; every round sends a byte of the queue at least.
  pub run_send_pending : Env → Tcb Ring → Result (Tcb Ring)
  unfolding send_loop has_app_data_to_send make_and_send_pkt
  run_send_pending env t = do pq ← deref t.send.pq; send_loop env (suc (length (C.items pq))) t

  pub enqueue_app_data : List ℕ → Tcb Ring → Result (Tcb Ring)
  enqueue_app_data pkt t = do
    pq ← deref t.send.pq
    assert (not (ltb (C.capacity pq) (length (C.items pq) + length pkt)))
    ok (post send_pending (record t { send = record (t.send) { pq = some (C.insert_end pkt pq) } }))

  pub async_write : List ℕ → ℕ → Tcb Ring → Result (Tcb Ring)
  unfolding enqueue_app_data
  async_write buf cb t = do t' ← enqueue_app_data buf t; ok (post (write_done cb (length buf)) t')

  -- What a posted task does to the block when the event loop runs it.
  pub run_task : Env → Task → Tcb Ring → Result (Tcb Ring)
  unfolding make_and_send_pkt run_send_pending
  run_task env (read_done cb bytes) t = make_and_send_pkt env t
  run_task env (write_done cb size) t = ok t
  run_task env send_pending t = run_send_pending env t
  run_task env notify_connected t = ok t
