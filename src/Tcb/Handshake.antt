-- ===== src/Tcb/Handshake.antt =====
-- Opening a connection in mstack/mstack/tcb.cpp: the states CLOSED, LISTEN and SYN-SENT of
-- `process`, and `start_connecting`. A handler's Boolean is what the method returns: true where
-- `process` returns after it.
pub mod States
pub mod Opening
pub mod Active
pub mod Answer
use mstack_cpp.Base.{
  ℕ, ◌+◌, List, [], ◌∷◌, ◌++◌, Bool, true, false, not, ◌&&◌, ltb, if◌then◌else◌, some, Result, ok,
  ◌>>=◌, ◌>>◌, assert, u32, shr, low_bits, length,
}
use mstack_cpp.Skbuff.{skbuff, fresh, payload, store_head}
use mstack_cpp.TcpHeader.{TcpHeader, fixed_size, is_set}
use mstack_cpp.TcpHeader
use mstack_cpp.Options.{
  TcpOption, monostate, sack, nop, mss, timestamp, window_scale, decode_options, encode_options,
}
use mstack_cpp.Ring.{CircularBuffer}
use mstack_cpp.Tcb.{
  Tcb, TcpState, closed, listen, syn_sent, syn_received, established, state_eq, Env, Task,
  notify_connected, post, enqueue,
}
use mstack_cpp.Tcb.Output.{additional_room, make_and_send_pkt}

-- Of the peer's options only the segment size is kept.
abbrev pub apply_option : {Ring : Type 0} → TcpOption → Tcb Ring → Tcb Ring
apply_option (mss value) t = record t { send = record (t.send) { mss = value } }
apply_option _ t = t

pub apply_options : {Ring : Type 0} → List TcpOption → Tcb Ring → Tcb Ring
apply_options [] t = t
apply_options (opt ∷ opts) t = apply_options opts (apply_option opt t)

pub tcp_handle_close_state : {Ring : Type 0} → TcpHeader → Tcb Ring → Result (Tcb Ring × Bool)
tcp_handle_close_state tcph t = do
  assert (state_eq closed t.state)
  if is_set tcph.rst
      then ok (t, true)
      else if not (is_set tcph.ack)
      then ok (t, true)
      else if is_set tcph.ack
      then ok (t, true)
      else ok (t, false)

-- `listen_finish` posts the call of `on_connection_established_`.
abbrev pub listen_finish : {Ring : Type 0} → Tcb Ring → Tcb Ring
listen_finish t = post notify_connected t

module _ {Ring : Type 0} (C : CircularBuffer Ring) (env : Env) where
  -- The block as it stands when the SYN-ACK is made.
  pub accept_syn : TcpHeader → List TcpOption → Tcb Ring → Tcb Ring
  unfolding apply_options
  accept_syn tcph opts t =
      let t1 = apply_options opts t in
      record t1 {
        rcv = record (t1.rcv) { next = u32 (tcph.seq_no + 1) };
        send = record (t1.send) {
          window = tcph.window;
          pq = some (C.create tcph.window);
          seq_nr_next = u32 (env.isn + 1);
          seq_nr_unack = env.isn;
        };
        next_state = syn_received;
      }

  pub tcp_handle_listen_state : TcpHeader → List ℕ → Tcb Ring → Result (Tcb Ring × Bool)
  tcp_handle_listen_state tcph opts t = do
    assert (state_eq listen t.state)
    if is_set tcph.rst
        then ok (t, true)
        else if is_set tcph.ack
        then ok (t, true)
        else if is_set tcph.syn
        then (do
          decoded ← decode_options opts
          t' ← make_and_send_pkt C env (accept_syn tcph decoded t)
          ok (t', true))
        else ok (t, true)

  -- The block as it stands when the SYN-ACK is acknowledged.
  pub accept_syn_ack : TcpHeader → List TcpOption → Tcb Ring → Tcb Ring
  unfolding apply_options
  accept_syn_ack tcph opts t =
      let t1 = record t {
        rcv = record (t.rcv) { next = u32 (tcph.seq_no + 1) };
        send = record (t.send) {
          window = tcph.window;
          pq = some (C.create tcph.window);
          seq_nr_unack = tcph.ack_no;
        };
      } in
      record (apply_options opts t1) { state = established; next_state = established }

  pub tcp_handle_syn_sent : TcpHeader → List ℕ → Tcb Ring → Result (Tcb Ring × Bool)
  tcp_handle_syn_sent tcph opts t = do
    assert (state_eq syn_sent t.state)
    if is_set tcph.syn && is_set tcph.ack
        then (if not (ltb tcph.ack_no t.send.seq_nr_unack)
              && not (ltb t.send.seq_nr_next tcph.ack_no)
            then (do
              decoded ← decode_options opts
              t' ← make_and_send_pkt C env (accept_syn_ack tcph decoded t)
              ok (listen_finish t', true))
            else ok (t, true))
        else ok (t, true)

-- The SYN that `start_connecting` writes into a payload of `size` bytes.
abbrev pub syn_header : {Ring : Type 0} → ℕ → ℕ → Tcb Ring → TcpHeader
syn_header isn size t = record {
  src_port = t.local_ep.addrv4_port;
  dst_port = t.remote_ep.addrv4_port;
  seq_no = isn;
  ack_no = 0;
  data_offset = low_bits (shr size 2) 4;
  reserved = 0;
  cwr = 0;
  ece = 0;
  urg = 0;
  ack = 0;
  psh = 0;
  rst = 0;
  syn = 1;
  fin = 0;
  window = t.rcv.window;
  chsum = 0;
  urgent_pointer = 0;
}

pub start_connecting : {Ring : Type 0} → Env → Tcb Ring → Result (Tcb Ring)
start_connecting env t = do
  let opts = mss 1446 ∷ nop ∷ nop ∷ sack ∷ []
  let room = additional_room + fixed_size + 8
  skb_out ← skbuff (fresh env.junk room) room additional_room
  let tcph = syn_header env.isn (length (payload skb_out)) t
  options ← encode_options 8 opts
  ok (
      enqueue
        (record {
          proto = 6;
          remote_ep = t.remote_ep;
          local_ep = t.local_ep;
          skb = store_head (TcpHeader.produce tcph ++ options) skb_out;
        })
        (record t {
          rcv = record (t.rcv) { mss = 1446 };
          send = record (t.send) { seq_nr_unack = env.isn; seq_nr_next = u32 (env.isn + 1) };
          state = syn_sent;
          next_state = established;
        }))
