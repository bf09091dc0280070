-- ===== src/Tcb/Handshake/Active.antt =====
-- `start_connecting`: the SYN that is sent and the block that is left.
use mstack_cpp.Base.{ℕ, ◌+◌, ◌^◌, ◌<◌, ◌≡◌, refl, List, [], ◌∷◌, ◌++◌, arith, ok, u32}
use mstack_cpp.Endpoint.{TcpPacket}
use mstack_cpp.Skbuff.{fresh, store_head}
use mstack_cpp.Skbuff.Laws.{IsValid, length-fresh, length-payload, skbuff_lem}
use mstack_cpp.TcpHeader.{TcpHeader, fixed_size}
use mstack_cpp.TcpHeader
use mstack_cpp.TcpHeader.Roundtrip.{Fits}
use mstack_cpp.Options.{TcpOption, mss, nop, sack, encode_options}
use mstack_cpp.Tcb.{Tcb, syn_sent, established, Env, enqueue}
use mstack_cpp.Tcb.Output.{additional_room}
use mstack_cpp.Tcb.Output.Packet.{Fields, blank}
use mstack_cpp.Tcb.Handshake.{syn_header, start_connecting}

abbrev pub syn_options : List TcpOption
syn_options = mss 1446 ∷ nop ∷ nop ∷ sack ∷ []

abbrev pub syn_room : ℕ
syn_room = additional_room + fixed_size + 8

-- The SYN's header, the packet that holds it with `bs` as its option bytes, and the block.
abbrev pub syn_of : {Ring : Type 0} → Env → Tcb Ring → TcpHeader
syn_of env t = syn_header env.isn 28 t

abbrev pub syn_packet : {Ring : Type 0} → Env → Tcb Ring → List ℕ → TcpPacket
syn_packet env t bs = record {
  proto = 6;
  remote_ep = t.remote_ep;
  local_ep = t.local_ep;
  skb = store_head (TcpHeader.produce (syn_of env t) ++ bs) (blank env syn_room);
}

abbrev pub syn_sent_block : {Ring : Type 0} → Env → Tcb Ring → Tcb Ring
syn_sent_block env t = record t {
  rcv = record (t.rcv) { mss = 1446 };
  send = record (t.send) { seq_nr_unack = env.isn; seq_nr_next = u32 (env.isn + 1) };
  state = syn_sent;
  next_state = established;
}

module _ {Ring : Type 0} (env : Env) (t : Tcb Ring) where
  pub blank-IsValid : (n : ℕ) → additional_room + n ≡ syn_room → IsValid (blank env syn_room)
  blank-IsValid n h = record {
    sized = length-fresh env.junk syn_room;
    ordered = omega arith;
    inside = omega arith;
  }

  pub start_connecting_lem :
      (bs : List ℕ)
      → encode_options 8 syn_options ≡ ok bs
      → start_connecting env t ≡ ok (enqueue (syn_packet env t bs) (syn_sent_block env t))
  unfolding start_connecting
  start_connecting_lem bs e =
      let v = blank-IsValid 28 refl in
      ground (
        arith,
        skbuff_lem (fresh env.junk syn_room) syn_room additional_room (omega arith),
        e,
        length-payload (blank env syn_room) v,
      )

  pub syn-Fits : Fields t → env.isn < 2 ^ 32 → Fits (syn_of env t)
  syn-Fits f i = ground arith
