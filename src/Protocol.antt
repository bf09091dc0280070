-- ===== src/Protocol.antt =====
-- mstack/mstack/base_protocol.hpp: the queue to the layer below, whose head a posted task hands
-- over, and the dispatch to the layers above by protocol number.
pub mod Fifo
pub mod Dispatch
use mstack_cpp.Base.{
  ℕ, ◌+◌, ◌-◌, List, [], ◌∷◌, ◌++◌, Bool, true, false, ◌==◌, if◌then◌else◌, Option, none, some,
  Result, ok, fault, out_of_bounds, ◌>>=◌,
}
use mstack_cpp.AddrMap
use mstack_cpp.AddrMap.{AddrMap}

-- `under` says whether `under_proto_` is set, `posted` counts the tasks of `enqueue` that have not
-- run, and `delivered` has what the layer below was given, oldest first.
pub record Lower (Packet : Type 0) : Type 0 where
  pub under : Bool
  pub packet_queue : List Packet
  pub posted : ℕ
  pub delivered : List Packet

abbrev pub constructed : {Packet : Type 0} → Lower Packet
constructed = record { under = false; packet_queue = []; posted = 0; delivered = [] }

unfoldable pub under_proto_update : {Packet : Type 0} → Lower Packet → Lower Packet
under_proto_update b = record b { under = true }

unfoldable pub enqueue : {Packet : Type 0} → Packet → Lower Packet → Lower Packet
enqueue pkt b = record b { packet_queue = b.packet_queue ++ pkt ∷ []; posted = b.posted + 1 }

-- The body of the task: `front()` of an empty queue is undefined behaviour.
pub hand_over : {Packet : Type 0} → List Packet → Lower Packet → Result (Lower Packet)
hand_over [] b = fault out_of_bounds
hand_over (pkt ∷ rest) b =
    ok (record b { packet_queue = rest; delivered = b.delivered ++ pkt ∷ [] })

pub run_posted : {Packet : Type 0} → Lower Packet → Result (Lower Packet)
unfolding hand_over
run_posted b =
    let b1 = record b { posted = b.posted - 1 } in
    if b1.under then hand_over b1.packet_queue b1 else ok b1

-- The layers above, by number; each is the name of an object.
abbrev pub Uppers : Type 0
Uppers = AddrMap ℕ

pub upper_proto_update : ℕ → ℕ → Uppers → Uppers
upper_proto_update id proto protos = AddrMap.assign id proto protos

-- The object that a packet of a protocol goes to; an unknown packet is dropped.
pub dispatch : ℕ → Uppers → Option ℕ
dispatch proto protos = AddrMap.find proto protos

-- `receive` from below: what `make_packet` returns, if anything, with the object it goes to.
pub receive_from_below :
    {Under Upper : Type 0}
    → (Under → Result (Option Upper))
    → (Upper → ℕ)
    → Uppers
    → Under
    → Result (Option (ℕ × Upper))
unfolding dispatch
receive_from_below make_packet proto_of protos pkt_in = do
  out ← make_packet pkt_in
  ok (elim out [
    | none ↦ none
    | some upper ↦ elim (dispatch (proto_of upper) protos) [
      | none ↦ none
      | some object ↦ some (object, upper)
    ]
  ])
