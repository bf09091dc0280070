-- ===== src/Protocol/Dispatch.antt =====
-- What is found above a layer, and what a task hands to the layer below.
use mstack_cpp.Base.{
  ℕ, ◌-◌, ◌≡◌, refl, ◌==◌, if◌then◌else◌, List, [], ◌∷◌, ◌++◌, true, Option, some, Result, ok,
}
use mstack_cpp.AddrMap.Laws.{find-assign}
use mstack_cpp.Protocol.{
  Lower, Uppers, upper_proto_update, dispatch, receive_from_below, hand_over, run_posted,
}

-- A registration replaces the object of its protocol and no other.
pub dispatch-update :
    (key id proto : ℕ) (protos : Uppers)
    → dispatch key (upper_proto_update id proto protos)
      ≡ (if id == key then some proto else dispatch key protos)
unfolding dispatch upper_proto_update
dispatch-update key id proto protos = find-assign key id proto protos

-- A packet that is made goes to the object that is registered for its protocol.
pub receive_from_below-some :
    {Under Upper : Type 0} (make_packet : Under → Result (Option Upper)) (proto_of : Upper → ℕ)
    (protos : Uppers) (pkt_in : Under) (upper : Upper) (object : ℕ)
    → make_packet pkt_in ≡ ok (some upper)
    → dispatch (proto_of upper) protos ≡ some object
    → receive_from_below make_packet proto_of protos pkt_in ≡ ok (some (object, upper))
unfolding receive_from_below
receive_from_below-some make_packet proto_of protos pkt_in upper object made found =
    rw (made, found) refl

pub run_posted-front :
    {Packet : Type 0} (pkt : Packet) (rest : List Packet) (b : Lower Packet)
    → b.under ≡ true
    → b.packet_queue ≡ pkt ∷ rest
    → run_posted b
      ≡ ok (record b {
        packet_queue = rest;
        delivered = b.delivered ++ pkt ∷ [];
        posted = b.posted - 1;
      })
unfolding run_posted hand_over
run_posted-front pkt rest b u q = rw (u, q) refl
