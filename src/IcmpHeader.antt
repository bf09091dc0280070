-- ===== src/IcmpHeader.antt =====
-- mstack/mstack/icmp_header.hpp: the header's fields and its bytes on the wire.
pub mod Roundtrip
use mstack_cpp.Base.{ℕ, List, ◌++◌, Result, ok, ◌>>=◌}
use mstack_cpp.Wire.{consume_from_net, produce_to_net}

pub record IcmpHeader : Type 0 where
  pub proto_type : ℕ
  pub code : ℕ
  pub chsum : ℕ
  pub id : ℕ
  pub seq : ℕ

-- The initializers of a braced list are evaluated in their order.
pub consume : List ℕ → Result IcmpHeader
consume ptr0 = do
  (proto_type, ptr1) ← consume_from_net 1 ptr0
  (code, ptr2) ← consume_from_net 1 ptr1
  (chsum, ptr3) ← consume_from_net 2 ptr2
  (id, ptr4) ← consume_from_net 2 ptr3
  (seq, ptr5) ← consume_from_net 2 ptr4
  ok (record { proto_type = proto_type; code = code; chsum = chsum; id = id; seq = seq })

pub produce : IcmpHeader → List ℕ
produce h =
    produce_to_net 1 h.proto_type
    ++ (produce_to_net 1 h.code
        ++ (produce_to_net 2 h.chsum ++ (produce_to_net 2 h.id ++ produce_to_net 2 h.seq)))
