-- ===== src/Ipv4Header.antt =====
-- mstack/mstack/ipv4_header.hpp: the header's fields and its bytes on the wire.
pub mod Roundtrip
use mstack_cpp.Base.{ℕ, List, ◌++◌, Result, ok, ◌>>=◌, bit_or, u8, u16, shl, shr, low_bits}
use mstack_cpp.Wire.{consume_from_net, produce_to_net}

-- Addresses are their words.
pub record Ipv4Header : Type 0 where
  pub version : ℕ
  pub header_length : ℕ
  pub tos : ℕ
  pub total_length : ℕ
  pub id : ℕ
  pub nop : ℕ
  pub df : ℕ
  pub mf : ℕ
  pub frag_offset : ℕ
  pub ttl : ℕ
  pub proto_type : ℕ
  pub header_chsum : ℕ
  pub src_addr : ℕ
  pub dst_addr : ℕ

pub consume : List ℕ → Result Ipv4Header
consume ptr0 = do
  (version_header_length, ptr1) ← consume_from_net 1 ptr0
  (tos, ptr2) ← consume_from_net 1 ptr1
  (total_length, ptr3) ← consume_from_net 2 ptr2
  (id, ptr4) ← consume_from_net 2 ptr3
  (flags_frag_offset, ptr5) ← consume_from_net 2 ptr4
  (ttl, ptr6) ← consume_from_net 1 ptr5
  (proto_type, ptr7) ← consume_from_net 1 ptr6
  (header_chsum, ptr8) ← consume_from_net 2 ptr7
  (src_addr, ptr9) ← consume_from_net 4 ptr8
  (dst_addr, ptr10) ← consume_from_net 4 ptr9
  ok (record {
    version = low_bits (shr version_header_length 4) 4;
    header_length = low_bits version_header_length 4;
    tos = tos;
    total_length = total_length;
    id = id;
    nop = low_bits (shr flags_frag_offset 15) 1;
    df = low_bits (shr flags_frag_offset 14) 1;
    mf = low_bits (shr flags_frag_offset 13) 1;
    frag_offset = low_bits flags_frag_offset 13;
    ttl = ttl;
    proto_type = proto_type;
    header_chsum = header_chsum;
    src_addr = src_addr;
    dst_addr = dst_addr;
  })

-- The first byte, and the word of the flags and the fragment offset.
pub version_byte : Ipv4Header → ℕ
version_byte h = u8 (bit_or (shl h.version 4) h.header_length)

pub flags_word : Ipv4Header → ℕ
flags_word h =
    u16 (bit_or (bit_or (bit_or (shl h.nop 15) (shl h.df 14)) (shl h.mf 13)) h.frag_offset)

pub produce : Ipv4Header → List ℕ
unfolding version_byte flags_word
produce h =
    produce_to_net 1 (version_byte h)
    ++ (produce_to_net 1 h.tos
        ++ (produce_to_net 2 h.total_length
            ++ (produce_to_net 2 h.id
                ++ (produce_to_net 2 (flags_word h)
                    ++ (produce_to_net 1 h.ttl
                        ++ (produce_to_net 1 h.proto_type
                            ++ (produce_to_net 2 h.header_chsum
                                ++ (produce_to_net 4 h.src_addr
                                    ++ produce_to_net 4 h.dst_addr))))))))
