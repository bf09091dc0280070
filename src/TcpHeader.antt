-- ===== src/TcpHeader.antt =====
-- mstack/mstack/tcp_header.hpp: the header's fields and its bytes on the wire.
pub mod Roundtrip
use mstack_cpp.Base.{
  ℕ, ◌+◌, List, ◌++◌, Bool, ltb, Result, ok, ◌>>=◌, bit_or, u16, shl, shr, low_bits,
}
use mstack_cpp.Wire.{consume_from_net, produce_to_net}

-- Bit fields are numbers; those of one bit are 0 or 1.
pub record TcpHeader : Type 0 where
  pub src_port : ℕ
  pub dst_port : ℕ
  pub seq_no : ℕ
  pub ack_no : ℕ
  pub data_offset : ℕ
  pub reserved : ℕ
  pub cwr : ℕ
  pub ece : ℕ
  pub urg : ℕ
  pub ack : ℕ
  pub psh : ℕ
  pub rst : ℕ
  pub syn : ℕ
  pub fin : ℕ
  pub window : ℕ
  pub chsum : ℕ
  pub urgent_pointer : ℕ

-- `sizeof(tcp_header_t)`.
abbrev pub fixed_size : ℕ
fixed_size = 20

-- A bit field that stands as a condition.
abbrev pub is_set : ℕ → Bool
is_set b = ltb 0 b

-- The word of the data offset and the flags; `reserved` is not written.
pub flags_word : TcpHeader → ℕ
flags_word h =
    let offset = shl h.data_offset 12 in
    let cwr = bit_or offset (shl h.cwr 7) in
    let ece = bit_or cwr (shl h.ece 6) in
    let urg = bit_or ece (shl h.urg 5) in
    let ack = bit_or urg (shl h.ack 4) in
    let psh = bit_or ack (shl h.psh 3) in
    let rst = bit_or psh (shl h.rst 2) in
    let syn = bit_or rst (shl h.syn 1) in u16 (bit_or syn h.fin)

pub consume : List ℕ → Result TcpHeader
consume ptr0 = do
  (src_port, ptr1) ← consume_from_net 2 ptr0
  (dst_port, ptr2) ← consume_from_net 2 ptr1
  (seq_no, ptr3) ← consume_from_net 4 ptr2
  (ack_no, ptr4) ← consume_from_net 4 ptr3
  (header_length_flags, ptr5) ← consume_from_net 2 ptr4
  (window, ptr6) ← consume_from_net 2 ptr5
  (chsum, ptr7) ← consume_from_net 2 ptr6
  (urgent_pointer, ptr8) ← consume_from_net 2 ptr7
  ok (record {
    src_port = src_port;
    dst_port = dst_port;
    seq_no = seq_no;
    ack_no = ack_no;
    data_offset = low_bits (shr header_length_flags 12) 4;
    reserved = low_bits (shr header_length_flags 8) 4;
    cwr = low_bits (shr header_length_flags 7) 1;
    ece = low_bits (shr header_length_flags 6) 1;
    urg = low_bits (shr header_length_flags 5) 1;
    ack = low_bits (shr header_length_flags 4) 1;
    psh = low_bits (shr header_length_flags 3) 1;
    rst = low_bits (shr header_length_flags 2) 1;
    syn = low_bits (shr header_length_flags 1) 1;
    fin = low_bits header_length_flags 1;
    window = window;
    chsum = chsum;
    urgent_pointer = urgent_pointer;
  })

pub produce : TcpHeader → List ℕ
unfolding flags_word
produce h =
    produce_to_net 2 h.src_port
    ++ (produce_to_net 2 h.dst_port
        ++ (produce_to_net 4 h.seq_no
            ++ (produce_to_net 4 h.ack_no
                ++ (produce_to_net 2 (flags_word h)
                    ++ (produce_to_net 2 h.window
                        ++ (produce_to_net 2 h.chsum ++ produce_to_net 2 h.urgent_pointer))))))
