-- ===== src/TcpHeader/Roundtrip.antt =====
-- A header that is written and read again.
use mstack_cpp.Base.{
  ℕ, ◌+◌, ◌*◌, ◌<◌, ◌^◌, ◌≡◌, List, ◌++◌, append_assoc, arith, ok, bit_or_sum, refl, length,
  length-append,
}
use mstack_cpp.Wire.{produce_to_net}
use mstack_cpp.Wire.Roundtrip.{
  consume-produce, length-produce_to_net, IsBytes, produce-IsBytes, produce_to_net-IsBytes,
}
use mstack_cpp.TcpHeader.{TcpHeader, fixed_size, flags_word, consume, produce}

-- Every field fits its width.
pub record Fits (h : TcpHeader) : Type 0 where
  pub src_port : h.src_port < 2 ^ 16
  pub dst_port : h.dst_port < 2 ^ 16
  pub seq_no : h.seq_no < 2 ^ 32
  pub ack_no : h.ack_no < 2 ^ 32
  pub data_offset : h.data_offset < 16
  pub cwr : h.cwr < 2
  pub ece : h.ece < 2
  pub urg : h.urg < 2
  pub ack : h.ack < 2
  pub psh : h.psh < 2
  pub rst : h.rst < 2
  pub syn : h.syn < 2
  pub fin : h.fin < 2
  pub window : h.window < 2 ^ 16
  pub chsum : h.chsum < 2 ^ 16
  pub urgent_pointer : h.urgent_pointer < 2 ^ 16

pub length-produce : (h : TcpHeader) → length (produce h) ≡ fixed_size
unfolding produce
length-produce h = simp (length-append, length-produce_to_net)

-- The flags word is the sum of its fields, since they do not overlap.
flags_sum :
    (h : TcpHeader)
    → Fits h
    → flags_word h
      ≡ h.data_offset * 4096
        + h.cwr * 128
        + h.ece * 64
        + h.urg * 32
        + h.ack * 16
        + h.psh * 8
        + h.rst * 4
        + h.syn * 2
        + h.fin
unfolding flags_word
flags_sum h f =
    rw
      (
        bit_or_sum 12 (h.data_offset * 4096) (h.cwr * 128) (omega arith) (omega arith),
        bit_or_sum 7 (h.data_offset * 4096 + h.cwr * 128) (h.ece * 64) (omega arith) (omega arith),
        bit_or_sum 6 (h.data_offset * 4096 + h.cwr * 128 + h.ece * 64) (h.urg * 32) (omega arith)
            (omega arith),
        bit_or_sum 5 (h.data_offset * 4096 + h.cwr * 128 + h.ece * 64 + h.urg * 32) (h.ack * 16)
            (omega arith) (omega arith),
        bit_or_sum 4 (h.data_offset * 4096 + h.cwr * 128 + h.ece * 64 + h.urg * 32 + h.ack * 16)
            (h.psh * 8) (omega arith) (omega arith),
        bit_or_sum 3
            (h.data_offset * 4096 + h.cwr * 128 + h.ece * 64 + h.urg * 32 + h.ack * 16 + h.psh * 8)
            (h.rst * 4) (omega arith) (omega arith),
        bit_or_sum 2
            (h.data_offset * 4096
              + h.cwr * 128
              + h.ece * 64
              + h.urg * 32
              + h.ack * 16
              + h.psh * 8
              + h.rst * 4)
            (h.syn * 2) (omega arith) (omega arith),
        bit_or_sum 1
            (h.data_offset * 4096
              + h.cwr * 128
              + h.ece * 64
              + h.urg * 32
              + h.ack * 16
              + h.psh * 8
              + h.rst * 4
              + h.syn * 2)
            h.fin (omega arith) (omega arith),
      )
      (omega arith)

-- Reading back what was written gives the same header, where the fields fit their widths and
-- the reserved bits are 0.
pub consume-produce_header :
    (h : TcpHeader) (rest : List ℕ) → Fits h → h.reserved ≡ 0 → consume (produce h ++ rest) ≡ ok h
unfolding consume produce
consume-produce_header h rest f r = simp append_assoc (
    rw
      (
        consume-produce 2 h.src_port _ f.src_port,
        consume-produce 2 h.dst_port _ f.dst_port,
        consume-produce 4 h.seq_no _ f.seq_no,
        consume-produce 4 h.ack_no _ f.ack_no,
        consume-produce 2 (flags_word h) _ (omega (arith, flags_sum h f)),
        consume-produce 2 h.window _ f.window,
        consume-produce 2 h.chsum _ f.chsum,
        consume-produce 2 h.urgent_pointer rest f.urgent_pointer,
      )
      (ground (arith, flags_sum h f)))

-- What stands before the checksum.
abbrev pub front : TcpHeader → List ℕ
front h =
    produce_to_net 2 h.src_port
    ++ (produce_to_net 2 h.dst_port
        ++ (produce_to_net 4 h.seq_no
            ++ (produce_to_net 4 h.ack_no
                ++ (produce_to_net 2 (flags_word h) ++ produce_to_net 2 h.window))))

pub produce-split :
    (h : TcpHeader) (chsum : ℕ)
    → produce (record h { chsum = chsum })
      ≡ front h ++ (produce_to_net 2 chsum ++ produce_to_net 2 h.urgent_pointer)
unfolding produce flags_word
produce-split h chsum = simp append_assoc refl

pub length-front : (h : TcpHeader) → length (front h) ≡ 16
length-front h = simp (length-append, length-produce_to_net)

pub front-IsBytes : (h : TcpHeader) → IsBytes (front h)
front-IsBytes h = produce-IsBytes 2 h.src_port _ (
    produce-IsBytes 2 h.dst_port _ (
      produce-IsBytes 4 h.seq_no _ (
        produce-IsBytes 4 h.ack_no _
          (produce-IsBytes 2 (flags_word h) _ (produce_to_net-IsBytes 2 h.window)))))
