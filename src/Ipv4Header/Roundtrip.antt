-- ===== src/Ipv4Header/Roundtrip.antt =====
-- A header that is written and read again.
use mstack_cpp.Base.{
  ℕ, ◌+◌, ◌*◌, ◌<◌, ◌^◌, ◌≡◌, List, ◌++◌, append_assoc, arith, ok, bit_or_sum, refl, ◌∙◌, ap, ◌∷◌,
  length, length-append,
}
use mstack_cpp.Wire.{produce_to_net}
use mstack_cpp.Wire.Roundtrip.{
  consume-produce, length-produce_to_net, IsBytes, produce-IsBytes, produce_to_net-IsBytes,
  produce_byte,
}
use mstack_cpp.Ipv4Header.{Ipv4Header, consume, produce, version_byte, flags_word}

-- Every field fits its width.
pub record Fits (h : Ipv4Header) : Type 0 where
  pub version : h.version < 16
  pub header_length : h.header_length < 16
  pub tos : h.tos < 2 ^ 8
  pub total_length : h.total_length < 2 ^ 16
  pub id : h.id < 2 ^ 16
  pub nop : h.nop < 2
  pub df : h.df < 2
  pub mf : h.mf < 2
  pub frag_offset : h.frag_offset < 2 ^ 13
  pub ttl : h.ttl < 2 ^ 8
  pub proto_type : h.proto_type < 2 ^ 8
  pub header_chsum : h.header_chsum < 2 ^ 16
  pub src_addr : h.src_addr < 2 ^ 32
  pub dst_addr : h.dst_addr < 2 ^ 32

version_sum : (h : Ipv4Header) → Fits h → version_byte h ≡ h.version * 16 + h.header_length
unfolding version_byte
version_sum h f =
    rw (bit_or_sum 4 (h.version * 16) h.header_length (omega arith) (omega arith)) (omega arith)

flags_sum :
    (h : Ipv4Header)
    → Fits h
    → flags_word h ≡ h.nop * 32768 + h.df * 16384 + h.mf * 8192 + h.frag_offset
unfolding flags_word
flags_sum h f =
    rw
      (
        bit_or_sum 15 (h.nop * 32768) (h.df * 16384) (omega arith) (omega arith),
        bit_or_sum 14 (h.nop * 32768 + h.df * 16384) (h.mf * 8192) (omega arith) (omega arith),
        bit_or_sum 13 (h.nop * 32768 + h.df * 16384 + h.mf * 8192) h.frag_offset (omega arith)
            (omega arith),
      )
      (omega arith)

-- A header whose fields fit their widths is read back from its bytes, whatever follows them.
pub consume-produce_ipv4 :
    (h : Ipv4Header) (rest : List ℕ) → Fits h → consume (produce h ++ rest) ≡ ok h
unfolding consume produce
consume-produce_ipv4 h rest f = simp append_assoc (
    rw
      (
        consume-produce 1 (version_byte h) _ (omega (arith, version_sum h f)),
        consume-produce 1 h.tos _ f.tos,
        consume-produce 2 h.total_length _ f.total_length,
        consume-produce 2 h.id _ f.id,
        consume-produce 2 (flags_word h) _ (omega (arith, flags_sum h f)),
        consume-produce 1 h.ttl _ f.ttl,
        consume-produce 1 h.proto_type _ f.proto_type,
        consume-produce 2 h.header_chsum _ f.header_chsum,
        consume-produce 4 h.src_addr _ f.src_addr,
        consume-produce 4 h.dst_addr rest f.dst_addr,
      )
      (ground (arith, version_sum h f, flags_sum h f)))

-- What stands before the checksum, and behind it.
abbrev pub front : Ipv4Header → List ℕ
front h =
    produce_to_net 1 (version_byte h)
    ++ (produce_to_net 1 h.tos
        ++ (produce_to_net 2 h.total_length
            ++ (produce_to_net 2 h.id
                ++ (produce_to_net 2 (flags_word h)
                    ++ (produce_to_net 1 h.ttl ++ produce_to_net 1 h.proto_type)))))

abbrev pub back : Ipv4Header → List ℕ
back h = produce_to_net 4 h.src_addr ++ produce_to_net 4 h.dst_addr

pub produce-split :
    (h : Ipv4Header) (chsum : ℕ)
    → produce (record h { header_chsum = chsum }) ≡ front h ++ (produce_to_net 2 chsum ++ back h)
unfolding produce version_byte flags_word
produce-split h chsum = simp append_assoc refl

pub length-front : (h : Ipv4Header) → length (front h) ≡ 10
length-front h = simp (length-append, length-produce_to_net)

pub front-IsBytes : (h : Ipv4Header) → IsBytes (front h)
front-IsBytes h = produce-IsBytes 1 (version_byte h) _ (
    produce-IsBytes 1 h.tos _ (
      produce-IsBytes 2 h.total_length _ (
        produce-IsBytes 2 h.id _ (
          produce-IsBytes 2 (flags_word h) _
            (produce-IsBytes 1 h.ttl _ (produce_to_net-IsBytes 1 h.proto_type))))))

pub back-IsBytes : (h : Ipv4Header) → IsBytes (back h)
back-IsBytes h = produce-IsBytes 4 h.src_addr _ (produce_to_net-IsBytes 4 h.dst_addr)

pub length-produce : (h : Ipv4Header) → length (produce h) ≡ 20
unfolding produce
length-produce h = simp (length-append, length-produce_to_net)

-- The version and the header length are the first byte.
abbrev behind_first : Ipv4Header → List ℕ
behind_first h =
    produce_to_net 1 h.tos
    ++ (produce_to_net 2 h.total_length
        ++ (produce_to_net 2 h.id
            ++ (produce_to_net 2 (flags_word h)
                ++ (produce_to_net 1 h.ttl
                    ++ (produce_to_net 1 h.proto_type
                        ++ (produce_to_net 2 h.header_chsum
                            ++ (produce_to_net 4 h.src_addr ++ produce_to_net 4 h.dst_addr)))))))

pub produce-first :
    (h : Ipv4Header)
    → Fits h
    → (bs : List ℕ) × (produce h ≡ (h.version * 16 + h.header_length) ∷ bs)
unfolding produce
produce-first h f = (
  behind_first h,
  ap (λ b. b ++ behind_first h) (produce_byte (version_byte h) (omega (arith, version_sum h f)))
      ∙ ap (λ b. b ∷ behind_first h) (version_sum h f),
)
