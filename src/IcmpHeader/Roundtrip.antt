-- ===== src/IcmpHeader/Roundtrip.antt =====
-- A header that is written and read again.
use mstack_cpp.Base.{
  sym, length, length-append, ℕ, ◌<◌, ◌^◌, ◌≡◌, refl, List, ◌++◌, append_assoc, ok,
}
use mstack_cpp.Wire.{produce_to_net}
use mstack_cpp.Wire.Roundtrip.{consume-produce, length-produce_to_net}
use mstack_cpp.IcmpHeader.{IcmpHeader, consume, produce}

-- Every field fits its width.
pub record Fits (h : IcmpHeader) : Type 0 where
  pub proto_type : h.proto_type < 2 ^ 8
  pub code : h.code < 2 ^ 8
  pub chsum : h.chsum < 2 ^ 16
  pub id : h.id < 2 ^ 16
  pub seq : h.seq < 2 ^ 16

-- A header whose fields fit their widths is read back from its bytes, whatever follows them.
pub consume-produce_icmp :
    (h : IcmpHeader) (rest : List ℕ) → Fits h → consume (produce h ++ rest) ≡ ok h
unfolding consume produce
consume-produce_icmp h rest f = simp append_assoc (
    rw
      (
        consume-produce 1 h.proto_type _ f.proto_type,
        consume-produce 1 h.code _ f.code,
        consume-produce 2 h.chsum _ f.chsum,
        consume-produce 2 h.id _ f.id,
        consume-produce 2 h.seq rest f.seq,
      )
      refl)

-- What stands before the checksum, and behind it.
abbrev pub front : IcmpHeader → List ℕ
front h = produce_to_net 1 h.proto_type ++ produce_to_net 1 h.code

abbrev pub back : IcmpHeader → List ℕ
back h = produce_to_net 2 h.id ++ produce_to_net 2 h.seq

pub produce-split : (h : IcmpHeader) → produce h ≡ front h ++ (produce_to_net 2 h.chsum ++ back h)
unfolding produce
produce-split h = sym (append_assoc (produce_to_net 1 h.proto_type) (produce_to_net 1 h.code) _)

pub length-produce : (h : IcmpHeader) → length (produce h) ≡ 8
unfolding produce
length-produce h = simp (length-append, length-produce_to_net)
