-- ===== src/ArpHeader/Roundtrip.antt =====
-- A header that is written and read again.
use mstack_cpp.Base.{ℕ, ◌^◌, ◌<◌, ◌≡◌, refl, List, ◌++◌, append_assoc, ok, length, length-append}
use mstack_cpp.Wire.Roundtrip.{consume-produce, length-produce_to_net}
use mstack_cpp.MacAddr.Laws.{IsMac, consume-produce_mac, length-produce_mac}
use mstack_cpp.ArpHeader.{ArpHeader, size, consume, produce}

pub record Fits (h : ArpHeader) : Type 0 where
  pub htype : h.htype < 2 ^ 16
  pub ptype : h.ptype < 2 ^ 16
  pub hlen : h.hlen < 2 ^ 8
  pub plen : h.plen < 2 ^ 8
  pub oper : h.oper < 2 ^ 16
  pub sha : IsMac h.sha
  pub spa : h.spa < 2 ^ 32
  pub tha : IsMac h.tha
  pub tpa : h.tpa < 2 ^ 32

pub length-produce : (h : ArpHeader) → Fits h → length (produce h) ≡ size
unfolding produce
length-produce h f =
    simp (length-append, length-produce_to_net, length-produce_mac, f.sha.size, f.tha.size)

pub consume-produce_arp :
    (h : ArpHeader) (rest : List ℕ) → Fits h → consume (produce h ++ rest) ≡ ok h
unfolding consume produce
consume-produce_arp h rest f = simp append_assoc (
    rw
      (
        consume-produce 2 h.htype _ f.htype,
        consume-produce 2 h.ptype _ f.ptype,
        consume-produce 1 h.hlen _ f.hlen,
        consume-produce 1 h.plen _ f.plen,
        consume-produce 2 h.oper _ f.oper,
        consume-produce_mac h.sha _ f.sha,
        consume-produce 4 h.spa _ f.spa,
        consume-produce_mac h.tha _ f.tha,
        consume-produce 4 h.tpa rest f.tpa,
      )
      refl)
