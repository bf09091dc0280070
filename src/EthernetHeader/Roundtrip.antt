-- ===== src/EthernetHeader/Roundtrip.antt =====
-- A header that is written and read again.
use mstack_cpp.Base.{ℕ, ◌^◌, ◌<◌, ◌≡◌, refl, List, ◌++◌, append_assoc, ok, length, length-append}
use mstack_cpp.Wire.Roundtrip.{consume-produce, length-produce_to_net}
use mstack_cpp.MacAddr.Laws.{IsMac, consume-produce_mac, length-produce_mac}
use mstack_cpp.EthernetHeader.{EthernetHeader, size, consume, produce}

pub record Fits (h : EthernetHeader) : Type 0 where
  pub dst_mac_addr : IsMac h.dst_mac_addr
  pub src_mac_addr : IsMac h.src_mac_addr
  pub proto : h.proto < 2 ^ 16

pub length-produce : (h : EthernetHeader) → Fits h → length (produce h) ≡ size
unfolding produce
length-produce h f = simp (
  length-append, length-produce_to_net, length-produce_mac, f.dst_mac_addr.size,
  f.src_mac_addr.size,
)

pub consume-produce_ethernet :
    (h : EthernetHeader) (rest : List ℕ) → Fits h → consume (produce h ++ rest) ≡ ok h
unfolding consume produce
consume-produce_ethernet h rest f = simp append_assoc (
    rw
      (
        consume-produce_mac h.dst_mac_addr _ f.dst_mac_addr,
        consume-produce_mac h.src_mac_addr _ f.src_mac_addr,
        consume-produce 2 h.proto rest f.proto,
      )
      refl)
