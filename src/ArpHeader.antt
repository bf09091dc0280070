-- ===== src/ArpHeader.antt =====
-- mstack/mstack/arp_header.hpp.
pub mod Roundtrip
use mstack_cpp.Base.{ℕ, List, ◌++◌, Result, ok, ◌>>=◌}
use mstack_cpp.Wire.{consume_from_net, produce_to_net}
use mstack_cpp.MacAddr
use mstack_cpp.MacAddr.{MacAddr}

pub record ArpHeader : Type 0 where
  pub htype : ℕ
  pub ptype : ℕ
  pub hlen : ℕ
  pub plen : ℕ
  pub oper : ℕ
  pub sha : MacAddr
  pub spa : ℕ
  pub tha : MacAddr
  pub tpa : ℕ

abbrev pub size : ℕ
size = 28

pub consume : List ℕ → Result ArpHeader
consume ptr0 = do
  (htype, ptr1) ← consume_from_net 2 ptr0
  (ptype, ptr2) ← consume_from_net 2 ptr1
  (hlen, ptr3) ← consume_from_net 1 ptr2
  (plen, ptr4) ← consume_from_net 1 ptr3
  (oper, ptr5) ← consume_from_net 2 ptr4
  (sha, ptr6) ← MacAddr.consume ptr5
  (spa, ptr7) ← consume_from_net 4 ptr6
  (tha, ptr8) ← MacAddr.consume ptr7
  (tpa, ptr9) ← consume_from_net 4 ptr8
  ok (record {
    htype = htype;
    ptype = ptype;
    hlen = hlen;
    plen = plen;
    oper = oper;
    sha = sha;
    spa = spa;
    tha = tha;
    tpa = tpa;
  })

pub produce : ArpHeader → List ℕ
produce h =
    produce_to_net 2 h.htype
    ++ (produce_to_net 2 h.ptype
        ++ (produce_to_net 1 h.hlen
            ++ (produce_to_net 1 h.plen
                ++ (produce_to_net 2 h.oper
                    ++ (MacAddr.produce h.sha
                        ++ (produce_to_net 4 h.spa
                            ++ (MacAddr.produce h.tha ++ produce_to_net 4 h.tpa)))))))
