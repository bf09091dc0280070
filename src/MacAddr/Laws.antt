-- ===== src/MacAddr/Laws.antt =====
-- An address that is written and read again.
use mstack_cpp.Base.{
  ℕ, zero, suc, ◌≡◌, refl, List, [], ◌∷◌, ◌++◌, append_assoc, arith, ok, length, length-append,
}
use mstack_cpp.Wire.{produce_to_net}
use mstack_cpp.Wire.Roundtrip.{IsBytes, consume-produce, length-produce_to_net}
use mstack_cpp.MacAddr.{MacAddr, consume_bytes, consume, produce}

-- Six bytes.
pub record IsMac (mac : MacAddr) : Type 0 where
  pub size : length mac ≡ 6
  pub bytes : IsBytes mac

pub length-produce_mac : (mac : MacAddr) → length (produce mac) ≡ length mac
unfolding produce
length-produce_mac [] = refl
length-produce_mac (d ∷ ds) = omega (
  arith,
  length-append (produce_to_net 1 d) (produce ds),
  length-produce_to_net 1 d,
  length-produce_mac ds,
)

consume_bytes-produce :
    (n : ℕ) (mac : MacAddr) (rest : List ℕ)
    → length mac ≡ n
    → IsBytes mac
    → consume_bytes n (produce mac ++ rest) ≡ ok (mac, rest)
unfolding consume_bytes produce
consume_bytes-produce zero [] rest h b = refl
consume_bytes-produce zero (d ∷ ds) rest h b = absurd (omega arith)
consume_bytes-produce (suc n) [] rest h b = absurd (omega arith)
consume_bytes-produce (suc n) (d ∷ ds) rest h b =
    rw
      (
        append_assoc (produce_to_net 1 d) (produce ds) rest,
        consume-produce 1 d (produce ds ++ rest) b.0,
        consume_bytes-produce n ds rest (omega arith) b.1,
      )
      refl

pub consume-produce_mac :
    (mac : MacAddr) (rest : List ℕ) → IsMac mac → consume (produce mac ++ rest) ≡ ok (mac, rest)
unfolding consume
consume-produce_mac mac rest m = consume_bytes-produce 6 mac rest m.size m.bytes
