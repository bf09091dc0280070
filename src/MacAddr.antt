-- ===== src/MacAddr.antt =====
-- mstack/mstack/mac_addr.hpp: an address is the list of its six bytes.
pub mod Laws
pub mod Generated
use mstack_cpp.Base.{
  ℕ, zero, suc, List, [], ◌∷◌, ◌++◌, Bool, true, ◌&&◌, ◌==◌, Result, ok, ◌>>=◌, replicate, u8, shl,
  shr, bit_or,
}
use mstack_cpp.Text.{Text, hex}
use mstack_cpp.Wire.{consume_from_net, produce_to_net}

abbrev pub MacAddr : Type 0
MacAddr = List ℕ

-- `mac_addr_t{}`, and the address that `async_request` sends to.
abbrev pub zero_mac : MacAddr
zero_mac = replicate 6 0

abbrev pub broadcast_mac : MacAddr
broadcast_mac = replicate 6 0xff

-- `std::ranges::all_of`.
abbrev pub all_of : ℕ → MacAddr → Bool
all_of byte [] = true
all_of byte (b ∷ bs) = (byte == b) && all_of byte bs

unfoldable pub is_broadcast : MacAddr → Bool
is_broadcast mac = all_of 0xff mac

unfoldable pub is_zero : MacAddr → Bool
is_zero mac = all_of 0 mac

-- Six loads of a byte.
pub consume_bytes : ℕ → List ℕ → Result (MacAddr × List ℕ)
consume_bytes zero ptr = ok ([], ptr)
consume_bytes (suc n) ptr = do
  (d, ptr1) ← consume_from_net 1 ptr
  (ds, ptr2) ← consume_bytes n ptr1
  ok (d ∷ ds, ptr2)

pub consume : List ℕ → Result (MacAddr × List ℕ)
unfolding consume_bytes
consume ptr = consume_bytes 6 ptr

pub produce : MacAddr → List ℕ
produce [] = []
produce (d ∷ ds) = produce_to_net 1 d ++ produce ds

-- `mac_addr_t::generate`, on the six bytes that the random generator draws.
pub generate : List ℕ → MacAddr
generate [] = []
generate (b ∷ bs) = u8 (shl (bit_or (shr b 1) 1) 1) ∷ bs

-- `operator<<`.
pub print : MacAddr → Text
print [] = []
print (b ∷ []) = hex b
print (b ∷ c ∷ bs) = hex b ++ (b':' ∷ print (c ∷ bs))
