-- ===== src/Wire.antt =====
-- mstack/mstack/utils.hpp: byte order, loads and stores of network words, the checksum.
-- The host is little-endian. A pointer that moves over memory is the list of the bytes that
-- are left; a store gives the bytes that it writes.
pub mod Roundtrip
pub mod Checksum
pub mod Patch
use mstack_cpp.Base.{
  ℕ, zero, suc, ◌+◌, ◌-◌, ◌*◌, ◌/◌, ◌%◌, ◌^◌, List, [], ◌∷◌, ◌++◌, reverse, Bool, ltb, leb, ◌==◌,
  if◌then◌else◌, Result, ok, fault, out_of_bounds, out_of_fuel, ◌>>=◌, ◌>>◌, assert, u16, u32, shr,
  low_bits, take, drop, length,
}

-- `std::bit_cast` between a number of `w` bytes and its array of bytes.
pub to_bytes : ℕ → ℕ → List ℕ
to_bytes zero v = []
to_bytes (suc w) v = (v % 256) ∷ to_bytes w (v / 256)

pub of_bytes : List ℕ → ℕ
of_bytes [] = 0
of_bytes (b ∷ bs) = b + 256 * of_bytes bs

pub byteswap : ℕ → ℕ → ℕ
byteswap w v = of_bytes (reverse (to_bytes w v))

pub hton : ℕ → ℕ → ℕ
hton w v = byteswap w v

pub ntoh : ℕ → ℕ → ℕ
ntoh w v = byteswap w v

-- Loads `w` bytes and moves the pointer behind them.
pub consume_from_net : ℕ → List ℕ → Result (ℕ × List ℕ)
consume_from_net w ptr =
    let ret = of_bytes (take w ptr) in
    if leb w (length ptr)
    then ok ((if ltb 1 w then ntoh w ret else ret), drop w ptr)
    else fault out_of_bounds

pub produce_to_net : ℕ → ℕ → List ℕ
produce_to_net w t = to_bytes w (if ltb 1 w then ntoh w t else t)

-- The loop of `sum_every_16bits`; the addition wraps as `uint32_t`.
pub sum_words : List ℕ → ℕ → ℕ
sum_words [] sum = sum
sum_words (b ∷ []) sum = u32 (sum + b)
sum_words (lo ∷ hi ∷ rest) sum = sum_words rest (u32 (sum + (lo + 256 * hi)))

-- `addr` is the address of the first byte.
pub sum_every_16bits : ℕ → List ℕ → Result ℕ
unfolding sum_words
sum_every_16bits addr buf = do assert (addr % 2 == 0); ok (sum_words buf 0)

-- `while (sum >> 16) sum = (sum & 0xffff) + (sum >> 16)`.
pub fold_sum : ℕ → ℕ → Result ℕ
fold_sum zero sum = fault out_of_fuel
fold_sum (suc fuel) sum =
    let rest = fold_sum fuel (u32 (low_bits sum 16 + shr sum 16)) in
    if shr sum 16 == 0 then ok sum else rest

-- Three rounds bring a 32-bit sum below 2 ^ 16; `~sum` is cut to 16 bits.
pub checksum : ℕ → List ℕ → ℕ → Result ℕ
checksum addr buf start_sum = do
  words ← sum_every_16bits addr buf
  sum ← fold_sum 4 (u32 (start_sum + words))
  ok (u16 (2 ^ 32 - 1 - sum))
