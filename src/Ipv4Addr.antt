-- ===== src/Ipv4Addr.antt =====
-- mstack/mstack/ipv4_addr.hpp: an address is its `raw_` word. `make_address_v4` stands for
-- `boost::asio::ip::make_address_v4` with `to_uint`; `none` stands for its exception.
pub mod Roundtrip
use mstack_cpp.Base.{
  ℕ, ◌+◌, ◌*◌, ◌^◌, ◌<◌, ◌≡◌, List, ◌∷◌, ◌++◌, Option, some, Result, ok, ◌>>=◌, shr, low_bits,
}
use mstack_cpp.Wire.{consume_from_net, produce_to_net}
use mstack_cpp.Text.{Text, decimal}

-- Four numbers with dots between them.
abbrev pub dotted : ℕ → ℕ → ℕ → ℕ → Text
dotted a b c d = decimal a ++ (b'.' ∷ decimal b ++ (b'.' ∷ decimal c ++ (b'.' ∷ decimal d)))

-- `(raw_ >> n) & 0xFF`.
abbrev pub octet : ℕ → ℕ → ℕ
octet n raw = low_bits (shr raw n) 8

-- `operator<<`.
pub to_string : ℕ → Text
to_string raw = dotted (octet 24 raw) (octet 16 raw) (octet 8 raw) (octet 0 raw)

pub make_from : (Text → Option ℕ) → Text → Option ℕ
make_from make_address_v4 source = make_address_v4 source

pub consume : List ℕ → Result (ℕ × List ℕ)
consume ptr = consume_from_net 4 ptr

pub produce : ℕ → List ℕ
produce raw = produce_to_net 4 raw

-- What boost's documentation says: an address in dotted decimal is read.
abbrev pub ReadsDotted : (Text → Option ℕ) → Type 0
ReadsDotted make_address_v4 =
    (a b c d : ℕ)
    → a < 256
    → b < 256
    → c < 256
    → d < 256
    → make_address_v4 (dotted a b c d) ≡ some (a * 2 ^ 24 + b * 2 ^ 16 + c * 2 ^ 8 + d)
