-- ===== src/Text.antt =====
-- Text as lists of code points, with what mstack/mstack/ipv4_addr.hpp, endpoint.hpp and mac_addr.hpp
-- and main.cpp use of the standard library: `std::format` of unsigned numbers, `std::from_chars` and
-- the members of `std::string_view`.
pub mod Numbers
pub mod Separators
use mstack_cpp.Base.{
  ℕ, zero, suc, ◌+◌, ◌-◌, ◌*◌, ◌/◌, ◌%◌, List, [], ◌∷◌, ◌++◌, Bool, true, false, ◌&&◌, ltb, leb,
  ◌==◌, if◌then◌else◌, Option, none, some, drop, length, min,
}

abbrev pub Text : Type 0
Text = List ℕ

abbrev pub is_digit : ℕ → Bool
is_digit c = leb b'0' c && leb c b'9'

-- The digits of a number below `fuel`.
pub digits : ℕ → ℕ → Text
digits zero n = []
digits (suc fuel) n = elim (ltb n 10) [
  | true ↦ (b'0' + n) ∷ []
  | false ↦ digits fuel (n / 10) ++ (b'0' + n % 10) ∷ []
]

-- "{}".
pub decimal : ℕ → Text
unfolding digits
decimal n = digits (n + 1) n

-- "{:02x}" of a byte.
abbrev hex_digit : ℕ → ℕ
hex_digit n = if ltb n 10 then b'0' + n else b'a' + (n - 10)

abbrev pub hex : ℕ → Text
hex b = hex_digit (b / 16) ∷ hex_digit (b % 16) ∷ []

-- The number that the leading digits go on to write, and what follows them.
pub scan : ℕ → Text → ℕ × Text
scan value [] = (value, [])
scan value (c ∷ cs) =
    let rest = scan (value * 10 + (c - b'0')) cs in if is_digit c then rest else (value, c ∷ cs)

abbrev pub starts_with_digit : Text → Bool
starts_with_digit [] = false
starts_with_digit (c ∷ cs) = is_digit c

-- `std::from_chars` into a variable below `bound` that holds `old`, which stays where there is no
-- digit, or the number does not fit.
pub from_chars : ℕ → ℕ → Text → ℕ
unfolding scan
from_chars bound old source =
    let value = (scan 0 source).0 in
    if starts_with_digit source && ltb value bound then value else old

-- `find(c)`, with `npos` where there is none: the text in front of the first `c`, as
-- `substr(0, find(c))` gives it.
pub before : ℕ → Text → Text
before c [] = []
before c (x ∷ xs) = let rest = before c xs in if x == c then [] else x ∷ rest

-- `remove_prefix(std::min(size(), n))`.
abbrev pub remove_prefix : ℕ → Text → Text
remove_prefix n source = drop (min (length source) n) source
