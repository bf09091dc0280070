-- ===== src/Wire/Patch.antt =====
-- A checksum that is stored inside the bytes it was taken of.
use mstack_cpp.Base.{ℕ, ◌+◌, ◌%◌, ◌^◌, ◌<◌, ◌≡◌, refl, ap, List, [], ◌∷◌, ◌++◌, arith, ok, length}
use mstack_cpp.Wire.{to_bytes, of_bytes, byteswap, ntoh, produce_to_net, checksum}
use mstack_cpp.Wire.Roundtrip.{IsBytes, byteswap-byteswap, byteswap-lt, length-to_bytes}
use mstack_cpp.Wire.Checksum.{word_sum, word_sum-le, checksum-complements}

-- Words are added up part by part, where the first part is of whole words.
pub word_sum-append :
    (xs ys : List ℕ) → length xs % 2 ≡ 0 → word_sum (xs ++ ys) ≡ word_sum xs + word_sum ys
word_sum-append [] ys h = omega arith
word_sum-append (x ∷ []) ys h = absurd (omega arith)
word_sum-append (x ∷ y ∷ xs) ys h = omega (arith, word_sum-append xs ys (omega arith))

pub word_sum-to_bytes : (c : ℕ) → c < 2 ^ 16 → word_sum (to_bytes 2 c) ≡ c
unfolding to_bytes
word_sum-to_bytes c h = omega arith

word_sum-bounded : (bs : List ℕ) → IsBytes bs → length bs < 2 ^ 16 → word_sum bs < 2 ^ 32
word_sum-bounded bs b h = omega (arith, word_sum-le bs b)

-- What checksums are stored for: all words together are 0 modulo 65535.
abbrev pub Verifies : List ℕ → Type 0
Verifies bs = word_sum bs % 65535 ≡ 0

-- With the checksum of the whole stored where two zero bytes stood, the whole verifies.
pub checksum-stored :
    (addr : ℕ) (front back : List ℕ)
    → addr % 2 ≡ 0
    → length front % 2 ≡ 0
    → IsBytes (front ++ (0 ∷ 0 ∷ back))
    → length (front ++ (0 ∷ 0 ∷ back)) < 2 ^ 16
    → (c : ℕ) × (checksum addr (front ++ (0 ∷ 0 ∷ back)) 0 ≡ ok c)
      × (c < 2 ^ 16)
      × Verifies (front ++ (to_bytes 2 c ++ back))
checksum-stored addr front back even whole bytes short =
    let before = front ++ (0 ∷ 0 ∷ back) in
    let (c, e, small, sum) =
      checksum-complements addr before 0 even
        (omega (arith, word_sum-bounded before bytes short)) in
    (
      c,
      e,
      small,
      omega (
        arith,
        sum,
        word_sum-append front (0 ∷ 0 ∷ back) whole,
        word_sum-append front (to_bytes 2 c ++ back) whole,
        word_sum-append (to_bytes 2 c) back (omega (arith, length-to_bytes 2 c)),
        word_sum-to_bytes c small,
      ),
    )

-- The checksum's bytes are a store of the number that a reader loads.
pub chsum_bytes : (c : ℕ) → c < 2 ^ 16 → produce_to_net 2 (ntoh 2 c) ≡ to_bytes 2 c
unfolding produce_to_net ntoh
chsum_bytes c h = ap (to_bytes 2) (byteswap-byteswap 2 c h)

pub ntoh-lt : (c : ℕ) → ntoh 2 c < 2 ^ 16
unfolding ntoh
ntoh-lt c = byteswap-lt 2 c

pub chsum_zero : produce_to_net 2 0 ≡ 0 ∷ 0 ∷ []
unfolding produce_to_net ntoh byteswap to_bytes of_bytes
chsum_zero = refl
