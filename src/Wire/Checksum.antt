-- ===== src/Wire/Checksum.antt =====
-- The Internet checksum: the loop ends, and the result complements the sum of the words.
use mstack_cpp.Base.{
  ℕ, suc, ◌+◌, ◌-◌, ◌*◌, ◌%◌, ◌^◌, ◌≤◌, ◌<◌, ◌≡◌, refl, List, [], ◌∷◌, arith, ok, fault, assertion,
  ◌==◌, length, inl, inr, Bool-cases, u16, u32, low_bits, shr,
}
use mstack_cpp.Wire.{sum_words, sum_every_16bits, fold_sum, checksum}
use mstack_cpp.Wire.Roundtrip.{IsBytes}

-- The sum of the little-endian words, with no wrap; an odd last byte counts by itself.
abbrev pub word_sum : List ℕ → ℕ
word_sum [] = 0
word_sum (b ∷ []) = b
word_sum (lo ∷ hi ∷ rest) = lo + 256 * hi + word_sum rest

pub word_sum-le : (bs : List ℕ) → IsBytes bs → word_sum bs ≤ 65535 * length bs
word_sum-le [] h = omega arith
word_sum-le (b ∷ []) h = omega arith
word_sum-le (lo ∷ hi ∷ rest) h = omega (arith, word_sum-le rest h.1.1)

-- The accumulator of the loop, as long as it stays below 2 ^ 32.
sum_words_lem :
    (bs : List ℕ) (sum : ℕ) → sum + word_sum bs < 2 ^ 32 → sum_words bs sum ≡ sum + word_sum bs
unfolding sum_words
sum_words_lem [] sum h = omega arith
sum_words_lem (b ∷ []) sum h = omega arith
sum_words_lem (lo ∷ hi ∷ rest) sum h =
    omega (arith, sum_words_lem rest (u32 (sum + (lo + 256 * hi))) (omega arith))

-- One round: it keeps the sum modulo 65535.
abbrev folded : ℕ → ℕ
folded sum = u32 (low_bits sum 16 + shr sum 16)

folded-mod : (sum : ℕ) → sum < 2 ^ 32 → folded sum % 65535 ≡ sum % 65535
folded-mod sum h = omega arith

abbrev FoldsTo : ℕ → ℕ → Type 0
FoldsTo fuel sum = (r : ℕ) × (fold_sum fuel sum ≡ ok r) × (r < 2 ^ 16) × (r % 65535 ≡ sum % 65535)

fold_sum-done : (fuel sum : ℕ) → sum < 2 ^ 16 → FoldsTo (suc fuel) sum
unfolding fold_sum
fold_sum-done fuel sum h = (sum, ground arith, h, refl)

fold_sum-step : (fuel sum : ℕ) → sum < 2 ^ 32 → FoldsTo fuel (folded sum) → FoldsTo (suc fuel) sum
fold_sum-step fuel sum h (r, e, small, same) = elim (Bool-cases (shr sum 16 == 0)) [
  | inl done ↦ fold_sum-done fuel sum (ground arith)
  | inr more ↦ (r, unfold fold_sum in rw more e, small, omega (arith, same, folded-mod sum h))
]

-- Four rounds of fuel are enough: the sum falls below 2 ^ 17, then to 2 ^ 16 at most, then below it.
pub fold_sum_total : (sum : ℕ) → sum < 2 ^ 32 → FoldsTo 4 sum
fold_sum_total sum h = fold_sum-step 3 sum h (
    fold_sum-step 2 (folded sum) (omega arith) (
      fold_sum-step 1 (folded (folded sum)) (omega arith)
        (fold_sum-done 0 (folded (folded (folded sum))) (omega arith))))

-- At an even address, for bytes whose words with the start sum stay below 2 ^ 32, `checksum`
-- returns a 16-bit value which, added to the start sum and to all the words, is 0 modulo 65535:
-- a receiver that sums the words and the checksum in one's complement finds no error.
pub checksum-complements :
    (addr : ℕ) (buf : List ℕ) (start_sum : ℕ)
    → addr % 2 ≡ 0
    → start_sum + word_sum buf < 2 ^ 32
    → (c : ℕ) × (checksum addr buf start_sum ≡ ok c)
      × (c < 2 ^ 16)
      × ((c + start_sum + word_sum buf) % 65535 ≡ 0)
unfolding checksum sum_every_16bits
checksum-complements addr buf start_sum even fits =
    let total = start_sum + word_sum buf in
    let (r, e, small, same) = fold_sum_total total fits in
    (
      u16 (2 ^ 32 - 1 - r),
      ground (arith, e, sum_words_lem buf 0 (omega arith)),
      omega arith,
      omega (arith, same),
    )

-- At an odd address the assertion fails.
checksum-odd :
    (addr : ℕ) (buf : List ℕ) (start_sum : ℕ)
    → addr % 2 ≡ 1
    → checksum addr buf start_sum ≡ fault assertion
unfolding checksum sum_every_16bits
checksum-odd addr buf start_sum odd = ground arith
