-- ===== src/MacAddr/Generated.antt =====
-- Generated addresses, and addresses as text.
use mstack_cpp.Base.{
  ℕ, ◌+◌, ◌*◌, ◌/◌, ◌%◌, ◌<◌, ◌≡◌, refl, List, ◌∷◌, arith, false, ◌||◌, u8, shl, shr, bit_or,
  bit_or-one,
}
use mstack_cpp.MacAddr.{is_broadcast, is_zero, generate}
use mstack_cpp.MacAddr.Laws.{IsMac}

-- The first byte of a generated address.
abbrev first : ℕ → ℕ
first b = u8 (shl (bit_or (shr b 1) 1) 1)

first_lem : (b : ℕ) → b < 256 → first b ≡ b / 4 * 4 + 2
first_lem b h = omega (arith, bit_or-one (b / 2))

-- From any six bytes an address of six bytes is made whose first byte is even and has the bit of
-- weight 2: it is an individual address of local administration, so neither the broadcast nor the
-- zero address. The other five bytes are those that were drawn.
pub generate-IsMac :
    (b : ℕ) (bs : List ℕ)
    → IsMac (b ∷ bs)
    → (g : ℕ) × (generate (b ∷ bs) ≡ g ∷ bs)
      × IsMac (g ∷ bs)
      × (g % 2 ≡ 0)
      × (g / 2 % 2 ≡ 1)
      × ((is_broadcast (g ∷ bs) || is_zero (g ∷ bs)) ≡ false)
unfolding generate is_broadcast is_zero
generate-IsMac b bs m =
    let g = first b in
    let e = first_lem b m.bytes.0 in
    (
      g,
      refl,
      record { size = m.size; bytes = (omega (arith, e, m.bytes.0), m.bytes.1) },
      omega (arith, e),
      omega (arith, e),
      ground (arith, e),
    )
