-- ===== src/Tests/Codec.antt =====
-- Words, headers, options and buffers.
use mstack_cpp.Base.{ℕ, ◌+◌, ◌%◌, ◌^◌, ◌<◌, ◌≡◌, refl, List, [], ◌∷◌, ◌++◌, arith, ok, drop, length}
use mstack_cpp.Wire.{checksum}
use mstack_cpp.Wire.Checksum.{word_sum, checksum-complements}
use mstack_cpp.Skbuff.{
  Skbuff, skbuff, fresh, payload, store_head, pop_front, push_front, pop_back, push_back,
}
use mstack_cpp.Skbuff.Laws.{IsValid, Keeps, moves-IsValid, payload-store_head}
use mstack_cpp.Options.{TcpOption, mss, nop, sack, encode_options, decode_options}
use mstack_cpp.Options.Roundtrip.{size, kept, decode-encode}

checksum-complements_example :
    (c : ℕ) × (checksum 0 (0x45 ∷ 0 ∷ 0x1c ∷ []) 17 ≡ ok c)
    × (c < 2 ^ 16)
    × ((c + 17 + word_sum (0x45 ∷ 0 ∷ 0x1c ∷ [])) % 65535 ≡ 0)
checksum-complements_example = checksum-complements 0 (0x45 ∷ 0 ∷ 0x1c ∷ []) 17 refl (omega arith)

abbrev small : Skbuff
small = record { buf = 1 ∷ 2 ∷ 3 ∷ 4 ∷ []; capacity = 4; head = 1; tail = 3 }

small-IsValid : IsValid small
small-IsValid = record { sized = refl; ordered = omega arith; inside = omega arith }

moves-IsValid_example :
    Keeps (skbuff (fresh (λ i. i) 6) 6 2)
    × Keeps (pop_front 1 small)
    × Keeps (push_front 1 small)
    × Keeps (pop_back 1 small)
    × Keeps (push_back 1 small)
moves-IsValid_example = moves-IsValid 1 small (λ i. i) 6 2 small-IsValid

payload-store_head_example :
    payload (store_head (9 ∷ []) small) ≡ (9 ∷ []) ++ drop 1 (payload small)
payload-store_head_example = payload-store_head (9 ∷ []) small small-IsValid (omega arith)

abbrev sizes : List TcpOption
sizes = mss 1446 ∷ nop ∷ nop ∷ sack ∷ []

decode-encode_example :
    (bs : List ℕ) × (encode_options 8 sizes ≡ ok bs)
    × (length bs ≡ size sizes)
    × (decode_options bs ≡ ok (kept sizes))
decode-encode_example = decode-encode sizes 8 (omega arith, tt) (omega arith)
