-- ===== src/Wire/Roundtrip.antt =====
-- What network words look like in memory, and that loads undo stores.
use mathlib.Core.List.{reverse-reverse, reverse-cons}
use native.Mathlib.Nat.{pow-suc}
use mstack_cpp.Base.{
  ℕ, zero, suc, ◌+◌, ◌*◌, ◌/◌, ◌%◌, ◌^◌, ◌<◌, ◌≡◌, refl, ap, sym, ◌∙◌, List, [], ◌∷◌, ◌++◌, reverse,
  arith, ok, true, lt→ltb, ltb, if◌then◌else◌, length, length-append, length-reverse, take-append,
  drop-append, All, All-append, All-reverse,
}
use mstack_cpp.Wire.{to_bytes, of_bytes, byteswap, hton, ntoh, consume_from_net, produce_to_net}

abbrev pub IsBytes : List ℕ → Type 0
IsBytes = All (λ b. b < 256)

pub length-to_bytes : (w v : ℕ) → length (to_bytes w v) ≡ w
unfolding to_bytes
length-to_bytes zero v = refl
length-to_bytes (suc w) v = ap suc (length-to_bytes w (v / 256))

pub to_bytes-IsBytes : (w v : ℕ) → IsBytes (to_bytes w v)
unfolding to_bytes
to_bytes-IsBytes zero v = tt
to_bytes-IsBytes (suc w) v = (omega arith, to_bytes-IsBytes w (v / 256))

of_bytes-to_bytes : (w v : ℕ) → v < 256 ^ w → of_bytes (to_bytes w v) ≡ v
unfolding of_bytes to_bytes
of_bytes-to_bytes zero v h = omega arith
of_bytes-to_bytes (suc w) v h =
    omega (arith, of_bytes-to_bytes w (v / 256) (omega (arith, pow-suc 256 w)))

to_bytes-of_bytes : (bs : List ℕ) → IsBytes bs → to_bytes (length bs) (of_bytes bs) ≡ bs
unfolding of_bytes to_bytes
to_bytes-of_bytes [] h = refl
to_bytes-of_bytes (b ∷ bs) h =
    ground (arith, to_bytes-of_bytes bs h.1, ap (λ (v : ℕ). to_bytes (length bs) v) tail_value)
  where
    tail_value : (b + 256 * of_bytes bs) / 256 ≡ of_bytes bs
    tail_value = omega arith

of_bytes-lt : (bs : List ℕ) → IsBytes bs → of_bytes bs < 256 ^ length bs
unfolding of_bytes
of_bytes-lt [] h = omega arith
of_bytes-lt (b ∷ bs) h = omega (arith, of_bytes-lt bs h.1, pow-suc 256 (length bs))

length-swapped : (w v : ℕ) → length (reverse (to_bytes w v)) ≡ w
length-swapped w v = length-reverse (to_bytes w v) ∙ length-to_bytes w v

swapped-IsBytes : (w v : ℕ) → IsBytes (reverse (to_bytes w v))
swapped-IsBytes w v = All-reverse (λ b. b < 256) (to_bytes w v) (to_bytes-IsBytes w v)

to_bytes-byteswap : (w v : ℕ) → to_bytes w (byteswap w v) ≡ reverse (to_bytes w v)
unfolding byteswap
to_bytes-byteswap w v =
    ap (λ (n : ℕ). to_bytes n (of_bytes (reverse (to_bytes w v)))) (sym (length-swapped w v))
    ∙ to_bytes-of_bytes (reverse (to_bytes w v)) (swapped-IsBytes w v)

pub byteswap-lt : (w v : ℕ) → byteswap w v < 256 ^ w
unfolding byteswap
byteswap-lt w v = rw length-swapped at (of_bytes-lt (reverse (to_bytes w v)) (swapped-IsBytes w v))

pub byteswap-byteswap : (w v : ℕ) → v < 256 ^ w → byteswap w (byteswap w v) ≡ v
unfolding byteswap
byteswap-byteswap w v h =
    ap (λ bs. of_bytes (reverse bs)) (to_bytes-byteswap w v)
    ∙ ap of_bytes (reverse-reverse (to_bytes w v))
    ∙ of_bytes-to_bytes w v h

-- A number with its most significant byte first.
pub big_endian : ℕ → ℕ → List ℕ
big_endian zero v = []
big_endian (suc w) v = big_endian w (v / 256) ++ v % 256 ∷ []

big_endian-reverse : (w v : ℕ) → reverse (to_bytes w v) ≡ big_endian w v
unfolding to_bytes big_endian
big_endian-reverse zero v = refl
big_endian-reverse (suc w) v =
    reverse-cons (v % 256) (to_bytes w (v / 256))
    ∙ ap (λ bs. bs ++ v % 256 ∷ []) (big_endian-reverse w (v / 256))

wide : (w : ℕ) → ltb 1 (suc (suc w)) ≡ true
wide w = lt→ltb 1 (suc (suc w)) (omega arith)

-- For every width and value, a store writes the value's bytes in network order.
pub produce_to_net-big_endian : (w v : ℕ) → produce_to_net w v ≡ big_endian w v
unfolding produce_to_net ntoh
produce_to_net-big_endian zero v = unfold to_bytes big_endian in refl
produce_to_net-big_endian (suc zero) v = unfold to_bytes big_endian in refl
produce_to_net-big_endian (suc (suc w)) v =
    rw (wide w) (to_bytes-byteswap (suc (suc w)) v ∙ big_endian-reverse (suc (suc w)) v)

pub length-produce_to_net : (w v : ℕ) → length (produce_to_net w v) ≡ w
unfolding produce_to_net
length-produce_to_net w v = length-to_bytes w _

pub produce_to_net-IsBytes : (w v : ℕ) → IsBytes (produce_to_net w v)
unfolding produce_to_net
produce_to_net-IsBytes w v = to_bytes-IsBytes w _

loaded : (w v : ℕ) → v < 256 ^ w → of_bytes (produce_to_net w v) ≡ (if ltb 1 w then ntoh w v else v)
unfolding produce_to_net ntoh
loaded zero v h = of_bytes-to_bytes zero v h
loaded (suc zero) v h = of_bytes-to_bytes (suc zero) v h
loaded (suc (suc w)) v h =
    rw (wide w)
      (of_bytes-to_bytes (suc (suc w)) (byteswap (suc (suc w)) v) (byteswap-lt (suc (suc w)) v))

unswapped :
    (w v : ℕ)
    → v < 256 ^ w
    → (if ltb 1 w then ntoh w (of_bytes (produce_to_net w v)) else of_bytes (produce_to_net w v))
      ≡ v
unfolding ntoh
unswapped zero v h = loaded zero v h
unswapped (suc zero) v h = loaded (suc zero) v h
unswapped (suc (suc w)) v h = rw (wide w) (
    ap (byteswap (suc (suc w))) (rw (wide w) at (loaded (suc (suc w)) v h))
    ∙ byteswap-byteswap (suc (suc w)) v h)

-- A load gives back the value that a store of the same width wrote, and leaves what is behind it.
pub consume-produce :
    (w v : ℕ) (rest : List ℕ)
    → v < 256 ^ w
    → consume_from_net w (produce_to_net w v ++ rest) ≡ ok (v, rest)
unfolding consume_from_net
consume-produce w v rest h = ground (
  arith,
  take-append w (produce_to_net w v) rest (length-produce_to_net w v),
  drop-append w (produce_to_net w v) rest (length-produce_to_net w v),
  length-append (produce_to_net w v) rest,
  length-produce_to_net w v,
  unswapped w v h,
)

-- A number in network order that goes through memory.
pub ntoh-hton : (w v : ℕ) → v < 256 ^ w → ntoh w (of_bytes (to_bytes w (hton w v))) ≡ v
unfolding ntoh hton
ntoh-hton w v h =
    ap (byteswap w) (of_bytes-to_bytes w (byteswap w v) (byteswap-lt w v)) ∙ byteswap-byteswap w v h

pub produce-IsBytes : (w v : ℕ) (bs : List ℕ) → IsBytes bs → IsBytes (produce_to_net w v ++ bs)
produce-IsBytes w v bs b =
    All-append (λ b. b < 256) (produce_to_net w v) bs (produce_to_net-IsBytes w v) b

pub produce_byte : (v : ℕ) → v < 2 ^ 8 → produce_to_net 1 v ≡ v ∷ []
unfolding produce_to_net to_bytes
produce_byte v h = ap (λ b. b ∷ []) (omega arith)
