-- ===== src/Skbuff/Chsum.antt =====
-- A checksum stored in a payload, over the payload or its front.
use mstack_cpp.Base.{
  ℕ, ◌+◌, ◌%◌, ◌^◌, ◌≤◌, ◌<◌, ◌≡◌, ◌∙◌, ap, sym, List, [], ◌∷◌, ◌++◌, append_assoc, arith, ok,
  length, length-append,
}
use mstack_cpp.Wire.{to_bytes, checksum}
use mstack_cpp.Wire.Roundtrip.{IsBytes, length-to_bytes}
use mstack_cpp.Wire.Patch.{Verifies, checksum-stored}
use mstack_cpp.Skbuff.{Skbuff, payload, store_off}
use mstack_cpp.Skbuff.Laws.{IsValid, length-payload}
use mstack_cpp.Skbuff.Stores.{patch, patch-at, payload-store_off, store_off-IsValid}

-- The checksum of `front`, two zero bytes and `back`, stored at those bytes.
pub record Stored (addr offset : ℕ) (front back rest : List ℕ) (s : Skbuff) (c : ℕ) : Type 0 where
  pub sum : checksum addr (front ++ (0 ∷ 0 ∷ back)) 0 ≡ ok c
  pub small : c < 2 ^ 16
  pub bytes :
      payload (store_off offset (to_bytes 2 c) s) ≡ (front ++ (to_bytes 2 c ++ back)) ++ rest
  pub valid : IsValid (store_off offset (to_bytes 2 c) s)
  pub verifies : Verifies (front ++ (to_bytes 2 c ++ back))

pub store_checksum :
    (addr offset : ℕ) (front back rest : List ℕ) (s : Skbuff)
    → addr % 2 ≡ 0
    → offset % 2 ≡ 0
    → length front ≡ offset
    → IsBytes (front ++ (0 ∷ 0 ∷ back))
    → length (front ++ (0 ∷ 0 ∷ back)) < 2 ^ 16
    → IsValid s
    → payload s ≡ (front ++ (0 ∷ 0 ∷ back)) ++ rest
    → (c : ℕ) × Stored addr offset front back rest s c
store_checksum addr offset front back rest s even whole len b short v p =
    let (c, e, small, verifies) =
      checksum-stored addr front back even (omega (arith, len)) b short in
    let bs = to_bytes 2 c in
    let room : s.head + offset + length bs ≤ s.tail = omega (
      arith,
      length-payload s v,
      v.ordered,
      ap length p,
      length-append (front ++ (0 ∷ 0 ∷ back)) rest,
      length-append front (0 ∷ 0 ∷ back),
      length-to_bytes 2 c,
      len,
    ) in
    let shape : payload s ≡ front ++ ((0 ∷ 0 ∷ []) ++ (back ++ rest)) =
      p ∙ append_assoc front (0 ∷ 0 ∷ back) rest in
    (
      c,
      record {
        sum = e;
        small = small;
        bytes =
            payload-store_off offset bs s v room
            ∙ ap (λ ys. patch offset bs ys) shape
            ∙ patch-at offset bs (0 ∷ 0 ∷ []) front (back ++ rest) len (sym (length-to_bytes 2 c))
            ∙ ap (λ ys. front ++ ys) (sym (append_assoc bs back rest))
            ∙ sym (append_assoc front (bs ++ back) rest);
        valid = store_off-IsValid offset bs s v room;
        verifies = verifies;
      },
    )
