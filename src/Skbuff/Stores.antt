-- ===== src/Skbuff/Stores.antt =====
-- Headers that are pushed in front of a payload, and bytes stored inside it.
use mstack_cpp.Base.{
  ℕ, ◌+◌, ◌-◌, ◌≤◌, ◌≡◌, refl, List, ◌++◌, arith, ok, ap, ◌∙◌, sym, take, drop, length,
  length-append, length-take, length-drop, take-append, drop-append, drop-drop, drop-take,
  take-append_over, drop-append_under, drop-append_over, take-take,
}
use mstack_cpp.Skbuff.{Skbuff, payload, pop_front, push_front, store_at, store_head, store_off}
use mstack_cpp.Skbuff.Laws.{
  IsValid, length-payload, payload-store_head, store_head-IsValid, popped, pop_front_lem,
  popped-IsValid, payload-pop_front,
}

-- A buffer whose head is moved back over its headroom.
abbrev pub pushed : ℕ → Skbuff → Skbuff
pushed n s = record s { head = s.head - n }

pub push_front_lem : (n : ℕ) (s : Skbuff) → n ≤ s.head → push_front n s ≡ ok (pushed n s)
unfolding push_front
push_front_lem n s h = ground arith

pub pushed-IsValid : (n : ℕ) (s : Skbuff) → IsValid s → IsValid (pushed n s)
pushed-IsValid n s v = ground arith

pub drop-payload-pushed :
    (n : ℕ) (s : Skbuff) → IsValid s → n ≤ s.head → drop n (payload (pushed n s)) ≡ payload s
unfolding payload
drop-payload-pushed n s v h =
    drop-take (s.tail - (s.head - n)) n (s.tail - s.head) (drop (s.head - n) s.buf)
      (omega (arith, v.ordered))
    ∙ ap (take (s.tail - s.head)) (drop-drop s.head n (s.head - n) s.buf (omega arith))

-- A header of `n` bytes, pushed and written, stands in front of the payload.
pub payload-push_store :
    (bs : List ℕ) (n : ℕ) (s : Skbuff)
    → IsValid s
    → length bs ≡ n
    → n ≤ s.head
    → payload (store_head bs (pushed n s)) ≡ bs ++ payload s
payload-push_store bs n s v len h =
    payload-store_head bs (pushed n s) (pushed-IsValid n s v) (omega (arith, v.ordered))
    ∙ ap (λ k. bs ++ drop k (payload (pushed n s))) len
    ∙ ap (λ ys. bs ++ ys) (drop-payload-pushed n s v h)

pub push_store-IsValid :
    (bs : List ℕ) (n : ℕ) (s : Skbuff)
    → IsValid s
    → length bs ≡ n
    → n ≤ s.head
    → IsValid (store_head bs (pushed n s))
push_store-IsValid bs n s v len h =
    store_head-IsValid bs (pushed n s) (pushed-IsValid n s v) (omega (arith, v.ordered))

-- Bytes stored at an offset replace just as many bytes of the payload.
abbrev pub patch : ℕ → List ℕ → List ℕ → List ℕ
patch offset bs xs = take offset xs ++ (bs ++ drop (offset + length bs) xs)

store_at-IsValid :
    (offset : ℕ) (bs : List ℕ) (s : Skbuff)
    → IsValid s
    → offset + length bs ≤ s.tail
    → IsValid (record s { buf = store_at offset bs s.buf })
unfolding store_at
store_at-IsValid offset bs s v room = record {
  sized = omega (
    arith,
    length-append (take offset s.buf) (bs ++ drop (offset + length bs) s.buf),
    length-append bs (drop (offset + length bs) s.buf),
    length-take offset s.buf,
    length-drop (offset + length bs) s.buf,
    v.sized,
    v.inside,
  );
  ordered = v.ordered;
  inside = v.inside;
}

pub store_off-IsValid :
    (offset : ℕ) (bs : List ℕ) (s : Skbuff)
    → IsValid s
    → s.head + offset + length bs ≤ s.tail
    → IsValid (store_off offset bs s)
unfolding store_off
store_off-IsValid offset bs s v room = store_at-IsValid (s.head + offset) bs s v room

pub payload-store_off :
    (offset : ℕ) (bs : List ℕ) (s : Skbuff)
    → IsValid s
    → s.head + offset + length bs ≤ s.tail
    → payload (store_off offset bs s) ≡ patch offset bs (payload s)
unfolding payload store_off store_at
payload-store_off offset bs s v room =
    let size = s.tail - s.head in
    let behind = size - (offset + length bs) in
    let old = drop s.head s.buf in
    let rest = drop (s.head + offset + length bs) s.buf in
    let front : length (take (s.head + offset) s.buf) ≡ s.head + offset =
      omega (arith, length-take (s.head + offset) s.buf, v.sized, v.inside) in
    let kept : length (take offset old) ≡ offset =
      omega (arith, length-take offset old, length-drop s.head s.buf, v.sized, v.inside) in
    ap (take size) (
      drop-append_under s.head (take (s.head + offset) s.buf) (bs ++ rest) (omega (arith, front))
      ∙ ap (λ ys. ys ++ (bs ++ rest)) (drop-take (s.head + offset) s.head offset s.buf refl))
    ∙ take-append_over size (size - offset) (take offset old) (bs ++ rest) (omega (arith, kept))
    ∙ ap (λ ys. take offset old ++ ys)
        (take-append_over (size - offset) behind bs rest (omega arith)
          ∙ ap (λ ys. bs ++ ys)
              (ap (take behind) (
                  sym (
                    drop-drop (s.head + offset + length bs) (offset + length bs) s.head s.buf
                      (omega arith)))
                ∙ sym (drop-take size (offset + length bs) behind old (omega arith))))
    ∙ ap (λ ys. ys ++ (bs ++ drop (offset + length bs) (take size old)))
        (sym (take-take size offset old (omega arith)))

-- A header of `n` bytes is taken off.
pub record TakenOff (n : ℕ) (rest : List ℕ) (s : Skbuff) : Type 0 where
  pub pops : pop_front n s ≡ ok (popped n s)
  pub behind : payload (popped n s) ≡ rest
  pub valid : IsValid (popped n s)

pub pop_header :
    (n : ℕ) (header rest : List ℕ) (s : Skbuff)
    → IsValid s
    → length header ≡ n
    → payload s ≡ header ++ rest
    → TakenOff n rest s
pop_header n header rest s v len p =
    let room : s.head + n ≤ s.tail =
      omega (arith, length-payload s v, ap length p, length-append header rest, len, v.ordered) in
    record {
      pops = pop_front_lem n s room;
      behind =
          payload-pop_front n s (popped n s) (pop_front_lem n s room)
          ∙ ap (drop n) p
          ∙ drop-append n header rest len;
      valid = popped-IsValid n s v room;
    }

pub length-patch :
    (offset : ℕ) (bs xs : List ℕ)
    → offset + length bs ≤ length xs
    → length (patch offset bs xs) ≡ length xs
length-patch offset bs xs h = omega (
  arith,
  length-append (take offset xs) (bs ++ drop (offset + length bs) xs),
  length-append bs (drop (offset + length bs) xs),
  length-take offset xs,
  length-drop (offset + length bs) xs,
)

-- The second of two patches at one place stays.
pub patch-patch :
    (offset n : ℕ) (bs cs xs : List ℕ)
    → length bs ≡ n
    → length cs ≡ n
    → offset + n ≤ length xs
    → patch offset cs (patch offset bs xs) ≡ patch offset cs xs
patch-patch offset n bs cs xs b c h =
    let front : length (take offset xs) ≡ offset = omega (arith, length-take offset xs) in
    let tail : drop (offset + length cs) (patch offset bs xs) ≡ drop (offset + length cs) xs =
      drop-append_over (offset + length cs) n (take offset xs) (bs ++ drop (offset + length bs) xs)
        (omega (arith, front, c))
      ∙ drop-append n bs (drop (offset + length bs) xs) b
      ∙ ap (λ k. drop k xs) (omega (arith, b, c)) in
    ap (λ ys. ys ++ (cs ++ drop (offset + length cs) (patch offset bs xs)))
      (take-append offset (take offset xs) (bs ++ drop (offset + length bs) xs) front)
    ∙ ap (λ ys. take offset xs ++ (cs ++ ys)) tail

pub patch-at :
    (offset : ℕ) (bs old front back : List ℕ)
    → length front ≡ offset
    → length old ≡ length bs
    → patch offset bs (front ++ (old ++ back)) ≡ front ++ (bs ++ back)
patch-at offset bs old front back f o =
    ap (λ ys. ys ++ (bs ++ drop (offset + length bs) (front ++ (old ++ back))))
      (take-append offset front (old ++ back) f)
    ∙ ap (λ ys. front ++ (bs ++ ys))
        (drop-append_over (offset + length bs) (length bs) front (old ++ back) (omega (arith, f))
          ∙ drop-append (length bs) old back o)
