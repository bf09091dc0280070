-- ===== src/Skbuff/Laws.antt =====
-- The offsets stay in order, and pushes undo pops.
use mstack_cpp.Base.{
  ℕ, ◌+◌, ◌-◌, ◌≤◌, ◌≡◌, refl, List, ◌++◌, arith, Result, ok, fault, assertion, ap, ◌∙◌, sym, zero,
  suc, [], ◌∷◌, take, drop, length, length-append, length-take, length-drop, drop-append, drop-drop,
  drop-take, take-append_over,
}
use mstack_cpp.Skbuff.{
  Skbuff, fresh, skbuff, payload, pop_front, push_front, pop_back, push_back, store_at, store_head,
}

-- `start_ <= head_ <= tail_ <= end_`, and the memory is as long as the capacity says.
pub record IsValid (s : Skbuff) : Type 0 where
  pub sized : length s.buf ≡ s.capacity
  pub ordered : s.head ≤ s.tail
  pub inside : s.tail ≤ s.capacity

pub length-fresh : (junk : ℕ → ℕ) (n : ℕ) → length (fresh junk n) ≡ n
unfolding fresh
length-fresh junk zero = refl
length-fresh junk (suc n) =
    omega (arith, length-append (fresh junk n) (junk n ∷ []), length-fresh junk n)

-- What an operation ends in: a fault, or a buffer that is valid.
abbrev pub Keeps : Result Skbuff → Type 0
Keeps (ok s) = IsValid s
Keeps (fault e) = e ≡ assertion

-- Each of the constructor and the four pointer moves either fails its assertion or gives a
-- buffer whose offsets are in order and inside the memory.
pub moves-IsValid :
    (n : ℕ) (s : Skbuff) (junk : ℕ → ℕ) (len off : ℕ)
    → IsValid s
    → Keeps (skbuff (fresh junk len) len off)
      × Keeps (pop_front n s)
      × Keeps (push_front n s)
      × Keeps (pop_back n s)
      × Keeps (push_back n s)
unfolding skbuff pop_front push_front pop_back push_back
moves-IsValid n s junk len off v =
    (ground (arith, length-fresh junk len), ground arith, ground arith, ground arith, ground arith)

-- Room given back is room had: after `pop_front n`, `push_front n` restores the buffer.
pub push_front-pop_front : (n : ℕ) (s t : Skbuff) → pop_front n s ≡ ok t → push_front n t ≡ ok s
unfolding pop_front push_front
push_front-pop_front n s t h = ground arith

pub length-payload : (s : Skbuff) → IsValid s → length (payload s) ≡ s.tail - s.head
unfolding payload
length-payload s v = omega (
  arith,
  length-take (s.tail - s.head) (drop s.head s.buf),
  length-drop s.head s.buf,
  v.sized,
  v.ordered,
  v.inside,
)

-- `pop_front n` takes the first `n` bytes off the payload.
pub payload-pop_front :
    (n : ℕ) (s t : Skbuff) → pop_front n s ≡ ok t → payload t ≡ drop n (payload s)
unfolding payload pop_front
payload-pop_front n s t h = ground (
  arith,
  drop-take (s.tail - s.head) n (s.tail - (s.head + n)) (drop s.head s.buf),
  drop-drop (s.head + n) n s.head s.buf,
)

-- Bytes written at the head are the front of the payload, and the rest of it stays.
pub payload-store_head :
    (bs : List ℕ) (s : Skbuff)
    → IsValid s
    → s.head + length bs ≤ s.tail
    → payload (store_head bs s) ≡ bs ++ drop (length bs) (payload s)
unfolding payload store_head store_at
payload-store_head bs s v room =
    let k = s.tail - (s.head + length bs) in
    let rest = drop (s.head + length bs) s.buf in
    ap (take (s.tail - s.head)) (drop-append s.head (take s.head s.buf) (bs ++ rest) front)
    ∙ take-append_over (s.tail - s.head) k bs rest (omega arith)
    ∙ ap (◌++◌ bs) (
        sym (
          drop-take (s.tail - s.head) (length bs) k (drop s.head s.buf) (omega arith)
          ∙ ap (take k) (drop-drop (s.head + length bs) (length bs) s.head s.buf (omega arith))))
  where
    front : length (take s.head s.buf) ≡ s.head
    front = omega (arith, length-take s.head s.buf)

-- The constructor succeeds where the head offset is inside the buffer.
pub skbuff_lem :
    (buf : List ℕ) (len off : ℕ)
    → off ≤ len
    → skbuff buf len off ≡ ok (record { buf = buf; capacity = len; head = off; tail = len })
unfolding skbuff
skbuff_lem buf len off h = ground arith

-- A pop inside the payload succeeds, and the buffer stays valid.
abbrev pub popped : ℕ → Skbuff → Skbuff
popped n s = record s { head = s.head + n }

pub pop_front_lem : (n : ℕ) (s : Skbuff) → s.head + n ≤ s.tail → pop_front n s ≡ ok (popped n s)
unfolding pop_front
pop_front_lem n s h = ground arith

pub popped-IsValid : (n : ℕ) (s : Skbuff) → IsValid s → s.head + n ≤ s.tail → IsValid (popped n s)
popped-IsValid n s v h = ground arith

-- A buffer that bytes are written into stays valid.
pub store_head-IsValid :
    (bs : List ℕ) (s : Skbuff) → IsValid s → s.head + length bs ≤ s.tail → IsValid (store_head bs s)
unfolding store_head store_at
store_head-IsValid bs s v room = record {
  sized = omega (
    arith,
    length-append (take s.head s.buf) (bs ++ drop (s.head + length bs) s.buf),
    length-append bs (drop (s.head + length bs) s.buf),
    length-take s.head s.buf,
    length-drop (s.head + length bs) s.buf,
    v.sized,
    v.inside,
  );
  ordered = v.ordered;
  inside = v.inside;
}
