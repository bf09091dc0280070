-- ===== src/Socket/Laws.antt =====
-- The buffer is filled with the front of the stream.
use mstack_cpp.Base.{
  ℕ, ◌+◌, ◌-◌, ◌≤◌, ◌<◌, ◌⊎◌, ◌≡◌, refl, ◌∙◌, ap, sym, List, [], ◌∷◌, ◌++◌, arith, ltb, leb,
  Bool-cases, inl, inr, true, false, some, min, take, drop, drop-drop, take-take, drop-take,
  take-append-drop,
}
use mstack_cpp.Socket.{on_read, async_read_complete, async_read}

leb_total : (m n : ℕ) → (m ≤ n) ⊎ (n < m)
leb_total m n = elim (Bool-cases (leb m n)) [
  | inl q ↦ inl (ground arith)
  | inr q ↦ inr (ground arith)
]

-- All that the block has over the reads.
abbrev pub total : List ℕ → ℕ
total [] = 0
total (avail ∷ avails) = avail + total avails

-- What is taken off a stream in two parts.
take_more :
    {A : Type 0} (k m n : ℕ) (xs : List A) → k ≡ m + n → take m xs ++ take n (drop m xs) ≡ take k xs
take_more k m n xs h =
    ap (λ ys. ys ++ take n (drop m xs)) (sym (take-take k m xs (omega arith)))
    ∙ ap (λ ys. take m (take k xs) ++ ys) (sym (drop-take k m n xs h))
    ∙ take-append-drop m (take k xs)

filled_at_once :
    (buf_size avail : ℕ) (avails stream : List ℕ)
    → buf_size ≤ avail
    → async_read_complete buf_size (avail ∷ avails) stream
      ≡ some (take buf_size stream, drop buf_size stream, 0)
unfolding async_read_complete on_read
filled_at_once buf_size avail avails stream h =
    let m : min avail buf_size ≡ buf_size = omega arith in
    let full : ltb (min avail buf_size) buf_size ≡ false = ground arith in
    rw (async_read_complete, full, m) refl

reads_rest :
    (buf_size avail : ℕ) (avails stream got stream1 : List ℕ) (left : ℕ)
    → avail < buf_size
    → async_read_complete (buf_size - avail) avails (drop avail stream) ≡ some (got, stream1, left)
    → async_read_complete buf_size (avail ∷ avails) stream
      ≡ some (take avail stream ++ got, stream1, left)
unfolding async_read_complete on_read
reads_rest buf_size avail avails stream got stream1 left h e =
    let m : min avail buf_size ≡ avail = omega arith in
    let more : ltb (min avail buf_size) buf_size ≡ true = ground arith in
    rw (async_read_complete, more, m, e)
      (ap (λ (n : ℕ). some (take n stream ++ got, stream1, left)) m)

completes :
    (buf_size avail : ℕ) (avails stream : List ℕ)
    → buf_size ≤ avail + total avails
    → async_read_complete buf_size (avail ∷ avails) stream
      ≡ some (take buf_size stream, drop buf_size stream, 0)
completes buf_size avail [] stream h = filled_at_once buf_size avail [] stream (omega arith)
completes buf_size avail (next ∷ avails) stream h = elim (leb_total buf_size avail) [
  | inl q ↦ filled_at_once buf_size avail (next ∷ avails) stream q
  | inr q ↦
      let size = buf_size - avail in
      reads_rest buf_size avail (next ∷ avails) stream _ _ 0 q
        (completes size next avails (drop avail stream) (omega arith))
      ∙ ap (λ ys. some (ys, drop size (drop avail stream), 0))
          (take_more buf_size avail size stream (omega arith))
      ∙ ap (λ ys. some (take buf_size stream, ys, 0))
          (drop-drop buf_size size avail stream (omega arith))
]

-- Once the block has had as many bytes as the buffer is long, over at least one read, the callback of
-- `async_read` is called: the buffer has the front of the stream, in order, the rest of the stream
-- is left for later, and the callback is told the size of the buffer.
pub async_read-completes :
    (buf_size avail : ℕ) (avails stream : List ℕ)
    → buf_size ≤ avail + total avails
    → async_read buf_size (avail ∷ avails) stream
      ≡ some (take buf_size stream, drop buf_size stream, buf_size)
unfolding async_read
async_read-completes buf_size avail avails stream h =
    rw (async_read, completes buf_size avail avails stream h)
      (ap (λ (n : ℕ). some (take buf_size stream, drop buf_size stream, n)) (omega arith))
