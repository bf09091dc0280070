-- ===== src/Skbuff/Filled.antt =====
-- Buffers that hold given bytes behind a headroom.
use mstack_cpp.Base.{
  ℕ, ◌+◌, ◌-◌, ◌≡◌, ◌∙◌, ap, List, ◌++◌, arith, replicate, length-replicate, take, length,
  length-append, drop-append, take-all,
}
use mstack_cpp.Skbuff.{Skbuff, payload}
use mstack_cpp.Skbuff.Laws.{IsValid}

abbrev pub filled : ℕ → List ℕ → Skbuff
filled n bs = record {
  buf = replicate n 0 ++ bs;
  capacity = n + length bs;
  head = n;
  tail = n + length bs;
}

pub filled-IsValid : (n : ℕ) (bs : List ℕ) → IsValid (filled n bs)
filled-IsValid n bs = record {
  sized = omega (arith, length-append (replicate n 0) bs, length-replicate {A = ℕ} n 0);
  ordered = omega arith;
  inside = omega arith;
}

pub payload-filled : (n : ℕ) (bs : List ℕ) → payload (filled n bs) ≡ bs
unfolding payload
payload-filled n bs =
    ap (take (n + length bs - n)) (drop-append n (replicate n 0) bs (length-replicate {A = ℕ} n 0))
    ∙ take-all (n + length bs - n) bs (omega arith)
