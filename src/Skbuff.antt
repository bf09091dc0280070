-- ===== src/Skbuff.antt =====
-- mstack/mstack/skbuff.hpp: a buffer with room in front of the payload and behind it.
-- The pointers are offsets from `start_`, so `end_` is the capacity.
pub mod Laws
pub mod Stores
pub mod Chsum
pub mod Filled
use mstack_cpp.Base.{
  ℕ, ◌+◌, ◌-◌, List, ◌++◌, ltb, not, Result, ok, ◌>>=◌, ◌>>◌, assert, leb, take, drop, length, zero,
  suc, [], ◌∷◌,
}

pub record Skbuff : Type 0 where
  pub buf : List ℕ
  pub capacity : ℕ
  pub head : ℕ
  pub tail : ℕ

-- `std::make_unique_for_overwrite<std::byte[]>(n)`: `junk i` is what byte `i` happens to hold.
pub fresh : (ℕ → ℕ) → ℕ → List ℕ
fresh junk zero = []
fresh junk (suc n) = fresh junk n ++ junk n ∷ []

-- The constructor; its first assertion is on `start_`, which `make_unique` never leaves null.
pub skbuff : List ℕ → ℕ → ℕ → Result Skbuff
skbuff buf len head_off = do
  assert (not (ltb len head_off))
  ok (record { buf = buf; capacity = len; head = head_off; tail = len })

pub payload : Skbuff → List ℕ
payload s = take (s.tail - s.head) (drop s.head s.buf)

abbrev pub headroom : Skbuff → ℕ
headroom s = s.head

pub tailroom : Skbuff → ℕ
tailroom s = s.capacity - s.tail

pub pop_front : ℕ → Skbuff → Result Skbuff
pop_front n s = do assert (not (ltb s.tail (s.head + n))); ok (record s { head = s.head + n })

-- A pointer that would fall before `start_` fails the assertion.
pub push_front : ℕ → Skbuff → Result Skbuff
push_front n s = do assert (leb n s.head); ok (record s { head = s.head - n })

pub pop_back : ℕ → Skbuff → Result Skbuff
pop_back n s = do assert (leb (s.head + n) s.tail); ok (record s { tail = s.tail - n })

pub push_back : ℕ → Skbuff → Result Skbuff
push_back n s = do assert (not (ltb s.capacity (s.tail + n))); ok (record s { tail = s.tail + n })

-- Bytes stored at an offset of the buffer, as through the pointer that `head()` gives.
pub store_at : ℕ → List ℕ → List ℕ → List ℕ
store_at offset bs buf = take offset buf ++ (bs ++ drop (offset + length bs) buf)

unfoldable pub store_head : List ℕ → Skbuff → Skbuff
unfolding store_at
store_head bs s = record s { buf = store_at s.head bs s.buf }

-- `std::memcpy(head() + offset, bs)`.
unfoldable pub store_off : ℕ → List ℕ → Skbuff → Skbuff
unfolding store_at
store_off offset bs s = record s { buf = store_at (s.head + offset) bs s.buf }
