-- ===== src/Ring/Bounded.antt =====
-- A bounded list that keeps the promises of the circular buffer: a write that does not fit
-- pushes the oldest bytes out, and a longer size raises the capacity.
use mstack_cpp.Base.{
  ℕ, ◌+◌, ◌-◌, ◌≤◌, ◌≡◌, refl, ap, List, [], ◌++◌, ltb, if◌then◌else◌, arith, take, drop, length,
  replicate, length-append,
}
use mstack_cpp.Ring.{CircularBuffer}

pub record BoundedList : Type 0 where
  pub items : List ℕ
  pub capacity : ℕ

abbrev pub insert_end : List ℕ → BoundedList → BoundedList
insert_end xs r = record r { items = drop (length (r.items ++ xs) - r.capacity) (r.items ++ xs) }

abbrev pub resize : ℕ → BoundedList → BoundedList
resize n r = record {
  items = take n r.items ++ replicate (n - length r.items) 0;
  capacity = if ltb r.capacity n then n else r.capacity;
}

pub items-insert_end :
    (xs : List ℕ) (r : BoundedList)
    → length r.items + length xs ≤ r.capacity
    → (insert_end xs r).items ≡ r.items ++ xs
items-insert_end xs r h =
    let e : length (r.items ++ xs) - r.capacity ≡ 0 = omega (arith, length-append r.items xs) in
    ap (λ k. drop k (r.items ++ xs)) e

pub capacity-resize :
    (n : ℕ) (r : BoundedList) → n ≤ r.capacity → (resize n r).capacity ≡ r.capacity
capacity-resize n r h = ground arith

abbrev pub bounded_list : CircularBuffer BoundedList
bounded_list = record {
  create = λ n. record { items = []; capacity = n };
  items = λ r. r.items;
  capacity = λ r. r.capacity;
  insert_end = insert_end;
  erase_begin = λ n r. record r { items = drop n r.items };
  resize = resize;
  assign_from =
      λ i xs r. record r { items = take i r.items ++ (xs ++ drop (i + length xs) r.items) };
  items-create = λ n. refl;
  capacity-create = λ n. refl;
  items-insert_end = items-insert_end;
  capacity-insert_end = λ xs r. refl;
  items-erase_begin = λ n r h. refl;
  capacity-erase_begin = λ n r. refl;
  items-resize = λ n r. refl;
  capacity-resize = capacity-resize;
  items-assign_from = λ i xs r h. refl;
  capacity-assign_from = λ i xs r. refl;
}
