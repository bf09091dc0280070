-- ===== src/Ring.antt =====
-- `boost::circular_buffer<std::byte>`, which the repository does not hold: the operations that
-- tcb.cpp calls, with what their documentation promises. `Ring` is the type of such buffers.
pub mod Bounded
use mstack_cpp.Base.{ℕ, ◌+◌, ◌-◌, ◌≤◌, ◌≡◌, List, [], ◌∷◌, ◌++◌, take, drop, length, replicate}

pub record CircularBuffer (Ring : Type 0) : Type 0 where
  -- `circular_buffer(capacity)`, and the sequence from `begin()` to `end()`.
  pub create : ℕ → Ring
  pub items : Ring → List ℕ
  pub capacity : Ring → ℕ
  -- `insert(end(), first, last)`.
  pub insert_end : List ℕ → Ring → Ring
  -- `erase_begin(n)`.
  pub erase_begin : ℕ → Ring → Ring
  -- `resize(n)`; new entries are zero bytes.
  pub resize : ℕ → Ring → Ring
  -- Assignments through iterators, from `begin() + i` on.
  pub assign_from : ℕ → List ℕ → Ring → Ring
  pub items-create : (n : ℕ) → items (create n) ≡ []
  pub capacity-create : (n : ℕ) → capacity (create n) ≡ n
  pub items-insert_end :
      (xs : List ℕ) (r : Ring)
      → length (items r) + length xs ≤ capacity r
      → items (insert_end xs r) ≡ items r ++ xs
  pub capacity-insert_end : (xs : List ℕ) (r : Ring) → capacity (insert_end xs r) ≡ capacity r
  pub items-erase_begin :
      (n : ℕ) (r : Ring) → n ≤ length (items r) → items (erase_begin n r) ≡ drop n (items r)
  pub capacity-erase_begin : (n : ℕ) (r : Ring) → capacity (erase_begin n r) ≡ capacity r
  pub items-resize :
      (n : ℕ) (r : Ring)
      → items (resize n r) ≡ take n (items r) ++ replicate (n - length (items r)) 0
  pub capacity-resize : (n : ℕ) (r : Ring) → n ≤ capacity r → capacity (resize n r) ≡ capacity r
  pub items-assign_from :
      (i : ℕ) (xs : List ℕ) (r : Ring)
      → i + length xs ≤ length (items r)
      → items (assign_from i xs r) ≡ take i (items r) ++ (xs ++ drop (i + length xs) (items r))
  pub capacity-assign_from :
      (i : ℕ) (xs : List ℕ) (r : Ring) → capacity (assign_from i xs r) ≡ capacity r
