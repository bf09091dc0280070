-- ===== src/Socket.antt =====
-- mstack/mstack/socket.cpp: the read that fills its buffer. The block calls the callback of
-- `async_read_some` with a number of bytes that it has written to the front of the buffer, which
-- is at most the buffer's size.
pub mod Laws
pub mod Calls
use mstack_cpp.Base.{
  ℕ, ◌-◌, List, [], ◌∷◌, ◌++◌, ltb, not, if◌then◌else◌, Option, none, some, min, take, drop,
}

-- What the callback of `async_read_complete` does: it calls `cb` with the bytes left, or it reads on
-- into the rest of the buffer, of that size.
pub data Step : Type 0 where
  finished : ℕ → Step
  reads_on : ℕ → Step

pub on_read : ℕ → ℕ → Step
on_read buf_size nbytes =
    if not (ltb nbytes buf_size) then finished 0 else reads_on (buf_size - nbytes)

-- The reads that follow each other, where the block has `avail` bytes of the stream for the next one
-- each time: what the buffer got, what is left of the stream, and the bytes left that `cb` is told;
-- `none` while a read waits.
pub async_read_complete : ℕ → List ℕ → List ℕ → Option (List ℕ × List ℕ × ℕ)
unfolding on_read
async_read_complete buf_size [] stream = none
async_read_complete buf_size (avail ∷ avails) stream =
    let nbytes = min avail buf_size in
    let rest = async_read_complete (buf_size - nbytes) avails (drop nbytes stream) in
    elim (on_read buf_size nbytes) [
      | finished left ↦ some (take nbytes stream, drop nbytes stream, left)
      | reads_on size ↦ elim rest [
        | none ↦ none
        | some (got, stream1, left) ↦ some (take nbytes stream ++ got, stream1, left)
      ]
    ]

-- `async_read` reports `nbytesall - nbytes_left`.
pub async_read : ℕ → List ℕ → List ℕ → Option (List ℕ × List ℕ × ℕ)
unfolding async_read_complete
async_read buf_size avails stream = elim (async_read_complete buf_size avails stream) [
  | none ↦ none
  | some (got, stream1, nbytes_left) ↦ some (got, stream1, buf_size - nbytes_left)
]
