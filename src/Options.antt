-- ===== src/Options.antt =====
-- The TCP options of mstack/mstack/tcb.cpp: `decode_options` and `encode_options`.
pub mod Laws
pub mod Roundtrip
use mstack_cpp.Base.{
  ℕ, zero, suc, ◌+◌, ◌-◌, ◌≤◌, List, [], ◌∷◌, ◌++◌, Bool, ltb, leb, not, ◌&&◌, ◌==◌, if◌then◌else◌,
  Option, none, some, Result, ok, fault, out_of_bounds, out_of_fuel, assertion, ◌>>=◌, ◌>>◌, assert,
  take, drop, length,
}
use mstack_cpp.Wire.{to_bytes, of_bytes, ntoh, hton}

abbrev pub k_nop : ℕ
k_nop = 1

abbrev pub k_mss : ℕ
k_mss = 2

abbrev pub k_ws : ℕ
k_ws = 3

abbrev pub k_sack : ℕ
k_sack = 4

abbrev pub k_tso : ℕ
k_tso = 8

-- The alternatives of the variant.
pub data TcpOption : Type 0 where
  monostate sack nop : TcpOption
  mss : ℕ → TcpOption
  timestamp : ℕ → ℕ → TcpOption
  window_scale : ℕ → TcpOption

-- `buf[i]`; an index that is not below the size is undefined behaviour.
pub at : List ℕ → ℕ → Result ℕ
at [] i = fault out_of_bounds
at (b ∷ bs) zero = ok b
at (b ∷ bs) (suc i) = at bs i

-- One round of the loop: nothing to stop at the first other type, or the option that is pushed,
-- if any, with the bytes left.
pub data Round : Type 0 where
  stop : Round
  again : Option TcpOption → List ℕ → Round

-- The two assertions that an option with a length begins with.
pub option_length : ℕ → List ℕ → Result ℕ
option_length expected buf = do
  assert (not (ltb (length buf) 2))
  len ← at buf 1
  assert (expected == len && not (ltb (length buf) len))
  ok len

pub decode_mss : List ℕ → Result Round
decode_mss buf = do
  len ← option_length 4 buf
  ok (again (some (mss (ntoh 2 (of_bytes (take 2 (drop 2 buf)))))) (drop len buf))

pub decode_ws : List ℕ → Result Round
decode_ws buf = do
  len ← option_length 3 buf
  shift_cnt ← at buf 3
  ok (again (some (window_scale shift_cnt)) (drop len buf))

pub decode_skipped : ℕ → List ℕ → Result Round
decode_skipped expected buf = do len ← option_length expected buf; ok (again none (drop len buf))

pub decode_round : List ℕ → Result Round
unfolding decode_mss decode_ws decode_skipped option_length at
decode_round buf = do
  type ← at buf 0
  if type == k_nop
      then ok (again none (drop 1 buf))
      else if type == k_mss
      then decode_mss buf
      else if type == k_ws
      then decode_ws buf
      else if type == k_sack
      then decode_skipped 2 buf
      else if type == k_tso
      then decode_skipped 10 buf
      else ok stop

abbrev pub push_option : List TcpOption → Option TcpOption → List TcpOption
push_option opts none = opts
push_option opts (some opt) = opts ++ opt ∷ []

-- `while (!buf.empty())`, on fuel.
pub decode_loop : ℕ → List ℕ → List TcpOption → Result (List TcpOption)
decode_loop fuel [] opts = ok opts
decode_loop zero (b ∷ bs) opts = fault out_of_fuel
decode_loop (suc fuel) (b ∷ bs) opts = elim (decode_round (b ∷ bs)) [
  | fault e ↦ fault e
  | ok stop ↦ ok opts
  | ok (again opt rest) ↦ decode_loop fuel rest (push_option opts opt)
]

-- Every round takes a byte at least, so the length is fuel enough.
pub decode_options : List ℕ → Result (List TcpOption)
unfolding decode_round decode_loop
decode_options buf = decode_loop (length buf) buf []

-- What `std::visit` writes for one option into `room` bytes that are left.
pub encode_option : ℕ → TcpOption → Result (List ℕ)
encode_option room monostate = ok []
encode_option room nop = do assert (not (ltb room 1)); ok (k_nop ∷ [])
encode_option room (mss value) = do
  assert (not (ltb room 4))
  ok (k_mss ∷ 4 ∷ to_bytes 2 (hton 2 value))
encode_option room (window_scale shift_cnt) = do
  assert (not (ltb room 3))
  ok (k_ws ∷ 3 ∷ shift_cnt ∷ [])
encode_option room sack = do assert (not (ltb room 2)); ok (k_sack ∷ 2 ∷ [])
encode_option room (timestamp ts_value ts_echo_reply) = fault assertion

pub encode_options : ℕ → List TcpOption → Result (List ℕ)
unfolding encode_option
encode_options room [] = ok []
encode_options room (opt ∷ opts) = do
  written ← encode_option room opt
  rest ← encode_options (room - length written) opts
  ok (written ++ rest)
