-- ===== src/Options/Roundtrip.antt =====
-- What `encode_options` writes and `decode_options` reads of it.
use mstack_cpp.Base.{
  ℕ, zero, suc, ◌+◌, ◌-◌, ◌^◌, ◌≤◌, ◌<◌, ◌≡◌, refl, ◌∙◌, ap, sym, List, [], ◌∷◌, ◌++◌, arith, none,
  some, Result, ok, fault, out_of_bounds, length, append_assoc, append-nil, length-append,
  take-append, drop-append,
}
use mstack_cpp.Wire.{to_bytes, hton}
use mstack_cpp.Wire.Roundtrip.{length-to_bytes, ntoh-hton}
use mstack_cpp.Options.{
  TcpOption, monostate, sack, nop, mss, timestamp, window_scale, at, again, option_length,
  decode_mss, decode_ws, decode_skipped, decode_round, decode_loop, decode_options, encode_option,
  encode_options,
}

-- The options that both functions know, with a size that fits its two bytes.
abbrev pub IsPlain : List TcpOption → Type 0
IsPlain [] = Unit
IsPlain (mss value ∷ opts) = (value < 2 ^ 16) × IsPlain opts
IsPlain (timestamp a b ∷ opts) = ⊥
IsPlain (window_scale s ∷ opts) = ⊥
IsPlain (_ ∷ opts) = IsPlain opts

-- How many bytes they take, which they are, and what is kept of them when they are read.
abbrev pub size : List TcpOption → ℕ
size [] = 0
size (mss value ∷ opts) = 4 + size opts
size (nop ∷ opts) = 1 + size opts
size (sack ∷ opts) = 2 + size opts
size (_ ∷ opts) = size opts

abbrev pub written : List TcpOption → List ℕ
written [] = []
written (mss value ∷ opts) = 2 ∷ 4 ∷ to_bytes 2 (hton 2 value) ++ written opts
written (nop ∷ opts) = 1 ∷ written opts
written (sack ∷ opts) = 4 ∷ 2 ∷ written opts
written (_ ∷ opts) = written opts

abbrev pub kept : List TcpOption → List TcpOption
kept [] = []
kept (mss value ∷ opts) = mss value ∷ kept opts
kept (_ ∷ opts) = kept opts

encode-written :
    (opts : List TcpOption) (room : ℕ)
    → IsPlain opts
    → size opts ≤ room
    → encode_options room opts ≡ ok (written opts)
unfolding encode_options encode_option
encode-written [] room p h = refl
encode-written (monostate ∷ opts) room p h =
    rw (encode-written opts (room - 0) p (omega arith)) refl
encode-written (nop ∷ opts) room p h =
    ground (arith, encode-written opts (room - 1) p (omega arith))
encode-written (sack ∷ opts) room p h =
    ground (arith, encode-written opts (room - 2) p (omega arith))
encode-written (mss value ∷ opts) room p h =
    ground
      (arith, length-to_bytes 2 (hton 2 value), encode-written opts (room - 4) p.1 (omega arith))
encode-written (timestamp a b ∷ opts) room p h = absurd p
encode-written (window_scale s ∷ opts) room p h = absurd p

skipped_round : (rest : List ℕ) → decode_round (4 ∷ 2 ∷ rest) ≡ ok (again none rest)
unfolding decode_round decode_skipped option_length at
skipped_round rest = ground arith

mss_round :
    (value : ℕ) (rest : List ℕ)
    → value < 2 ^ 16
    → decode_round (2 ∷ 4 ∷ to_bytes 2 (hton 2 value) ++ rest) ≡ ok (again (some (mss value)) rest)
unfolding decode_round decode_mss option_length at
mss_round value rest h =
    let v = to_bytes 2 (hton 2 value) in
    ground (
      arith,
      length-to_bytes 2 (hton 2 value),
      length-append v rest,
      take-append 2 v rest (length-to_bytes 2 (hton 2 value)),
      drop-append 2 v rest (length-to_bytes 2 (hton 2 value)),
      ntoh-hton 2 value h,
    )

-- The loop reads the options that were written and goes on behind them.
decode-written :
    (opts : List TcpOption) (rest : List ℕ) (r : Result (List TcpOption)) (k : ℕ) (fuel : ℕ)
    (acc : List TcpOption)
    → IsPlain opts
    → size opts + k ≤ fuel
    → ((f : ℕ) → k ≤ f → decode_loop f rest (acc ++ kept opts) ≡ r)
    → decode_loop fuel (written opts ++ rest) acc ≡ r
unfolding decode_loop decode_round
decode-written [] rest r k fuel acc p h c =
    ap (decode_loop fuel rest) (sym (append-nil acc)) ∙ c fuel (omega arith)
decode-written (monostate ∷ opts) rest r k fuel acc p h c =
    decode-written opts rest r k fuel acc p h c
decode-written (nop ∷ opts) rest r k (suc fuel) acc p h c =
    decode-written opts rest r k fuel acc p (omega arith) c
decode-written (sack ∷ opts) rest r k (suc fuel) acc p h c =
    rw (decode_loop, skipped_round (written opts ++ rest))
      (decode-written opts rest r k fuel acc p (omega arith) c)
decode-written (mss value ∷ opts) rest r k (suc fuel) acc p h c =
    rw
      (
        append_assoc (to_bytes 2 (hton 2 value)) (written opts) rest,
        decode_loop,
        mss_round value (written opts ++ rest) p.0,
      )
      (decode-written opts rest r k fuel (acc ++ mss value ∷ []) p.1 (omega arith)
        (λ f l. ap (decode_loop f rest) (append_assoc acc (mss value ∷ []) (kept opts)) ∙ c f l))
decode-written (nop ∷ opts) rest r k zero acc p h c = ground arith
decode-written (sack ∷ opts) rest r k zero acc p h c = ground arith
decode-written (mss value ∷ opts) rest r k zero acc p h c = ground arith
decode-written (timestamp a b ∷ opts) rest r k fuel acc p h c = absurd p
decode-written (window_scale s ∷ opts) rest r k fuel acc p h c = absurd p

scale_read :
    (shift_cnt : ℕ) (acc : List TcpOption) (f : ℕ)
    → 1 ≤ f
    → decode_loop f (3 ∷ 3 ∷ shift_cnt ∷ []) acc ≡ fault out_of_bounds
unfolding decode_loop decode_round decode_ws option_length at
scale_read shift_cnt acc zero l = ground arith
scale_read shift_cnt acc (suc f) l = refl

decoded_all : (acc : List TcpOption) (f : ℕ) → 0 ≤ f → decode_loop f [] acc ≡ ok acc
unfolding decode_loop
decoded_all acc f l = refl

pub length-written : (opts : List TcpOption) → IsPlain opts → length (written opts) ≡ size opts
length-written [] p = refl
length-written (monostate ∷ opts) p = length-written opts p
length-written (nop ∷ opts) p = omega (arith, length-written opts p)
length-written (sack ∷ opts) p = omega (arith, length-written opts p)
length-written (mss value ∷ opts) p = omega (
  arith,
  length-append (to_bytes 2 (hton 2 value)) (written opts),
  length-to_bytes 2 (hton 2 value),
  length-written opts p.1,
)
length-written (timestamp a b ∷ opts) p = absurd p
length-written (window_scale s ∷ opts) p = absurd p

pub decode_options-written :
    (opts : List TcpOption) → IsPlain opts → decode_options (written opts) ≡ ok (kept opts)
unfolding decode_options
decode_options-written opts p =
    ap decode_options (sym (append-nil (written opts)))
    ∙ decode-written opts [] (ok (kept opts)) 0 (length (written opts ++ [])) [] p
        (omega (arith, length-written opts p, length-append (written opts) []))
        (decoded_all (kept opts))

-- For options without timestamps and window scales, in a buffer with room for them, encoding
-- returns bytes, as many as the options take, and decoding those returns just the segment sizes
-- among the options, in their order.
pub decode-encode :
    (opts : List TcpOption) (room : ℕ)
    → IsPlain opts
    → size opts ≤ room
    → (bs : List ℕ) × (encode_options room opts ≡ ok bs)
      × (length bs ≡ size opts)
      × (decode_options bs ≡ ok (kept opts))
decode-encode opts room p h = (
  written opts,
  encode-written opts room p h,
  length-written opts p,
  decode_options-written opts p,
)

-- Options that end in a window scale of three bytes, after any written options without timestamps
-- and window scales, are read out of bounds: the fourth byte is read.
pub decode_options-window_scale :
    (opts : List TcpOption) (shift_cnt : ℕ)
    → IsPlain opts
    → decode_options (written opts ++ 3 ∷ 3 ∷ shift_cnt ∷ []) ≡ fault out_of_bounds
unfolding decode_options
decode_options-window_scale opts shift_cnt p =
    decode-written opts (3 ∷ 3 ∷ shift_cnt ∷ []) (fault out_of_bounds) 1 _ [] p
      (omega (arith, length-written opts p, length-append (written opts) (3 ∷ 3 ∷ shift_cnt ∷ [])))
      (scale_read shift_cnt (kept opts))
