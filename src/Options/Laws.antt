-- ===== src/Options/Laws.antt =====
-- `decode_options` ends on every input, and reads what `encode_options` writes.
use mstack_cpp.Base.{
  ℕ, zero, suc, ◌≤◌, ◌<◌, ◌≡◌, refl, Bool-cases, ◌⊎◌, inl, inr, List, [], ◌∷◌, arith, Bool, true,
  false, leb, ◌==◌, if◌then◌else◌, Result, ok, fault, assertion, null_deref, out_of_bounds,
  dangling, bad_bounds, out_of_fuel, length, length-drop,
}
use mstack_cpp.Options.{
  TcpOption, at, Round, stop, again, option_length, decode_mss, decode_ws, decode_skipped,
  decode_round, push_option, decode_loop, decode_options,
}

-- A round that goes on leaves fewer than `n` bytes.
abbrev Shorter : ℕ → Result Round → Type 0
Shorter n (ok stop) = Unit
Shorter n (ok (again opt rest)) = length rest < n
Shorter n (fault out_of_fuel) = ⊥
Shorter n (fault e) = Unit

-- An option with a length has it, or the program stops at an assertion.
option_length_cases :
    (expected : ℕ) (buf : List ℕ)
    → (option_length expected buf ≡ fault assertion)
      ⊎ ((option_length expected buf ≡ ok expected) × (2 ≤ length buf) × (expected ≤ length buf))
unfolding option_length at
option_length_cases expected [] = inl refl
option_length_cases expected (b ∷ []) = inl refl
option_length_cases expected (b ∷ c ∷ bs) = elim (Bool-cases (expected == c)) [
  | inl e ↦ elim (Bool-cases (leb expected (length (b ∷ c ∷ bs)))) [
    | inl l ↦ inr (ground arith, omega arith, ground arith)
    | inr l ↦ inl (ground arith)
  ]
  | inr e ↦ inl (ground arith)
]

decode_skipped-Shorter :
    (expected : ℕ) (buf : List ℕ)
    → 0 < expected
    → Shorter (length buf) (decode_skipped expected buf)
unfolding decode_skipped
decode_skipped-Shorter expected buf h = elim (option_length_cases expected buf) [
  | inl e ↦ rw e tt
  | inr (e, two, fits) ↦ rw e (omega (arith, length-drop expected buf))
]

decode_mss-Shorter : (buf : List ℕ) → Shorter (length buf) (decode_mss buf)
unfolding decode_mss
decode_mss-Shorter buf = elim (option_length_cases 4 buf) [
  | inl e ↦ rw e tt
  | inr (e, two, fits) ↦ rw e (omega (arith, length-drop 4 buf))
]

at-ok : (i : ℕ) (buf : List ℕ) → (at buf i ≡ fault out_of_bounds) ⊎ (b : ℕ) × (at buf i ≡ ok b)
unfolding at
at-ok i [] = inl refl
at-ok zero (b ∷ bs) = inr (b, refl)
at-ok (suc i) (b ∷ bs) = at-ok i bs

decode_ws-Shorter : (buf : List ℕ) → Shorter (length buf) (decode_ws buf)
unfolding decode_ws
decode_ws-Shorter buf = elim (option_length_cases 3 buf) [
  | inl e ↦ rw e tt
  | inr (e, two, fits) ↦ rw e (elim (at-ok 3 buf) [
    | inl o ↦ rw o tt
    | inr (b, o) ↦ rw o (omega (arith, length-drop 3 buf))
  ])
]

Shorter-if :
    (n : ℕ) (c : Bool) (r s : Result Round)
    → Shorter n r
    → Shorter n s
    → Shorter n (if c then r else s)
Shorter-if n true r s h k = h
Shorter-if n false r s h k = k

decode_round-Shorter : (b : ℕ) (bs : List ℕ) → Shorter (length (b ∷ bs)) (decode_round (b ∷ bs))
unfolding decode_round at
decode_round-Shorter b bs =
    let n = length (b ∷ bs) in
    Shorter-if n (b == 1) _ _ (omega arith) (
      Shorter-if n (b == 2) _ _ (decode_mss-Shorter (b ∷ bs)) (
        Shorter-if n (b == 3) _ _ (decode_ws-Shorter (b ∷ bs)) (
          Shorter-if n (b == 4) _ _ (decode_skipped-Shorter 2 (b ∷ bs) (omega arith))
            (Shorter-if n (b == 8) _ _ (decode_skipped-Shorter 10 (b ∷ bs) (omega arith)) tt))))

round-ends :
    (fuel n : ℕ) (opts : List TcpOption) (r : Result Round)
    → Shorter n r
    → n ≤ suc fuel
    → ((rest : List ℕ) (opts : List TcpOption)
        → length rest ≤ fuel
        → ¬ (decode_loop fuel rest opts ≡ fault out_of_fuel))
    → ¬ (
        elim r [
          | fault e ↦ fault e
          | ok stop ↦ ok opts
          | ok (again opt rest) ↦ decode_loop fuel rest (push_option opts opt)
        ]
        ≡ fault out_of_fuel)
round-ends fuel n opts (ok stop) s l ih e = ground arith
round-ends fuel n opts (ok (again opt rest)) s l ih e =
    ih rest (push_option opts opt) (omega arith) e
round-ends fuel n opts (fault assertion) s l ih e = ground arith
round-ends fuel n opts (fault null_deref) s l ih e = ground arith
round-ends fuel n opts (fault out_of_bounds) s l ih e = ground arith
round-ends fuel n opts (fault dangling) s l ih e = ground arith
round-ends fuel n opts (fault bad_bounds) s l ih e = ground arith
round-ends fuel n opts (fault out_of_fuel) s l ih e = s

decode_loop-ends :
    (fuel : ℕ) (buf : List ℕ) (opts : List TcpOption)
    → length buf ≤ fuel
    → ¬ (decode_loop fuel buf opts ≡ fault out_of_fuel)
unfolding decode_loop
decode_loop-ends fuel [] opts h e = ground arith
decode_loop-ends zero (b ∷ bs) opts h e = omega arith
decode_loop-ends (suc fuel) (b ∷ bs) opts h e =
    round-ends fuel (length (b ∷ bs)) opts (decode_round (b ∷ bs)) (decode_round-Shorter b bs) h
      (decode_loop-ends fuel) e

-- Whatever the bytes are, the loop of `decode_options` ends within as many rounds as there are
-- bytes: the model never runs out of fuel.
pub decode_options-ends : (buf : List ℕ) → ¬ (decode_options buf ≡ fault out_of_fuel)
unfolding decode_options
decode_options-ends buf = decode_loop-ends (length buf) buf [] (omega arith)
