-- ===== src/Text/Numbers.antt =====
-- A number that is written in decimal is read again.
use mstack_cpp.Base.{
  ℕ, zero, suc, ◌+◌, ◌*◌, ◌/◌, ◌%◌, ◌<◌, ◌≡◌, refl, ◌∙◌, ap, [], ◌∷◌, ◌++◌, append_assoc, arith,
  Bool-cases, inl, inr, true, false, ltb,
}
use mstack_cpp.Text.{Text, digits, decimal, scan, starts_with_digit, from_chars}

scan-digit :
    (value m : ℕ) (cs : Text) → m < 10 → scan value ((b'0' + m) ∷ cs) ≡ scan (value * 10 + m) cs
unfolding scan
scan-digit value m cs h = ground arith

digits-one : (fuel n : ℕ) → ltb n 10 ≡ true → digits (suc fuel) n ≡ (b'0' + n) ∷ []
unfolding digits
digits-one fuel n h = rw (digits, h) refl

digits-more :
    (fuel n : ℕ)
    → ltb n 10 ≡ false
    → digits (suc fuel) n ≡ digits fuel (n / 10) ++ (b'0' + n % 10) ∷ []
unfolding digits
digits-more fuel n h = rw (digits, h) refl

-- The digits are read, and what follows them goes on.
scan-digits : (fuel n : ℕ) (rest : Text) → n < fuel → scan 0 (digits fuel n ++ rest) ≡ scan n rest
scan-digits zero n rest h = absurd (omega arith)
scan-digits (suc fuel) n rest h = elim (Bool-cases (ltb n 10)) [
  | inl q ↦
      ap (λ ds. scan 0 (ds ++ rest)) (digits-one fuel n q)
      ∙ scan-digit 0 n rest (ground arith)
      ∙ ap (λ k. scan k rest) (omega arith)
  | inr q ↦
      let last = b'0' + n % 10 in
      ap (λ ds. scan 0 (ds ++ rest)) (digits-more fuel n q)
      ∙ ap (scan 0) (append_assoc (digits fuel (n / 10)) (last ∷ []) rest)
      ∙ scan-digits fuel (n / 10) (last ∷ rest) (ground arith)
      ∙ scan-digit (n / 10) (n % 10) rest (omega arith)
      ∙ ap (λ k. scan k rest) (omega arith)
]

starts-digits :
    (fuel n : ℕ) (rest : Text) → n < fuel → starts_with_digit (digits fuel n ++ rest) ≡ true
starts-digits zero n rest h = absurd (omega arith)
starts-digits (suc fuel) n rest h = elim (Bool-cases (ltb n 10)) [
  | inl q ↦ ap (λ ds. starts_with_digit (ds ++ rest)) (digits-one fuel n q) ∙ ground arith
  | inr q ↦
      ap (λ ds. starts_with_digit (ds ++ rest)) (digits-more fuel n q)
      ∙ ap starts_with_digit (append_assoc (digits fuel (n / 10)) ((b'0' + n % 10) ∷ []) rest)
      ∙ starts-digits fuel (n / 10) ((b'0' + n % 10) ∷ rest) (ground arith)
]

pub scan-decimal : (n : ℕ) (rest : Text) → scan 0 (decimal n ++ rest) ≡ scan n rest
unfolding decimal
scan-decimal n rest = scan-digits (n + 1) n rest (omega arith)

-- A text that no digit starts ends the number.
pub scan-stops :
    (value : ℕ) (rest : Text) → starts_with_digit rest ≡ false → scan value rest ≡ (value, rest)
unfolding scan
scan-stops value [] h = refl
scan-stops value (c ∷ cs) h = rw h refl

pub from_chars-decimal :
    (bound old n : ℕ) (rest : Text)
    → n < bound
    → starts_with_digit rest ≡ false
    → from_chars bound old (decimal n ++ rest) ≡ n
unfolding from_chars decimal
from_chars-decimal bound old n rest h stop =
    let read : (scan 0 (decimal n ++ rest)).0 ≡ n =
      ap (λ r. r.0) (scan-decimal n rest ∙ scan-stops n rest stop) in
    let first = starts-digits (n + 1) n rest (omega arith) in
    let fits : ltb n bound ≡ true = ground arith in rw (first, read, fits) refl

pub decimal-starts : (n : ℕ) (rest : Text) → starts_with_digit (decimal n ++ rest) ≡ true
unfolding decimal
decimal-starts n rest = starts-digits (n + 1) n rest (omega arith)

-- Where no digit stands the variable keeps its value.
pub from_chars-no_digit :
    (bound old : ℕ) (source : Text)
    → starts_with_digit source ≡ false
    → from_chars bound old source ≡ old
unfolding from_chars
from_chars-no_digit bound old source h = rw h refl
