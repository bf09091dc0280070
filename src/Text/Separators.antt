-- ===== src/Text/Separators.antt =====
-- Texts that a character separates.
use mstack_cpp.Base.{
  ℕ, zero, suc, ◌+◌, ◌/◌, ◌%◌, ◌<◌, ◌≡◌, refl, ◌∙◌, ap, [], ◌∷◌, ◌++◌, arith, All, All-append,
  false, min, length, length-append, drop, drop-all, drop-append, append_assoc, Bool-cases, inl,
  inr, ltb, ◌==◌, sym,
}
use mstack_cpp.Text.{Text, digits, decimal, before, remove_prefix}

-- The character does not stand in a text.
abbrev pub Lacks : ℕ → Text → Type 0
Lacks c = All (λ x. (x == c) ≡ false)

pub before-at : (c : ℕ) (xs ys : Text) → Lacks c xs → before c (xs ++ c ∷ ys) ≡ xs
unfolding before
before-at c [] ys h = ground arith
before-at c (x ∷ xs) ys h = rw (h.0) (ap (◌∷◌ x) (before-at c xs ys h.1))

pub before-nowhere : (c : ℕ) (xs : Text) → Lacks c xs → before c xs ≡ xs
unfolding before
before-nowhere c [] h = refl
before-nowhere c (x ∷ xs) h = rw (h.0) (ap (◌∷◌ x) (before-nowhere c xs h.1))

pub remove_prefix-behind :
    (c : ℕ) (xs ys : Text) → remove_prefix (length xs + 1) (xs ++ c ∷ ys) ≡ ys
remove_prefix-behind c xs ys =
    let all : min (length (xs ++ c ∷ ys)) (length xs + 1) ≡ length xs + 1 =
      omega (arith, length-append xs (c ∷ ys)) in
    ap (λ k. drop k (xs ++ c ∷ ys)) all
    ∙ ap (drop (length xs + 1)) (sym (append_assoc xs (c ∷ []) ys))
    ∙ drop-append (length xs + 1) (xs ++ c ∷ []) ys (length-append xs (c ∷ []))

pub remove_prefix-all : (xs : Text) → remove_prefix (length xs + 1) xs ≡ []
remove_prefix-all xs = drop-all (min (length xs) (length xs + 1)) xs (omega arith)

pub before-empty : (c : ℕ) → before c [] ≡ []
unfolding before
before-empty c = refl

-- Digits and dots stand before the colon.
abbrev pub BelowColon : Text → Type 0
BelowColon = All (λ x. x < b':')

digits-BelowColon : (fuel n : ℕ) → BelowColon (digits fuel n)
unfolding digits
digits-BelowColon zero n = tt
digits-BelowColon (suc fuel) n = elim (Bool-cases (ltb n 10)) [
  | inl q ↦ rw (digits, q) (ground arith, tt)
  | inr q ↦
      rw (digits, q)
        (All-append (λ x. x < b':') (digits fuel (n / 10)) ((b'0' + n % 10) ∷ [])
          (digits-BelowColon fuel (n / 10)) (omega arith, tt))
]

pub decimal-BelowColon : (n : ℕ) → BelowColon (decimal n)
unfolding decimal
decimal-BelowColon n = digits-BelowColon (n + 1) n

pub BelowColon-Lacks : (xs : Text) → BelowColon xs → Lacks b':' xs
BelowColon-Lacks [] h = tt
BelowColon-Lacks (x ∷ xs) h = (ground arith, BelowColon-Lacks xs h.1)
