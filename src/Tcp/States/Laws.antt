-- ===== src/Tcp/States/Laws.antt =====
-- What the entries are after an operation.
use mstack_cpp.Base.{
  ◌≡◌, refl, ◌∙◌, ap, inl, inr, [], ◌∷◌, arith, Bool-cases, true, false, if◌then◌else◌, none, some,
}
use mstack_cpp.Endpoint.{TwoEnds, two_ends_eq, two_ends_eq_iff}
use mstack_cpp.Tcp.States.{StateMap, find, assign, erase}

same_key : (e e' k : TwoEnds) → two_ends_eq k e ≡ true → two_ends_eq k e' ≡ two_ends_eq e e'
same_key e e' k q = ap (λ a. two_ends_eq a e') ((two_ends_eq_iff k e).0 q)

different_key :
    (e e' k : TwoEnds)
    → two_ends_eq k e ≡ false
    → two_ends_eq k e' ≡ true
    → two_ends_eq e e' ≡ false
different_key e e' k q p = ground arith

module _ {Value : Type 0} where
  pub find-assign_at :
      (e' e : TwoEnds) (value : Value) (states : StateMap Value)
      → find e' (assign e value states) ≡ (if two_ends_eq e e' then some value else find e' states)
  unfolding find assign
  find-assign_at e' e value [] = refl
  find-assign_at e' e value ((key, old) ∷ states) = elim (Bool-cases (two_ends_eq key e)) [
    | inl q ↦ elim (Bool-cases (two_ends_eq e e')) [
      | inl p ↦ rw (q, p) refl
      | inr p ↦ rw (q, p) (rw (same_key e e' key q ∙ p) refl)
    ]
    | inr q ↦ elim (Bool-cases (two_ends_eq key e')) [
      | inl p ↦ rw (q, p) (rw (different_key e e' key q p) refl)
      | inr p ↦ rw (q, p) (find-assign_at e' e value states)
    ]
  ]

  pub find-erase_at :
      (e' e : TwoEnds) (states : StateMap Value)
      → find e' (erase e states) ≡ (if two_ends_eq e e' then none else find e' states)
  unfolding find erase
  find-erase_at e' e [] = elim (Bool-cases (two_ends_eq e e')) [
    | inl q ↦ rw q refl
    | inr q ↦ rw q refl
  ]
  find-erase_at e' e ((key, old) ∷ states) = elim (Bool-cases (two_ends_eq key e)) [
    | inl q ↦ rw q (find-erase_at e' e states ∙ past q)
    | inr q ↦ elim (Bool-cases (two_ends_eq key e')) [
      | inl p ↦ rw (q, p) (rw (different_key e e' key q p) refl)
      | inr p ↦ rw (q, p) (find-erase_at e' e states)
    ]
  ]
    where
      past :
          two_ends_eq key e ≡ true
          → (if two_ends_eq e e' then none else find e' states) ≡ (
              if two_ends_eq e e'
              then none
              else (if two_ends_eq key e' then some old else find e' states))
      past q = elim (Bool-cases (two_ends_eq e e')) [
        | inl p ↦ rw p refl
        | inr p ↦ rw p (rw (same_key e e' key q ∙ p) refl)
      ]
