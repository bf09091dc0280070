-- ===== src/AddrMap/Laws.antt =====
-- What a table holds at each address after an operation.
use mstack_cpp.Base.{
  ℕ, ◌≡◌, refl, ◌∙◌, ap, sym, inl, inr, [], ◌∷◌, ◌++◌, arith, Bool-cases, Option-cases, ==_iff,
  ◌==◌, if◌then◌else◌, Option, none, some,
}
use mstack_cpp.AddrMap.{AddrMap, find, erase, insert, assign}

-- The value that stands, or else the new one.
abbrev pub or_else : {Value : Type 0} → Option Value → Value → Value
or_else none value = value
or_else (some old) value = old

module _ {Value : Type 0} where
  find-append :
      (addr key : ℕ) (value : Value) (table : AddrMap Value)
      → find key table ≡ none
      → find addr (table ++ (key, value) ∷ [])
        ≡ (if key == addr then some value else find addr table)
  unfolding find
  find-append addr key value [] h = refl
  find-append addr key value ((k, old) ∷ table) h = elim (Bool-cases (k == key)) [
    | inl q ↦ ground (arith, rw q at h)
    | inr q ↦ elim (Bool-cases (k == addr)) [
      | inl p ↦ ground arith
      | inr p ↦ rw p (find-append addr key value table (rw q at h))
    ]
  ]

  insert-new :
      (key : ℕ) (value : Value) (table : AddrMap Value)
      → find key table ≡ none
      → insert key value table ≡ table ++ (key, value) ∷ []
  unfolding insert
  insert-new key value table e = rw (insert, e) refl

  insert-old :
      (key : ℕ) (value old : Value) (table : AddrMap Value)
      → find key table ≡ some old
      → insert key value table ≡ table
  unfolding insert
  insert-old key value old table e = rw (insert, e) refl

  found :
      (addr key : ℕ) (old : Value) (table : AddrMap Value)
      → find key table ≡ some old
      → find addr table ≡ (if key == addr then some old else find addr table)
  found addr key old table e = elim (Bool-cases (key == addr)) [
    | inl q ↦ rw q (ap (λ (a : ℕ). find a table) (sym (omega (arith, (==_iff key addr).0 q))) ∙ e)
    | inr q ↦ rw q refl
  ]

  pub find-insert :
      (addr key : ℕ) (value : Value) (table : AddrMap Value)
      → find addr (insert key value table)
        ≡ (if key == addr then some (or_else (find key table) value) else find addr table)
  find-insert addr key value table = elim (Option-cases (find key table)) [
    | inl e ↦
        ap (find addr) (insert-new key value table e)
        ∙ find-append addr key value table e
        ∙ ap (λ o. if key == addr then some (or_else o value) else find addr table) (sym e)
    | inr (old, e) ↦
        ap (find addr) (insert-old key value old table e)
        ∙ found addr key old table e
        ∙ ap (λ o. if key == addr then some (or_else o value) else find addr table) (sym e)
  ]

  pub find-erase :
      (addr key : ℕ) (table : AddrMap Value)
      → find addr (erase key table) ≡ (if key == addr then none else find addr table)
  unfolding find erase
  find-erase addr key [] = elim (Bool-cases (key == addr)) [ inl q ↦ rw q refl | inr q ↦ rw q refl ]
  find-erase addr key ((k, old) ∷ table) = elim (Bool-cases (k == key)) [
    | inl q ↦ elim (Bool-cases (k == addr)) [
      | inl p ↦ rw q (find-erase addr key table ∙ ground arith)
      | inr p ↦ rw (q, p) (find-erase addr key table)
    ]
    | inr q ↦ elim (Bool-cases (k == addr)) [
      | inl p ↦ rw (q, p) (ground arith)
      | inr p ↦ rw (q, p) (find-erase addr key table)
    ]
  ]

  pub find-assign :
      (addr key : ℕ) (value : Value) (table : AddrMap Value)
      → find addr (assign key value table) ≡ (if key == addr then some value else find addr table)
  unfolding find assign
  find-assign addr key value [] = refl
  find-assign addr key value ((k, old) ∷ table) = elim (Bool-cases (k == key)) [
    | inl q ↦ rw q (ground arith)
    | inr q ↦ elim (Bool-cases (k == addr)) [
      | inl p ↦ rw (q, p) (ground arith)
      | inr p ↦ rw (q, p) (find-assign addr key value table)
    ]
  ]
