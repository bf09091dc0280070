-- ===== src/Manager/Table.antt =====
-- The table of connections as a map: what each operation leaves at each key.
use mstack_cpp.Base.{
  ◌≡◌, refl, ◌∙◌, ap, inl, inr, [], ◌∷◌, ◌++◌, Bool-cases, true, false, arith, if◌then◌else◌, none,
  some,
}
use mstack_cpp.Endpoint.{TwoEnds, two_ends_eq, two_ends_eq_iff}
use mstack_cpp.Tcb.{Tcb}
use mstack_cpp.Manager.{Connection, Connections, find, update}

pub two_ends_eq_refl : (e : TwoEnds) → two_ends_eq e e ≡ true
two_ends_eq_refl e = (two_ends_eq_iff e e).1 refl

other_key :
    (key e e' : TwoEnds)
    → two_ends_eq key e ≡ true
    → two_ends_eq e e' ≡ false
    → two_ends_eq key e' ≡ false
other_key key e e' q h = ap (λ k. two_ends_eq k e') ((two_ends_eq_iff key e).0 q) ∙ h

module _ {Ring : Type 0} where
  pub find-append_here :
      (e : TwoEnds) (conn : Connection Ring) (tcbs : Connections Ring)
      → find e tcbs ≡ none
      → find e (tcbs ++ (e, conn) ∷ []) ≡ some conn
  unfolding find
  find-append_here e conn [] h = rw (two_ends_eq_refl e) refl
  find-append_here e conn ((key, old) ∷ tcbs) h = elim (Bool-cases (two_ends_eq key e)) [
    | inl q ↦ ground (arith, rw q at h)
    | inr q ↦ rw q (find-append_here e conn tcbs (rw q at h))
  ]

  pub find-append_other :
      (e e' : TwoEnds) (conn : Connection Ring) (tcbs : Connections Ring)
      → two_ends_eq e e' ≡ false
      → find e' (tcbs ++ (e, conn) ∷ []) ≡ find e' tcbs
  unfolding find
  find-append_other e e' conn [] h = rw h refl
  find-append_other e e' conn ((key, old) ∷ tcbs) h = elim (Bool-cases (two_ends_eq key e')) [
    | inl q ↦ rw q refl
    | inr q ↦ rw q (find-append_other e e' conn tcbs h)
  ]

  pub find-update_here :
      (e : TwoEnds) (t : Tcb Ring) (conn : Connection Ring) (tcbs : Connections Ring)
      → find e tcbs ≡ some conn
      → find e (update e t tcbs) ≡ some (record conn { tcb = t })
  unfolding find update
  find-update_here e t conn [] h = ground arith
  find-update_here e t conn ((key, old) ∷ tcbs) h = elim (Bool-cases (two_ends_eq key e)) [
    | inl q ↦ rw q (ground (arith, rw q at h))
    | inr q ↦ rw (q, q) (find-update_here e t conn tcbs (rw q at h))
  ]

  pub find-update_other :
      (e e' : TwoEnds) (t : Tcb Ring) (tcbs : Connections Ring)
      → two_ends_eq e e' ≡ false
      → find e' (update e t tcbs) ≡ find e' tcbs
  unfolding find update
  find-update_other e e' t [] h = refl
  find-update_other e e' t ((key, old) ∷ tcbs) h = elim (Bool-cases (two_ends_eq key e)) [
    | inl q ↦ rw (q, other_key key e e' q h) refl
    | inr q ↦
        rw q
          (ap (λ r. if two_ends_eq key e' then some old else r) (find-update_other e e' t tcbs h))
  ]
