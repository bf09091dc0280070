-- ===== src/Tcb/Input/Overrun.antt =====
-- Segments that stop the program: the assertions of the text step.
use mathlib.Core.Path.{subst}
use mstack_cpp.Base.{
  sym, ◌++◌, leb, Bool-cases, ◌⊎◌, inl, inr, append-nil, append_assoc, length-append, Result, ℕ,
  ◌+◌, ◌-◌, ◌≤◌, ◌<◌, ◌≡◌, refl, ◌∙◌, ap, List, [], ◌∷◌, arith, ok, fault, ◌>>=◌, assertion, true,
  ltb, length,
}
use mstack_cpp.Ring.{CircularBuffer}
use mstack_cpp.TcpHeader.{TcpHeader}
use mstack_cpp.Tcb.{Tcb}
use mstack_cpp.Tcb.Input.{buffer, deliver_or_buffer, receive_text}
use mstack_cpp.Tcb.Input.Taken.{after_buffer, buffer_lem, items-after_buffer}
use mstack_cpp.Tcb.Input.Stream.{receive_text-enters}

-- The texts of segments, one behind the other.
abbrev pub texts : List (TcpHeader × List ℕ) → List ℕ
texts [] = []
texts ((tcph, segment) ∷ rest) = segment ++ texts rest

-- Every segment begins at or behind `n`, where the text before it ends.
abbrev pub Follows : ℕ → List (TcpHeader × List ℕ) → Type 0
Follows n [] = Unit
Follows n ((tcph, segment) ∷ rest) = (n ≤ tcph.seq_no) × Follows (n + length segment) rest

module _ {Ring : Type 0} (C : CircularBuffer Ring) where
  -- Segments whose text is taken one after the other.
  pub receive_all : List (TcpHeader × List ℕ) → Tcb Ring → Result (Tcb Ring)
  receive_all [] t = ok t
  receive_all ((tcph, segment) ∷ rest) t = do
    t1 ← receive_text C tcph segment t
    receive_all rest t1

  abbrev held : Tcb Ring → ℕ
  held t = length (C.items t.rcv.pq)

  buffered :
      (tcph : TcpHeader) (segment : List ℕ) (t : Tcb Ring)
      → t.on_data_receive ≡ []
      → t.rcv.next + held t ≤ tcph.seq_no
      → receive_text C tcph segment t ≡ buffer C segment t
  buffered tcph segment t none ahead =
      receive_text-enters C tcph segment t ahead
      ∙ ap (λ rs. deliver_or_buffer C rs segment t) none
      ∙ (unfold deliver_or_buffer in refl)

  overflows :
      (segment : List ℕ) (t : Tcb Ring)
      → C.capacity t.rcv.pq < held t + length segment
      → buffer C segment t ≡ fault assertion
  unfolding buffer
  overflows segment t full =
      let e : ltb (C.capacity t.rcv.pq) (held t + length segment) ≡ true = ground arith in rw e

  capacity-after_buffer :
      (segment : List ℕ) (t : Tcb Ring)
      → held t + length segment ≤ C.capacity t.rcv.pq
      → C.capacity (after_buffer C segment t).rcv.pq ≡ C.capacity t.rcv.pq
  capacity-after_buffer segment t fits =
      let pq = C.resize (held t + length segment) t.rcv.pq in
      C.capacity-assign_from (length (C.items pq) - length segment) segment pq
      ∙ C.capacity-resize (held t + length segment) t.rcv.pq fits

  -- With no read pending, segments each of which begins at or behind the end of the text before it
  -- are taken one after the other into a buffer that is within its capacity: just where all their
  -- text fits the room left, every one is taken and the buffer has all of the text behind what it
  -- had; otherwise the assertion on the capacity fails.
  pub receive_all-overflow :
      (segments : List (TcpHeader × List ℕ)) (t : Tcb Ring)
      → t.on_data_receive ≡ []
      → held t ≤ C.capacity t.rcv.pq
      → Follows (t.rcv.next + held t) segments
      → ((held t + length (texts segments) ≤ C.capacity t.rcv.pq)
          × (t' : Tcb Ring) × (receive_all segments t ≡ ok t')
          × (C.items t'.rcv.pq ≡ C.items t.rcv.pq ++ texts segments))
        ⊎ ((C.capacity t.rcv.pq < held t + length (texts segments))
            × (receive_all segments t ≡ fault assertion))
  unfolding receive_all
  receive_all-overflow [] t none within f =
      inl (omega arith, t, refl, sym (append-nil (C.items t.rcv.pq)))
  receive_all-overflow ((tcph, segment) ∷ rest) t none within f =
      let total = length-append segment (texts rest) in
      elim (Bool-cases (leb (held t + length segment) (C.capacity t.rcv.pq))) [
        | inr over_full ↦
            let full : C.capacity t.rcv.pq < held t + length segment = ground (arith, over_full) in
            inr (
              omega (arith, total, full),
              ap (λ r. r >>= receive_all rest)
                  (buffered tcph segment t none f.0 ∙ overflows segment t full),
            )
        | inl le_room ↦
            let fits : held t + length segment ≤ C.capacity t.rcv.pq = ground (arith, le_room) in
            let t1 = after_buffer C segment t in
            let filled = items-after_buffer C segment t fits in
            let grown : held t1 ≡ held t + length segment =
              ap length filled ∙ length-append (C.items t.rcv.pq) segment in
            let same = capacity-after_buffer segment t fits in
            let enters : (receive_text C tcph segment t >>= receive_all rest)
                ≡ receive_all rest t1 =
              ap (λ r. r >>= receive_all rest)
                (buffered tcph segment t none f.0 ∙ buffer_lem C segment t fits) in
            let at_end : t.rcv.next + held t + length segment ≡ t1.rcv.next + held t1 =
              omega (arith, grown) in
            elim (receive_all-overflow rest t1 none (omega (arith, grown, same, fits))
              (subst (λ n. Follows n rest) at_end f.1)) [
                | inl (room, t', e, items) ↦ inl (
                  omega (arith, grown, same, total, room),
                  t',
                  enters ∙ e,
                  items
                      ∙ ap (λ ys. ys ++ texts rest) filled
                      ∙ append_assoc (C.items t.rcv.pq) segment (texts rest),
                )
                | inr (over, e) ↦ inr (omega (arith, grown, same, total, over), enters ∙ e)
              ]
      ]
