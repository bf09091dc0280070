-- ===== src/Tcb/Segment/States.antt =====
-- What a segment does to the states.
use mstack_cpp.Base.{
  ℕ, ◌+◌, ◌≤◌, ◌≡◌, refl, inl, inr, List, Bool, true, false, not, ◌&&◌, leb, ltb, arith, Bool-cases,
  u16, u32, length, Result, ok, Holds, Holds->>=, Holds-map, Holds-after, Holds-if, if◌then◌else◌,
}
use mstack_cpp.Endpoint.{TcpPacket}
use mstack_cpp.Ring.{CircularBuffer}
use mstack_cpp.TcpHeader.{TcpHeader, is_set}
use mstack_cpp.Tcb.{
  Tcb, TcpState, closed, listen, syn_sent, syn_received, established, fin_wait_1, fin_wait_2,
  close_wait, closing, last_ack, time_wait, state_code, state_eq, Env, deref,
}
use mstack_cpp.Tcb.Phase.{phase, Advances, Stays, Sends, Stays-Advances, Advances-trans}
use mstack_cpp.Tcb.Output.{make_and_send_pkt}
use mstack_cpp.Tcb.Output.States.{make_and_send_pkt-Sends, make_and_send_pkt-Advances}
use mstack_cpp.Tcb.Input.{text_stage}
use mstack_cpp.Tcb.Input.States.{text_stage-Stays}
use mstack_cpp.Tcb.Handshake.States.{close-Advances, listen-Advances, syn_sent-Advances}
use mstack_cpp.Tcb.Segment.{
  is_synchronized, tcp_check_segment, clamp, take_ack, ack_syn_received, ack_established,
  ack_switch, ack_stage, fin_case_established, fin_switch, fin_stage, unless_done,
  process_synchronized, process_segment, parse, process,
}

state_eq-eq : (a b : TcpState) → state_eq a b ≡ true → a ≡ b
state_eq-eq a b h = ground arith

-- What an acknowledgement makes the next state is one that may stand with the state.
ack_next-phase :
    (s n : TcpState)
    → phase s n ≡ true
    → phase s
        (if state_eq s closing then time_wait else if state_eq s fin_wait_1 then fin_wait_2 else n)
      ≡ true
ack_next-phase s n h = ground arith

ack_syn_received-Advances :
    {Ring : Type 0} (tcph : TcpHeader) (t : Tcb Ring)
    → phase t.state t.next_state ≡ true
    → t.state ≡ syn_received
    → Advances t (ack_syn_received tcph t).0
unfolding ack_syn_received
ack_syn_received-Advances tcph t h s =
    elim (Bool-cases (leb t.send.seq_nr_unack tcph.ack_no && leb tcph.ack_no t.send.seq_nr_next)) [
      | inl e ↦ rw e (rw s (refl, omega arith))
      | inr e ↦ rw e (Stays-Advances t t h (refl, refl))
    ]

module _ {Ring : Type 0} (C : CircularBuffer Ring) (env : Env) where
  unless_done-Advances :
      (t : Tcb Ring) (m : Result (Tcb Ring × Bool)) (rest : Tcb Ring → Result (Tcb Ring))
      → Holds (λ p. Advances t p.0) m
      → ((u : Tcb Ring) → Advances t u → Holds (Advances t) (rest u))
      → Holds (Advances t) (unless_done m rest)
  unless_done-Advances t m rest h k =
      Holds->>= (λ p. Advances t p.0) (Advances t) m _ h
        λ (u, done) a. Holds-if (Advances t) done (ok u) (rest u) a (k u a)

  ack_established-Advances :
      (tcph : TcpHeader) (t : Tcb Ring)
      → phase t.state t.next_state ≡ true
      → Holds (λ p. Advances t p.0) (ack_established C env tcph t)
  ack_established-Advances tcph t h =
      let P : Tcb Ring × Bool → Type 0 = λ p. Advances t p.0 in
      let kept : Holds (Stays t) (take_ack C tcph t) =
        unfold take_ack in
        Holds-after (Stays t) (deref t.send.pq) _ λ pq.
          Holds-after (Stays t) (clamp tcph.ack_no t.send.seq_nr_unack t.send.seq_nr_next) _
            λ n. (refl, refl) in
      unfold ack_established in
      Holds->>= (Stays t) P (take_ack C tcph t) _ kept λ u s.
        let a = Stays-Advances t u h s in
        Holds-if P (ltb u.send.seq_nr_next tcph.ack_no) _ _
          (Holds->>= (Advances u) P (make_and_send_pkt C env u) _
            (make_and_send_pkt-Advances C env u a.0) λ v b. Advances-trans t u v a b)
          (ack_next-phase u.state u.next_state a.0, a.1)

  ack_switch-Advances :
      (s : TcpState) (tcph : TcpHeader) (t : Tcb Ring)
      → phase t.state t.next_state ≡ true
      → t.state ≡ s
      → Holds (λ p. Advances t p.0) (ack_switch C s env tcph t)
  unfolding ack_switch
  ack_switch-Advances syn_received tcph t h s = ack_syn_received-Advances tcph t h s
  ack_switch-Advances established tcph t h s = ack_established-Advances tcph t h
  ack_switch-Advances fin_wait_1 tcph t h s = ack_established-Advances tcph t h
  ack_switch-Advances fin_wait_2 tcph t h s = ack_established-Advances tcph t h
  ack_switch-Advances close_wait tcph t h s = ack_established-Advances tcph t h
  ack_switch-Advances closing tcph t h s = ack_established-Advances tcph t h
  ack_switch-Advances last_ack tcph t h s = absurd (ground arith)
  ack_switch-Advances time_wait tcph t h s =
      Holds->>= (Advances t) (λ p. Advances t p.0) (make_and_send_pkt C env t) _
        (make_and_send_pkt-Advances C env t h) (λ u a. a)
  ack_switch-Advances _ tcph t h s = Stays-Advances t t h (refl, refl)

  ack_stage-Advances :
      (tcph : TcpHeader) (t : Tcb Ring)
      → phase t.state t.next_state ≡ true
      → Holds (λ p. Advances t p.0) (ack_stage C env tcph t)
  ack_stage-Advances tcph t h =
      unfold ack_stage in
      Holds-if (λ p. Advances t p.0) (is_set tcph.ack) _ _
        (ack_switch-Advances t.state tcph t h refl) (Stays-Advances t t h (refl, refl))

  fin_case-Advances :
      (t : Tcb Ring) → state_code t.state ≤ 5 → Holds (Advances t) (fin_case_established C env t)
  unfolding fin_case_established
  fin_case-Advances t early =
      let u : Tcb Ring = record t {
        rcv = record (t.rcv) { next = u32 (t.rcv.next + 1) };
        next_state = close_wait;
      } in
      Holds->>= (Sends u) (Advances t) (make_and_send_pkt C env u) _
        (make_and_send_pkt-Sends C env u) λ v (s, n). rw s (refl, omega arith)

  fin_switch-Advances :
      (s : TcpState) (t : Tcb Ring)
      → phase t.state t.next_state ≡ true
      → t.state ≡ s
      → Holds (Advances t) (fin_switch C s env t)
  unfolding fin_switch
  fin_switch-Advances syn_received t h s = fin_case-Advances t (rw s (omega arith))
  fin_switch-Advances established t h s = fin_case-Advances t (rw s (omega arith))
  fin_switch-Advances fin_wait_1 t h s = absurd (ground arith)
  fin_switch-Advances fin_wait_2 t h s = absurd (ground arith)
  fin_switch-Advances _ t h s = Stays-Advances t t h (refl, refl)

  fin_stage-Advances :
      (tcph : TcpHeader) (t : Tcb Ring)
      → phase t.state t.next_state ≡ true
      → Holds (Advances t) (fin_stage C env tcph t)
  fin_stage-Advances tcph t h =
      unfold fin_stage in
      Holds-if (Advances t) (is_set tcph.fin) _ _ (fin_switch-Advances t.state t h refl)
        (Stays-Advances t t h (refl, refl))

  synchronized-Advances :
      (tcph : TcpHeader) (segment : List ℕ) (t : Tcb Ring)
      → phase t.state t.next_state ≡ true
      → Holds (Advances t) (process_synchronized C env tcph segment t)
  synchronized-Advances tcph segment t h =
      let same = Stays-Advances t t h (refl, refl) in
      unfold process_synchronized in
      Holds-if (Advances t) (not (tcp_check_segment tcph (u16 (length segment)) t)) _ _ same (
        Holds-if (Advances t) (is_set tcph.rst && is_synchronized t.state) _ _ same (
          Holds-if (Advances t) (is_set tcph.syn && is_synchronized t.state) _ _ same (
            unless_done-Advances t (ack_stage C env tcph t) _ (ack_stage-Advances tcph t h) λ u a.
              Holds->>= (Stays u) (Advances t) (text_stage C tcph segment u) _
                (text_stage-Stays C tcph segment u)
                λ v s.
                  let b = Advances-trans t u v a (Stays-Advances u v a.0 s) in
                  Holds-map (Advances v) (Advances t) (fin_stage C env tcph v)
                    (fin_stage-Advances tcph v b.0) λ w c. Advances-trans t v w b c)))

  -- The three steps that open a connection are taken where the state calls for them.
  opening-Advances :
      (s : TcpState) (t : Tcb Ring) (m : Result (Tcb Ring × Bool))
      → phase t.state t.next_state ≡ true
      → (t.state ≡ s → Holds (λ p. Advances t p.0) m)
      → Holds (λ p. Advances t p.0) (if state_eq t.state s then m else ok (t, false))
  opening-Advances s t m h k = elim (Bool-cases (state_eq t.state s)) [
    | inl e ↦ rw e (k (state_eq-eq t.state s e))
    | inr e ↦ rw e (Stays-Advances t t h (refl, refl))
  ]

  process_segment-Advances :
      (tcph : TcpHeader) (opts segment : List ℕ) (t : Tcb Ring)
      → phase t.state t.next_state ≡ true
      → Holds (Advances t) (process_segment C env tcph opts segment t)
  process_segment-Advances tcph opts segment t h =
      unfold process_segment in
      unless_done-Advances t _ _ (opening-Advances closed t _ h λ _. close-Advances tcph t h) λ u a.
        Holds-map (Advances u) (Advances t) _
          (unless_done-Advances u _ _
            (opening-Advances listen u _ a.0 λ l. listen-Advances C env tcph opts u a.0 l)
            λ v b.
              Holds-map (Advances v) (Advances u) _
                (unless_done-Advances v _ _
                  (opening-Advances syn_sent v _ b.0 λ l. syn_sent-Advances C env tcph opts v b.0 l)
                  λ w c.
                    Holds-map (Advances w) (Advances v) _ (synchronized-Advances tcph segment w c.0)
                      λ x d. Advances-trans v w x c d)
                λ x d. Advances-trans u v x b d)
          λ x d. Advances-trans t u x a d

  pub process-Advances :
      (pkt_in : TcpPacket) (t : Tcb Ring)
      → phase t.state t.next_state ≡ true
      → Holds (Advances t) (process C env pkt_in t)
  process-Advances pkt_in t h =
      unfold process in
      Holds-after (Advances t) (parse pkt_in) _
        λ (tcph, opts, segment). process_segment-Advances tcph opts segment t h
