-- ===== src/Tcb/Handshake/States.antt =====
-- What the steps of opening a connection do to the states.
use mstack_cpp.Base.{
  ℕ, ◌≡◌, refl, List, Bool, true, not, ◌&&◌, ltb, arith, assert, Holds, Holds->>=, Holds-map,
  Holds-after, Holds-if,
}
use mstack_cpp.Ring.{CircularBuffer}
use mstack_cpp.TcpHeader.{TcpHeader, is_set}
use mstack_cpp.Options.{TcpOption, decode_options}
use mstack_cpp.Tcb.{Tcb, closed, listen, syn_sent, state_eq, Env}
use mstack_cpp.Tcb.Phase.{phase, Advances, Sends, Stays-Advances}
use mstack_cpp.Tcb.Output.{make_and_send_pkt}
use mstack_cpp.Tcb.Output.States.{make_and_send_pkt-Sends}
use mstack_cpp.Tcb.Handshake.{
  accept_syn, accept_syn_ack, tcp_handle_close_state, tcp_handle_listen_state, tcp_handle_syn_sent,
}

pub close-Advances :
    {Ring : Type 0} (tcph : TcpHeader) (t : Tcb Ring)
    → phase t.state t.next_state ≡ true
    → Holds (λ p. Advances t p.0) (tcp_handle_close_state tcph t)
close-Advances {Ring} tcph t h =
    let P : Tcb Ring × Bool → Type 0 = λ p. Advances t p.0 in
    let same = Stays-Advances t t h (refl, refl) in
    unfold tcp_handle_close_state in
    Holds-after P (assert (state_eq closed t.state)) _ λ u.
      Holds-if P (is_set tcph.rst) _ _ same
        (Holds-if P (not (is_set tcph.ack)) _ _ same (Holds-if P (is_set tcph.ack) _ _ same same))

module _ {Ring : Type 0} (C : CircularBuffer Ring) (env : Env) where
  -- The SYN-ACK is sent from a block whose next state is SYN-RECEIVED.
  syn-Advances :
      (tcph : TcpHeader) (opts : List TcpOption) (t : Tcb Ring)
      → t.state ≡ listen
      → Holds (Advances t) (make_and_send_pkt C env (accept_syn C env tcph opts t))
  unfolding accept_syn
  syn-Advances tcph opts t l =
      Holds-map (Sends (accept_syn C env tcph opts t)) (Advances t) _
        (make_and_send_pkt-Sends C env (accept_syn C env tcph opts t))
        λ v (s, n). rw (s, n, l) (refl, omega arith)

  -- The acknowledgement of a SYN-ACK is sent from a block whose next state is ESTABLISHED.
  syn_ack-Advances :
      (tcph : TcpHeader) (opts : List TcpOption) (t : Tcb Ring)
      → t.state ≡ syn_sent
      → Holds (Advances t) (make_and_send_pkt C env (accept_syn_ack C env tcph opts t))
  unfolding accept_syn_ack
  syn_ack-Advances tcph opts t l =
      Holds-map (Sends (accept_syn_ack C env tcph opts t)) (Advances t) _
        (make_and_send_pkt-Sends C env (accept_syn_ack C env tcph opts t))
        λ v (s, n). rw (s, n, l) (refl, omega arith)

  pub listen-Advances :
      (tcph : TcpHeader) (opts : List ℕ) (t : Tcb Ring)
      → phase t.state t.next_state ≡ true
      → t.state ≡ listen
      → Holds (λ p. Advances t p.0) (tcp_handle_listen_state C env tcph opts t)
  listen-Advances tcph opts t h l =
      let P : Tcb Ring × Bool → Type 0 = λ p. Advances t p.0 in
      let same = Stays-Advances t t h (refl, refl) in
      unfold tcp_handle_listen_state in
      Holds-after P (assert (state_eq listen t.state)) _ λ u.
        Holds-if P (is_set tcph.rst) _ _ same (
          Holds-if P (is_set tcph.ack) _ _ same (
            Holds-if P (is_set tcph.syn) _ _
              (Holds-after P (decode_options opts) _ λ decoded.
                Holds->>= (Advances t) P (make_and_send_pkt C env (accept_syn C env tcph decoded t))
                  _ (syn-Advances tcph decoded t l) (λ v a. a))
              same))

  pub syn_sent-Advances :
      (tcph : TcpHeader) (opts : List ℕ) (t : Tcb Ring)
      → phase t.state t.next_state ≡ true
      → t.state ≡ syn_sent
      → Holds (λ p. Advances t p.0) (tcp_handle_syn_sent C env tcph opts t)
  syn_sent-Advances tcph opts t h l =
      let P : Tcb Ring × Bool → Type 0 = λ p. Advances t p.0 in
      let same = Stays-Advances t t h (refl, refl) in
      unfold tcp_handle_syn_sent in
      Holds-after P (assert (state_eq syn_sent t.state)) _ λ u.
        Holds-if P (is_set tcph.syn && is_set tcph.ack) _ _
          (Holds-if P
            (not (ltb tcph.ack_no t.send.seq_nr_unack) && not (ltb t.send.seq_nr_next tcph.ack_no))
            _ _
            (Holds-after P (decode_options opts) _ λ decoded.
              Holds->>= (Advances t) P
                (make_and_send_pkt C env (accept_syn_ack C env tcph decoded t)) _
                (syn_ack-Advances tcph decoded t l) (λ v a. a))
            same)
          same
