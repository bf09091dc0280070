-- ===== src/Tcb/Phase.antt =====
-- The states that a block of mstack/mstack/tcb.cpp is found in between two calls.
use native.Mathlib.Nat.{le_refl}
use mstack_cpp.Base.{◌≤◌, ◌≡◌, Bool, true, false, arith}
use mstack_cpp.Tcb.{
  Tcb, TcpState, connecting, listen, syn_sent, syn_received, established, close_wait, time_wait,
  state_code,
}

-- The pairs of `state_` and `next_state_`.
abbrev pub phase : TcpState → TcpState → Bool
phase connecting connecting = true
phase listen listen = true
phase syn_sent established = true
phase syn_received syn_received = true
phase established established = true
phase close_wait time_wait = true
phase time_wait time_wait = true
phase _ _ = false

-- From `t` to `u`: the pair of `u` is one of those, and its state is no earlier one.
abbrev pub Advances : {Ring : Type 0} → Tcb Ring → Tcb Ring → Type 0
Advances t u = (phase u.state u.next_state ≡ true) × (state_code t.state ≤ state_code u.state)

-- `u` has the states of `t`.
abbrev pub Stays : {Ring : Type 0} → Tcb Ring → Tcb Ring → Type 0
Stays t u = (u.state ≡ t.state) × (u.next_state ≡ t.next_state)

-- A packet was sent from `t`.
abbrev pub Sends : {Ring : Type 0} → Tcb Ring → Tcb Ring → Type 0
Sends t u = (u.state ≡ t.next_state) × (u.next_state ≡ t.next_state)

-- The next state comes no earlier, and may stand as both.
pub phase-next :
    (s n : TcpState) → phase s n ≡ true → (phase n n ≡ true) × (state_code s ≤ state_code n)
phase-next s n h = ground arith

-- So sending a packet advances, and so does what changes no state.
pub Sends-Advances :
    {Ring : Type 0} (t u : Tcb Ring) → phase t.state t.next_state ≡ true → Sends t u → Advances t u
Sends-Advances t u h (s, n) = rw (s, n) (phase-next t.state t.next_state h)

pub Stays-Advances :
    {Ring : Type 0} (t u : Tcb Ring) → phase t.state t.next_state ≡ true → Stays t u → Advances t u
Stays-Advances t u h (s, n) = rw (s, n) (h, le_refl (state_code t.state))

pub Advances-trans : {Ring : Type 0} (t u v : Tcb Ring) → Advances t u → Advances u v → Advances t v
Advances-trans t u v h k = (k.0, omega (arith, h.1, k.1))
