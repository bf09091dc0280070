-- ===== src/Tcb/History.antt =====
-- A block over its life: the calls that other parts of the stack make of it, in any order.
use native.Mathlib.Nat.{le_refl}
use mathlib.Core.Path.{subst}
use mstack_cpp.Base.{ℕ, ◌≡◌, List, true, Result, ok, Holds, Holds-map}
use mstack_cpp.Endpoint.{TcpPacket}
use mstack_cpp.Ring.{CircularBuffer}
use mstack_cpp.Tcb.{Tcb, Env, Task}
use mstack_cpp.Tcb.Phase.{phase, Advances, Stays, Stays-Advances, Advances-trans}
use mstack_cpp.Tcb.Output.{async_write, run_task}
use mstack_cpp.Tcb.Output.States.{async_write-Stays, run_task-Advances}
use mstack_cpp.Tcb.Input.{async_read_some}
use mstack_cpp.Tcb.Input.States.{async_read_some-Stays}
use mstack_cpp.Tcb.Segment.{process}
use mstack_cpp.Tcb.Segment.States.{process-Advances}

-- A packet that the manager hands over, a read, a write, and a posted task that is run.
pub data Call : Type 0 where
  processes : Env → TcpPacket → Call
  reads : ℕ → ℕ → Call
  writes : List ℕ → ℕ → Call
  runs : Env → Task → Call

module _ {Ring : Type 0} (C : CircularBuffer Ring) where
  unfoldable pub step : Call → Tcb Ring → Result (Tcb Ring)
  step (processes env pkt) t = process C env pkt t
  step (reads room cb) t = ok (async_read_some C room cb t)
  step (writes buf cb) t = async_write C buf cb t
  step (runs env task) t = run_task C env task t

  -- The blocks that calls lead to, none of which stops at a fault.
  pub data Reach (t : Tcb Ring) : Tcb Ring → Type 0 where
    here : Reach t t
    next : {u v : Tcb Ring} (call : Call) → Reach t u → step call u ≡ ok v → Reach t v

  step-Advances :
      (call : Call) (t : Tcb Ring)
      → phase t.state t.next_state ≡ true
      → Holds (Advances t) (step call t)
  unfolding step
  step-Advances (processes env pkt) t h = process-Advances C env pkt t h
  step-Advances (reads room cb) t h =
      Stays-Advances t (async_read_some C room cb t) h (async_read_some-Stays C room cb t)
  step-Advances (writes buf cb) t h =
      Holds-map (Stays t) (Advances t) (async_write C buf cb t) (async_write-Stays C buf cb t)
        λ u s. Stays-Advances t u h s
  step-Advances (runs env task) t h = run_task-Advances C env task t h

  -- From a block whose states are one of the seven pairs, whatever the calls are: the states are
  -- one of those pairs again, and the state is no earlier one. So FIN-WAIT-1, FIN-WAIT-2,
  -- CLOSING, LAST-ACK and CLOSED never occur, and no connection goes back.
  pub Reach-Advances :
      {t u : Tcb Ring} → phase t.state t.next_state ≡ true → Reach t u → Advances t u
  Reach-Advances h here = (h, le_refl _)
  Reach-Advances {t} h (next {u = w} {v = v} call r e) =
      let a = Reach-Advances h r in
      Advances-trans t w v a (subst (Holds (Advances w)) e (step-Advances call w a.0))
