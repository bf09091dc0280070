-- ===== src/Tests/Sending.antt =====
-- The posted loop over three bytes of which two were sent.
use mstack_cpp.Base.{◌≡◌, refl, [], ◌∷◌, arith, some, ok}
use mstack_cpp.Ring.Bounded.{BoundedList, bounded_list}
use mstack_cpp.Tcb.{Tcb, established}
use mstack_cpp.Tcb.Output.{run_send_pending}
use mstack_cpp.Tcb.Output.Pending.{IsSent, run_send_pending-IsSent}
use mstack_cpp.Tests.Data.{env, ring, block}

abbrev sending : BoundedList
sending = ring (10 ∷ 20 ∷ 30 ∷ []) 500

abbrev sender : Tcb BoundedList
sender = block established established (some sending) (ring [] 0xfaf0) []

run_send_pending-IsSent_example :
    (t' : Tcb BoundedList) × (run_send_pending bounded_list env sender ≡ ok t')
    × IsSent bounded_list env sender sending t'
run_send_pending-IsSent_example =
    run_send_pending-IsSent bounded_list env sender sending refl (omega arith) (omega arith)
      (omega arith)
