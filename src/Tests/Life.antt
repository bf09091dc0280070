-- ===== src/Tests/Life.antt =====
-- A block over a packet and a read.
use mstack_cpp.Base.{refl}
use mstack_cpp.Ring.Bounded.{BoundedList, bounded_list}
use mstack_cpp.Tcb.{Tcb}
use mstack_cpp.Tcb.Phase.{Advances}
use mstack_cpp.Tcb.Input.{async_read_some}
use mstack_cpp.Tcb.History.{processes, reads, here, next, step, Reach, Reach-Advances}
use mstack_cpp.Tests.Data.{env}
use mstack_cpp.Tests.Opening.{server, syn, answered}

-- A SYN arrives at the server's block, and the application asks for text.
abbrev life : Tcb BoundedList
life = async_read_some bounded_list 1 3 answered.0

lived : Reach bounded_list server life
unfolding step
lived = next (reads 1 3) (next (processes env syn) here answered.1) refl

Reach-Advances_example : Advances server life
Reach-Advances_example = Reach-Advances bounded_list refl lived
