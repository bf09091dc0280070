-- ===== src/Tests/Receiving.antt =====
-- Text in a block that waits, and in one that is full.
use mstack_cpp.Base.{
  ℕ, ◌+◌, ◌-◌, ◌≤◌, ◌≡◌, ◌↔◌, ◌⊎◌, refl, inr, List, [], ◌∷◌, ◌++◌, ◌<◌, arith, true, false, some,
  ok, fault, assertion,
}
use mstack_cpp.TcpHeader.{TcpHeader}
use mstack_cpp.Ring.Bounded.{BoundedList, bounded_list}
use mstack_cpp.Tcb.{Tcb, Reader, established}
use mstack_cpp.Tcb.Input.{receive_text}
use mstack_cpp.Tcb.Input.Stream.{Takes, receive_text-Takes}
use mstack_cpp.Tcb.Input.Overrun.{texts, receive_all, receive_all-overflow}
use mstack_cpp.Tcb.Segment.{acceptable}
use mstack_cpp.Tcb.Segment.Window.{InWindow, acceptable_rows}
use mstack_cpp.Tests.Data.{ring, block, header}

abbrev receiver : List Reader → List ℕ → ℕ → Tcb BoundedList
receiver readers received capacity =
    block established established (some (ring [] 500)) (ring received capacity) readers

abbrev reader : Reader
reader = record { room = 2; cb = 7 }

receive_text-Takes_example :
    (t' : Tcb BoundedList) × (receive_text bounded_list
        (header 5001 1003 1 0)
        (1 ∷ 2 ∷ 3 ∷ [])
        (receiver (reader ∷ []) [] 10)
      ≡ ok t')
    × Takes bounded_list (1 ∷ 2 ∷ 3 ∷ []) (receiver (reader ∷ []) [] 10) t'
receive_text-Takes_example =
    receive_text-Takes bounded_list (header 5001 1003 1 0) (1 ∷ 2 ∷ 3 ∷ [])
      (receiver (reader ∷ []) [] 10) (inr refl) (omega arith) (omega arith)

-- Two segments, the second of which is longer than the room that the first leaves.
abbrev too_much : List (TcpHeader × List ℕ)
too_much = (header 5003 1003 1 0, 3 ∷ []) ∷ (header 5004 1003 1 0, 4 ∷ 5 ∷ []) ∷ []

receive_all-overflow_example :
    ((2 + 3 ≤ 4)
      × (t' : Tcb BoundedList) × (receive_all bounded_list too_much (receiver [] (1 ∷ 2 ∷ []) 4)
          ≡ ok t')
      × (t'.rcv.pq.items ≡ (1 ∷ 2 ∷ []) ++ texts too_much))
    ⊎ ((4 < 2 + 3)
        × (receive_all bounded_list too_much (receiver [] (1 ∷ 2 ∷ []) 4) ≡ fault assertion))
receive_all-overflow_example =
    receive_all-overflow bounded_list too_much (receiver [] (1 ∷ 2 ∷ []) 4) refl (omega arith)
      (omega arith, (omega arith, tt))

acceptable_rows_example :
    ((acceptable 5001 0 5000 0 ≡ true) ↔ (◌≡◌ {A = ℕ} 5000 5001))
    × ((acceptable 5001 100 5000 0 ≡ true) ↔ InWindow 5001 100 5000)
    × (acceptable 5001 0 5000 7 ≡ false)
    × ((acceptable 5001 100 5000 7 ≡ true) ↔ ((5001 ≤ 5000) ⊎ InWindow 5001 100 (5000 + 7 - 1)))
acceptable_rows_example =
    acceptable_rows 5001 100 5000 7 (omega arith) (omega arith) (omega arith) (omega arith)
