-- ===== src/Tests/Echo.antt =====
-- A connection that the program echoes.
use mstack_cpp.Base.{◌≡◌, refl, List, [], ◌∷◌, arith, some, ok, inr}
use mstack_cpp.Ring.Bounded.{BoundedList, bounded_list}
use mstack_cpp.Tcb.{Tcb, Reader, established, read_done}
use mstack_cpp.Tcb.Input.{receive_text, async_read_some}
use mstack_cpp.Tcb.Input.Taken.{receive_text_lem, text_taken}
use mstack_cpp.Tcb.Output.Writes.{write_queued}
use mstack_cpp.Program.{run_tasks, async_read_and_echo}
use mstack_cpp.Program.Echo.{HasQueue, IsEcho}
use mstack_cpp.Program.Echo.Sends.{packet_sent}
use mstack_cpp.Program.Echo.Life.{
  IsAccepted, EchoLife, accepted, hears, runs_task, EchoLife-IsEcho, unposted,
}
use mstack_cpp.Program.Echo.Round.{IsQuiet, written, run_tasks-echoes}
use mstack_cpp.Tests.Data.{env, block, ring, header}

abbrev connection : Tcb BoundedList
connection = record (block established established (some (ring [] 500)) (ring [] 100) []) {
  send = record {
    seq_nr_unack = 1001;
    seq_nr_next = 1001;
    window = 500;
    mss = 2;
    pq = some (ring [] 500);
  };
}

queue-HasQueue :
    (readers : List Reader)
    → HasQueue bounded_list (record connection { on_data_receive = readers }) (ring [] 500)
queue-HasQueue readers = record {
  queue = refl;
  in_flight = omega arith;
  unack = omega arith;
  small = omega arith;
  capacity = omega arith;
}

connection-IsAccepted : IsAccepted bounded_list env 7 connection
connection-IsAccepted = record {
  pq = ring [] 500;
  has_queue = queue-HasQueue [];
  nothing_to_send = refl;
  nothing_sent = refl;
  nothing_posted = refl;
  nobody_reads = refl;
}

-- The program reads, and three bytes come.
abbrev reading : Tcb BoundedList
reading = record connection { on_data_receive = record { room = 2000; cb = 7 } ∷ [] }

reading-EchoLife : EchoLife bounded_list env 7 [] reading
unfolding async_read_some async_read_and_echo
reading-EchoLife = accepted connection connection-IsAccepted

abbrev heard_three : Tcb BoundedList
heard_three = text_taken bounded_list reading.on_data_receive (1 ∷ 2 ∷ 3 ∷ []) reading

-- They are written.
abbrev echoed : Tcb BoundedList
echoed =
    packet_sent bounded_list env
      (write_queued bounded_list (1 ∷ 2 ∷ 3 ∷ []) 7 (unposted bounded_list env 7 [] heard_three)
        (ring [] 500))
      (ring (1 ∷ 2 ∷ 3 ∷ []) 500)

echoed-EchoLife : EchoLife bounded_list env 7 (1 ∷ 2 ∷ 3 ∷ []) echoed
echoed-EchoLife =
    runs_task (read_done 7 (1 ∷ 2 ∷ 3 ∷ [])) []
      (hears (header 5001 1003 1 0) (1 ∷ 2 ∷ 3 ∷ []) reading-EchoLife (omega arith) (omega arith)
        (receive_text_lem bounded_list (header 5001 1003 1 0) (1 ∷ 2 ∷ 3 ∷ []) reading (inr refl)
          (omega arith) (omega arith)).0)
      refl
      (written bounded_list env 7 (1 ∷ 2 ∷ 3 ∷ []) heard_three (ring [] 500) refl refl
        (omega arith))

EchoLife-IsEcho_example : IsEcho bounded_list (1 ∷ 2 ∷ 3 ∷ []) echoed
EchoLife-IsEcho_example = EchoLife-IsEcho bounded_list env 7 echoed-EchoLife

abbrev reading-IsQuiet : IsQuiet bounded_list env 7 [] reading
reading-IsQuiet = record {
  echo = record {
    pq = ring [] 500;
    has_queue = queue-HasQueue (record { room = 2000; cb = 7 } ∷ []);
    carries = refl;
    one = refl;
    waiting = inr refl;
  };
  reads = refl;
  nothing_posted = refl;
  empty = refl;
  all_sent = refl;
}

run_tasks-echoes_example :
    (t1 t' : Tcb BoundedList) × (receive_text bounded_list
        (header 5001 1003 1 0)
        (1 ∷ 2 ∷ 3 ∷ [])
        reading
      ≡ ok t1)
    × (run_tasks bounded_list env 7 3 t1 ≡ ok t')
    × IsQuiet bounded_list env 7 (1 ∷ 2 ∷ 3 ∷ []) t'
    × (t'.send.mss ≡ 2)
run_tasks-echoes_example =
    run_tasks-echoes bounded_list env 7 [] (header 5001 1003 1 0) (1 ∷ 2 ∷ 3 ∷ []) reading
      reading-IsQuiet (omega arith) (omega arith) (omega arith) (omega arith) (omega arith)
