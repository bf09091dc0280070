-- ===== src/Tests/Data.antt =====
-- A client and a server, and the packets between them.
use mstack_cpp.Base.{ℕ, List, [], arith, Option}
use mstack_cpp.Endpoint.{Endpoint}
use mstack_cpp.TcpHeader.{TcpHeader}
use mstack_cpp.TcpHeader.Roundtrip.{Fits}
use mstack_cpp.Ring.Bounded.{BoundedList}
use mstack_cpp.Tcb.{Tcb, TcpState, Reader, Env}
use mstack_cpp.Tcb.Output.Packet.{Fields}

abbrev pub env : Env
env = record { isn = 1000; junk = λ i. 0 }

abbrev pub client_ep : Endpoint
client_ep = record { addrv4 = 0x0a000001; addrv4_port = 4000 }

abbrev pub server_ep : Endpoint
server_ep = record { addrv4 = 0x0a000002; addrv4_port = 80 }

abbrev pub ring : List ℕ → ℕ → BoundedList
ring items capacity = record { items = items; capacity = capacity }

-- A block of the server, with what it has to send, what it has received and who reads.
abbrev pub block :
    TcpState → TcpState → Option BoundedList → BoundedList → List Reader → Tcb BoundedList
block state next_state sending received readers = record {
  remote_ep = client_ep;
  local_ep = server_ep;
  state = state;
  next_state = next_state;
  on_data_receive = readers;
  send = record { seq_nr_unack = 1001; seq_nr_next = 1003; window = 500; mss = 2; pq = sending };
  rcv = record { next = 5001; window = 0xfaf0; mss = 0; pq = received };
  out = [];
  posted = [];
}

pub block-Fields :
    (state next_state : TcpState) (sending : Option BoundedList) (received : BoundedList)
    (readers : List Reader)
    → Fields (block state next_state sending received readers)
block-Fields state next_state sending received readers = record {
  local_port = omega arith;
  remote_port = omega arith;
  seq_nr_unack = omega arith;
  seq_nr_next = omega arith;
  next = omega arith;
  window = omega arith;
}

-- A header from the client.
abbrev pub header : ℕ → ℕ → ℕ → ℕ → TcpHeader
header seq_no ack_no ack fin = record {
  src_port = 4000;
  dst_port = 80;
  seq_no = seq_no;
  ack_no = ack_no;
  data_offset = 5;
  reserved = 0;
  cwr = 0;
  ece = 0;
  urg = 0;
  ack = ack;
  psh = 0;
  rst = 0;
  syn = 0;
  fin = fin;
  window = 500;
  chsum = 0xabcd;
  urgent_pointer = 0;
}

pub header-Fits : Fits (header 5001 1003 1 0)
header-Fits = record {
  src_port = omega arith;
  dst_port = omega arith;
  seq_no = omega arith;
  ack_no = omega arith;
  data_offset = omega arith;
  cwr = omega arith;
  ece = omega arith;
  urg = omega arith;
  ack = omega arith;
  psh = omega arith;
  rst = omega arith;
  syn = omega arith;
  fin = omega arith;
  window = omega arith;
  chsum = omega arith;
  urgent_pointer = omega arith;
}
