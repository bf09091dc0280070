-- ===== src/Tests/Opening.antt =====
-- The client's SYN, sent and received; connections in the manager's table.
use mstack_cpp.Base.{
  ℕ, ◌+◌, ◌≡◌, refl, List, [], ◌∷◌, ◌++◌, arith, length, length-append, true, none, some, ok, fault,
  assertion,
}
use mstack_cpp.Endpoint.{TcpPacket}
use mstack_cpp.TcpHeader.{TcpHeader, produce}
use mstack_cpp.TcpHeader.Roundtrip.{length-produce}
use mstack_cpp.Skbuff.{store_head}
use mstack_cpp.Skbuff.Laws.{IsValid, length-fresh, store_head-IsValid}
use mstack_cpp.Options.Roundtrip.{written, kept, length-written, decode_options-written}
use mstack_cpp.Ring.Bounded.{BoundedList, bounded_list}
use mstack_cpp.Tcb.{syn_sent, established, Tcb, connecting, listen}
use mstack_cpp.Tcb.Output.Packet.{Fields, blank, payload_filled}
use mstack_cpp.Tcb.Handshake.{start_connecting}
use mstack_cpp.Tcb.Handshake.Opening.{IsSyn}
use mstack_cpp.Tcb.Handshake.Active.{syn_options, syn_of, syn_packet}
use mstack_cpp.Tcb.Segment
use mstack_cpp.Tcb.Segment.{parse}
use mstack_cpp.Tcb.Segment.Parse.{parse-produce}
use mstack_cpp.Tcb.Segment.Opens.{Opened, process-listen}
use mstack_cpp.Tcb.Segment.Connects.{Connects, syn-readable, start_connecting-Connects}
use mstack_cpp.Manager.{Manager, Indeterminate, find, first_match, process, async_connect}
use mstack_cpp.Manager.Demux.{Handled, ends, accepted_block, process-known, process-opens}
use mstack_cpp.Manager.Connect.{
  local_ends, connecting_block, async_connect-free, async_connect-taken,
}
use mstack_cpp.Tests.Data.{
  env, client_ep, server_ep, ring, block, block-Fields, header, header-Fits,
}

abbrev pub client : Tcb BoundedList
client = record (block connecting connecting none (ring [] 0xfaf0) []) {
  remote_ep = server_ep;
  local_ep = client_ep;
}

pub client-Fields : Fields client
client-Fields = record {
  local_port = omega arith;
  remote_port = omega arith;
  seq_nr_unack = omega arith;
  seq_nr_next = omega arith;
  next = omega arith;
  window = omega arith;
}

start_connecting-Connects_example :
    (t' : Tcb BoundedList) × (start_connecting env client ≡ ok t') × Connects env client t'
start_connecting-Connects_example = start_connecting-Connects env client client-Fields (omega arith)

-- The SYN as it arrives: the endpoints are those that the server sees.
abbrev pub bytes : List ℕ
bytes = written syn_options

abbrev pub syn : TcpPacket
syn = record (syn_packet env client bytes) { remote_ep = client_ep; local_ep = server_ep }

pub syn-parsed : parse syn ≡ ok (syn_of env client, bytes, [])
syn-parsed =
    unfold parse in
    syn-readable env client bytes (length-written syn_options (omega arith, tt)) client-Fields
      (omega arith)

pub syn_of-IsSyn : IsSyn (syn_of env client)
syn_of-IsSyn = record { syn = refl; ack = refl; rst = refl }

abbrev pub server : Tcb BoundedList
server = block listen listen none (ring [] 0xfaf0) []

-- The server's block and its answer.
pub answered :
    (t' : Tcb BoundedList) × (Segment.process bounded_list env syn server ≡ ok t')
    × Opened bounded_list env (syn_of env client) server t'
answered =
    process-listen bounded_list env syn (syn_of env client) bytes [] (kept syn_options) server
      syn-parsed (decode_options-written syn_options (omega arith, tt)) refl syn_of-IsSyn
      (block-Fields listen listen none (ring [] 0xfaf0) []) (omega arith)

abbrev junk : Indeterminate BoundedList
junk = record { send = server.send; rcv_next = 0; rcv_mss = 0; moved_from = none }

server_Fields : Fields (accepted_block bounded_list env junk syn)
server_Fields = record {
  local_port = omega arith;
  remote_port = omega arith;
  seq_nr_unack = omega arith;
  seq_nr_next = omega arith;
  next = omega arith;
  window = omega arith;
}

abbrev accepting : Manager BoundedList
accepting = record {
  rules = record { matcher = λ remote local. true; cb = some 5 } ∷ [];
  tcbs = [];
  packet_queue = [];
}

process-opens_example :
    (t : Tcb BoundedList) × (m' : Manager BoundedList) × (process bounded_list env junk syn
        accepting
      ≡ ok m')
    × Handled (ends syn) (some 5) t accepting m'
    × Opened bounded_list env (syn_of env client) (accepted_block bounded_list env junk syn) t
process-opens_example =
    process-opens bounded_list env junk syn accepting 5 (syn_of env client) bytes []
      (kept syn_options) (unfold find in refl) (unfold first_match in refl) syn-parsed
      (decode_options-written syn_options (omega arith, tt)) syn_of-IsSyn server_Fields
      (omega arith)

abbrev known : Manager BoundedList
known = record {
  rules = [];
  tcbs = (ends syn, record { tcb = server; on_connection_established = some 5 }) ∷ [];
  packet_queue = [];
}

process-known_example :
    (m' : Manager BoundedList) × (process bounded_list env junk syn known ≡ ok m')
    × Handled (ends syn) (some 5) answered.0 known m'
process-known_example =
    process-known bounded_list env junk syn known
      (record { tcb = server; on_connection_established = some 5 }) answered.0 (unfold find in refl)
      answered.1

-- Port 4000 is taken; 4001 is free.
abbrev dialing : Manager BoundedList
dialing = record {
  rules = [];
  tcbs =
      (
        local_ends server_ep 0x0a000001 4000,
        record { tcb = client; on_connection_established = some 1 },
      )
      ∷ [];
  packet_queue = [];
}

dialed_Fields : Fields (connecting_block bounded_list env junk server_ep 0x0a000001 4001)
dialed_Fields = record {
  local_port = omega arith;
  remote_port = omega arith;
  seq_nr_unack = omega arith;
  seq_nr_next = omega arith;
  next = omega arith;
  window = omega arith;
}

abbrev dialed : Tcb BoundedList
dialed =
    (start_connecting-Connects env
      (connecting_block bounded_list env junk server_ep 0x0a000001 4001) dialed_Fields
      (omega arith)).0

async_connect-free_example :
    (m' : Manager BoundedList) × (async_connect bounded_list env junk
        (4001 ∷ [])
        server_ep
        0x0a000001
        (some 2)
        dialing
      ≡ ok m')
    × Handled (local_ends server_ep 0x0a000001 4001) (some 2) dialed dialing m'
async_connect-free_example =
    async_connect-free bounded_list env junk 4001 [] server_ep 0x0a000001 2 dialing dialed
      (unfold find in refl)
      (start_connecting-Connects env
        (connecting_block bounded_list env junk server_ep 0x0a000001 4001) dialed_Fields
        (omega arith)).1

async_connect-taken_example :
    async_connect bounded_list env junk (4000 ∷ 4001 ∷ []) server_ep 0x0a000001 (some 2) dialing
    ≡ fault assertion
async_connect-taken_example =
    async_connect-taken bounded_list env junk 4000 4001 [] server_ep 0x0a000001 2 dialing
      (record { tcb = client; on_connection_established = some 1 }) (unfold find in refl) refl

-- A segment with the text 7, 8 and no options.
abbrev segment : List ℕ
segment = produce (header 5001 1003 1 0) ++ ([] ++ 7 ∷ 8 ∷ [])

abbrev text_packet : TcpPacket
text_packet = record syn { skb = store_head segment (blank env (34 + 22)) }

segment_size : length segment ≡ 22
segment_size = omega (
  arith,
  length-append (produce (header 5001 1003 1 0)) (7 ∷ 8 ∷ []),
  length-produce (header 5001 1003 1 0),
)

blank-IsValid : IsValid (blank env (34 + 22))
blank-IsValid = record {
  sized = length-fresh env.junk 56;
  ordered = omega arith;
  inside = omega arith;
}

parse-produce_example : parse text_packet ≡ ok (header 5001 1003 1 0, [], 7 ∷ 8 ∷ [])
parse-produce_example =
    parse-produce text_packet (header 5001 1003 1 0) [] (7 ∷ 8 ∷ [])
      (store_head-IsValid segment (blank env 56) blank-IsValid (omega (arith, segment_size)))
      (payload_filled env segment 56 (omega (arith, segment_size))) header-Fits refl refl

-- A SYN-ACK of the client's SYN, without options.
abbrev syn_ack : TcpHeader
syn_ack = record (header 9000 1003 1 0) { syn = 1 }

abbrev syn_ack_packet : TcpPacket
syn_ack_packet = record syn { skb = store_head (produce syn_ack ++ ([] ++ [])) (blank env 54) }

abbrev waiting : Tcb BoundedList
waiting = block syn_sent established none (ring [] 0xfaf0) []
