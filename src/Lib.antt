-- ===== src/Lib.antt =====
-- A model of mstack, a user-space TCP/IP stack in C++, from the frames that a device writes up to
-- the table of TCP connections.
--
-- Parts, files and sources (paths from the repository's root):
-- - Base: lists over the native numbers, words of fixed width, and `Result`: a computation returns
--   or stops at a fault (an assertion that fails, a null pointer, an access outside a span).
-- - Wire: mstack/mstack/utils.hpp, byte order, loads, stores and the checksum.
-- - Skbuff: mstack/mstack/skbuff.hpp, a packet buffer whose pointers are offsets.
-- - Endpoint: mstack/mstack/endpoint.hpp, packets.hpp, tcp_packet.hpp.
-- - TcpHeader: mstack/mstack/tcp_header.hpp.
-- - Ring: what mstack/mstack/tcb.cpp uses of `boost::circular_buffer`, an interface with the
--   behaviour its documentation promises; Ring.Bounded is an instance.
-- - Options: `decode_options` and `encode_options` of mstack/mstack/tcb.cpp.
-- - Tcb: mstack/mstack/tcb.hpp and tcb.cpp, a connection's block. Tcb.Output has the sending
--   methods and the posted tasks, Tcb.Input the reads and the text of a segment, Tcb.Handshake the
--   states CLOSED, LISTEN and SYN-SENT with `start_connecting`, and Tcb.Segment `process`, which
--   calls all of them. Tcb.History has the calls that a block sees over its life.
-- - Manager: mstack/mstack/tcb_manager.hpp and tcb_manager.cpp, which finds or makes the block of
--   a packet and calls its `process`.
-- - Ipv4Header and IcmpHeader: mstack/mstack/ipv4_header.hpp and icmp_header.hpp.
-- - MacAddr, EthernetHeader and ArpHeader: mstack/mstack/mac_addr.hpp, ethernet_header.hpp and
--   arp_header.hpp. Packets: ipv4_packet.hpp and ethernetv2_frame.hpp.
-- - Protocol: mstack/mstack/base_protocol.hpp, which the layers share: the queue to the layer
--   below, whose head a posted task hands over, and the dispatch to the layer above.
-- - Tcp: mstack/mstack/tcp.hpp and tcp.cpp, below the manager: the checksum of a segment that is
--   sent, and the packets that a program reads for itself. Tcp.States is its table.
-- - Ipv4 and Icmp: mstack/mstack/ipv4.cpp and icmp.hpp. Arp: arp.cpp. Ethernet: ethernet.cpp.
-- - Netns: which layers mstack/mstack/netns.cpp puts above which.
-- - Interceptor: mstack/mstack/interceptor.cpp and raw_socket.cpp. Acceptor: acceptor.cpp.
-- - Socket: the read of mstack/mstack/socket.cpp that fills its buffer; Socket.Calls has the calls
--   of the connection's block.
-- - Device: the queue of mstack/mstack/device.cpp.
-- - System: the layers of mstack/mstack/netns.cpp together, with the tasks that they post and the
--   reads of mstack/mstack/device.cpp. System.Namespace has the state, System.Steps and
--   System.Segments single tasks, System.Descent a datagram on its way to a device, System.Ping an
--   echo request from its read to its answer, System.Opening a SYN from its read to the SYN-ACK.
-- - Text: numbers and separators in text. Ipv4Addr: the text of mstack/mstack/ipv4_addr.hpp.
--   EndpointText: the text of mstack/mstack/endpoint.hpp.
-- - Program: main.cpp. Program.Arguments has its argument, Program.Echo a connection that it
--   echoes.
-- - FileDesc: mstack/mstack/file_desc.hpp. SizeLiterals: mstack/mstack/size_literals.hpp.
-- - Stack: a segment on its way down through the layers of one stack and up through another's.
-- - AddrMap, NeighCache and RoutingTable: the tables of mstack/mstack/neigh_cache.hpp,
--   routing_table.hpp and routing_table.cpp, as lists of entries.
-- - Tests: concrete inputs.
--
-- Conventions. Assertions are enabled, and the host is little-endian. A method is a function on
-- the block: `Tcb.out` has the packets handed to the manager since the last call, which the
-- manager moves to its queue, and `Tcb.posted` the tasks posted to the event loop; `run_task`
-- runs one. The order between packets and posted tasks is not kept. Fields that no method reads,
-- log messages and the error code, which is always empty, are left out. Callbacks have names.
-- What the program takes from outside is a parameter: the circular buffer, random numbers and
-- fresh memory (`Env`), the fields that a constructor leaves indeterminate and a function that
-- was moved from (`Indeterminate`), and the ports that the generator draws (a list).
--
-- Fuel. The checksum folds in at most 4 rounds, since a 32-bit sum shrinks to 16 bits in 2. The
-- sending loop has one round more than the queue has bytes, since every round sends one at least.
-- The options' loop has as many rounds as there are bytes. `async_connect` runs over the list of
-- ports, and its end stands for a loop that has not ended yet.
--
-- Each layer below TCP has a state and functions on it. What a layer hands to the one below stands
-- in its `Lower`. In System the tasks of different layers run in any order that the relation `Runs`
-- is given, and a task is run only where it is posted. The callback
-- that `ipv4` leaves with `arp` is the frame that it will send. What the layers take from outside is
-- a parameter: the address of a buffer, which decides whether a checksum may be taken, the contents
-- of fresh memory, the callbacks of rules, and the link between two devices.
--
-- The text of a number has a digit for each round of `digits`, which has more rounds than the number
-- counts. `make_address_v4` of boost is a parameter that reads dotted decimal (`ReadsDotted`), and
-- the bytes that a random link address is made of are given.
--
-- Not modelled: opening a device or a file, `ioctl`, and the calls in main that set up the device
-- and the route, which are I/O; the printing of headers, and hashing. The callbacks of connections
-- in System are the program's, and what they call is no step of it.
pub mod Base
pub mod Wire
pub mod Skbuff
pub mod Endpoint
pub mod TcpHeader
pub mod Packets
pub mod Protocol
pub mod Ethernet
pub mod Icmp
pub mod Arp
pub mod Ipv4
pub mod Tcp
pub mod Interceptor
pub mod Device
pub mod Socket
pub mod Acceptor
pub mod Netns
pub mod Stack
pub mod System
pub mod Ring
pub mod Options
pub mod Tcb
pub mod AddrMap
pub mod MacAddr
pub mod ArpHeader
pub mod EthernetHeader
pub mod IcmpHeader
pub mod Ipv4Header
pub mod NeighCache
pub mod RoutingTable
pub mod Manager
pub mod Text
pub mod Ipv4Addr
pub mod EndpointText
pub mod Program
pub mod FileDesc
pub mod SizeLiterals
pub mod Tests
