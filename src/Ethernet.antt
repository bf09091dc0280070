-- ===== src/Ethernet.antt =====
-- mstack/mstack/ethernet.cpp. A load behind the payload is an access out of bounds.
pub mod Laws
use mstack_cpp.Base.{ℕ, Option, Result, ok, ◌>>=◌, ◌>>◌, assert}
use mstack_cpp.Skbuff.{Skbuff, payload, pop_front, push_front, store_head}
use mstack_cpp.EthernetHeader
use mstack_cpp.EthernetHeader.{EthernetHeader}
use mstack_cpp.Packets.{EthernetFrame}
use mstack_cpp.Protocol.{Lower, enqueue}
use mstack_cpp.Tcb.{is_some}

abbrev pub header_of : EthernetFrame → EthernetHeader
header_of frame = record {
  dst_mac_addr = frame.dst_mac_addr;
  src_mac_addr = frame.src_mac_addr;
  proto = frame.proto;
}

-- A frame from a layer above goes to the device with its header.
pub process : EthernetFrame → Lower (Skbuff × Option ℕ) → Result (Lower (Skbuff × Option ℕ))
process in_frame lower = do
  assert (is_some in_frame.dev)
  skb ← push_front EthernetHeader.size in_frame.skb
  let out_buffer = store_head (EthernetHeader.produce (header_of in_frame)) skb
  ok (enqueue (out_buffer, in_frame.dev) lower)

pub make_packet : Skbuff → Option ℕ → Result EthernetFrame
make_packet skb_in dev = do
  e_header ← EthernetHeader.consume (payload skb_in)
  skb ← pop_front EthernetHeader.size skb_in
  ok (record {
    src_mac_addr = e_header.src_mac_addr;
    dst_mac_addr = e_header.dst_mac_addr;
    proto = e_header.proto;
    skb = skb;
    dev = dev;
  })
