-- ===== src/Ethernet/Laws.antt =====
-- A frame that is sent is the frame that is received.
use mstack_cpp.Base.{ℕ, ◌+◌, ◌≤◌, ◌≡◌, refl, ◌∙◌, ap, ◌++◌, Option, some, ok}
use mstack_cpp.Skbuff.{Skbuff, payload, store_head}
use mstack_cpp.Skbuff.Laws.{IsValid, popped}
use mstack_cpp.Skbuff.Stores.{
  pushed, push_front_lem, pop_header, payload-push_store, push_store-IsValid,
}
use mstack_cpp.EthernetHeader
use mstack_cpp.EthernetHeader.Roundtrip.{Fits, length-produce, consume-produce_ethernet}
use mstack_cpp.Packets.{EthernetFrame}
use mstack_cpp.Protocol.{Lower, enqueue}
use mstack_cpp.Ethernet.{header_of, process, make_packet}

-- The buffer that goes to the device.
abbrev pub sent_skb : EthernetFrame → Skbuff
sent_skb frame =
    store_head (EthernetHeader.produce (header_of frame)) (pushed EthernetHeader.size frame.skb)

pub process_lem :
    (frame : EthernetFrame) (dev : ℕ) (lower : Lower (Skbuff × Option ℕ))
    → frame.dev ≡ some dev
    → EthernetHeader.size ≤ frame.skb.head
    → process frame lower ≡ ok (enqueue (sent_skb frame, frame.dev) lower)
unfolding process
process_lem frame dev lower d room = rw (d, push_front_lem EthernetHeader.size frame.skb room) refl

-- The bytes that go to the device.
pub sent_skb-bytes :
    (frame : EthernetFrame)
    → IsValid frame.skb
    → Fits (header_of frame)
    → EthernetHeader.size ≤ frame.skb.head
    → IsValid (sent_skb frame)
      × (payload (sent_skb frame) ≡ EthernetHeader.produce (header_of frame) ++ payload frame.skb)
sent_skb-bytes frame v f room =
    let h = EthernetHeader.produce (header_of frame) in
    let len = length-produce (header_of frame) f in
    (
      push_store-IsValid h EthernetHeader.size frame.skb v len room,
      payload-push_store h EthernetHeader.size frame.skb v len room,
    )

-- A frame is received from the bytes of its header and its payload.
pub make_packet_lem :
    (skb : Skbuff) (dev : Option ℕ) (frame : EthernetFrame)
    → IsValid skb
    → Fits (header_of frame)
    → payload skb ≡ EthernetHeader.produce (header_of frame) ++ payload frame.skb
    → (received : Skbuff) × (make_packet skb dev ≡ ok (record frame { skb = received; dev = dev }))
      × IsValid received
      × (payload received ≡ payload frame.skb)
      × (received.head ≡ skb.head + EthernetHeader.size)
unfolding make_packet
make_packet_lem skb dev frame v f p =
    let h = header_of frame in
    let off =
      pop_header EthernetHeader.size (EthernetHeader.produce h) (payload frame.skb) skb v
        (length-produce h f) p in
    let read : EthernetHeader.consume (payload skb) ≡ ok h =
      ap EthernetHeader.consume p ∙ consume-produce_ethernet h (payload frame.skb) f in
    (popped EthernetHeader.size skb, rw (read, off.pops) refl, off.valid, off.behind, refl)

-- A valid frame with a device, room for the header and fields that fit it is queued for the device,
-- and the buffer that is queued is received on any device as the same frame.
pub process-make_packet :
    (frame : EthernetFrame) (dev : ℕ) (at : Option ℕ) (lower : Lower (Skbuff × Option ℕ))
    → frame.dev ≡ some dev
    → EthernetHeader.size ≤ frame.skb.head
    → IsValid frame.skb
    → Fits (header_of frame)
    → (sent received : Skbuff) × (process frame lower ≡ ok (enqueue (sent, frame.dev) lower))
      × (make_packet sent at ≡ ok (record frame { skb = received; dev = at }))
      × IsValid received
      × (payload received ≡ payload frame.skb)
process-make_packet frame dev at lower d room v f =
    let (valid, bytes) = sent_skb-bytes frame v f room in
    let (received, e, w, p, at_head) = make_packet_lem (sent_skb frame) at frame valid f bytes in
    (sent_skb frame, received, process_lem frame dev lower d room, e, w, p)
