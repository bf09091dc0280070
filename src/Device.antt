-- ===== src/Device.antt =====
-- The frames that mstack/mstack/device.cpp writes. `writing` has the buffers of the writes that are
-- in flight, and `written` what was written, oldest first. `boost::asio::async_write` calls its
-- completion once, with an error or after it wrote the whole buffer.
pub mod Laws
pub mod Errors
use mstack_cpp.Base.{
  ℕ, List, [], ◌∷◌, ◌++◌, Bool, ◌==◌, if◌then◌else◌, Result, ok, fault, out_of_bounds, ◌>>=◌,
  length,
}
use mstack_cpp.Skbuff.{Skbuff, payload}

-- The front of `out_skb_q_` is the buffer that was moved into the write.
pub record Device : Type 0 where
  pub out_skb_q : List Skbuff
  pub writing : List (List ℕ)
  pub written : List (List ℕ)

unfoldable pub send_front_pkt_out : List Skbuff → Device → Result Device
send_front_pkt_out [] d = fault out_of_bounds
send_front_pkt_out (skb ∷ rest) d = ok (record d { writing = d.writing ++ payload skb ∷ [] })

unfoldable pub process : Skbuff → Device → Result Device
unfolding send_front_pkt_out
process skb_in d =
    let d1 : Device = record d { out_skb_q = d.out_skb_q ++ skb_in ∷ [] } in
    if 1 == length d1.out_skb_q then send_front_pkt_out d1.out_skb_q d1 else ok d1

-- What the write's completion does with the queue: `pop` of an empty queue is undefined.
pub next : List Skbuff → Device → Result Device
unfolding send_front_pkt_out
next [] d = fault out_of_bounds
next (skb ∷ []) d = ok (record d { out_skb_q = [] })
next (skb ∷ after ∷ rest) d =
    send_front_pkt_out (after ∷ rest) (record d { out_skb_q = after ∷ rest })

-- The completion of the first write in flight, with an error or not.
pub completion : Bool → List (List ℕ) → Device → Result Device
unfolding next
completion ec [] d = fault out_of_bounds
completion ec (buf ∷ bufs) d =
    let d1 : Device = record d { writing = bufs } in
    if ec then ok d1 else next d1.out_skb_q (record d1 { written = d1.written ++ buf ∷ [] })
