-- ===== src/Net/Memory.antt =====
-- The transport of crates/udp2raw-ng-net/src/memory.rs: two ends that share two bounded queues. The
-- queues are the state that the operations of both ends pass on. An operation is one step, as it
-- holds a queue's lock; `Drop::drop`, which takes the lock of each queue in turn, is one step as
-- well. A waker is a number, and an operation returns the one that it wakes.
use udp2raw_ng.Prelude.{
  ℕ, Bool, true, false, not, Option, none, some, List, [], ◌∷◌, ◌++◌, ltb, leb, ◌==◌, if◌then◌else◌,
  Result, ok, err, length,
}
use udp2raw_ng.Net.{OutboundPacket, InboundPacket}
pub mod Order
pub mod Wakes
pub mod Queues
pub mod Examples

pub data MemoryTransportError : Type 0 where
  zero_capacity : MemoryTransportError
  queue_full : MemoryTransportError
  peer_closed : MemoryTransportError

pub record SharedQueue : Type 0 where
  pub capacity : ℕ
  pub packets : List InboundPacket
  pub receiver_waker : Option ℕ
  pub sender_open : Bool
  pub receiver_open : Bool

-- The two ends. Which of them is local is the argument of the operations below.
pub data End : Type 0 where
  a_end : End
  b_end : End

abbrev pub other_end : End → End
other_end a_end = b_end
other_end b_end = a_end

abbrev pub local_peer : End → ℕ
local_peer a_end = 1
local_peer b_end = 2

abbrev pub remote_peer : End → ℕ
remote_peer a_end = 2
remote_peer b_end = 1

-- Both queues.
pub record Link : Type 0 where
  pub a_to_b : SharedQueue
  pub b_to_a : SharedQueue

abbrev pub outgoing : End → Link → SharedQueue
outgoing a_end link = link.a_to_b
outgoing b_end link = link.b_to_a

abbrev pub incoming : End → Link → SharedQueue
incoming e link = outgoing (other_end e) link

abbrev pub with_outgoing : End → SharedQueue → Link → Link
with_outgoing a_end q link = record link { a_to_b = q }
with_outgoing b_end q link = record link { b_to_a = q }

abbrev pub with_incoming : End → SharedQueue → Link → Link
with_incoming e q link = with_outgoing (other_end e) q link

abbrev pub open_queue : ℕ → SharedQueue
open_queue capacity = record {
  capacity = capacity;
  packets = [];
  receiver_waker = none;
  sender_open = true;
  receiver_open = true;
}

unfoldable pub memory_transport_pair : ℕ → Result MemoryTransportError Link
memory_transport_pair capacity =
    if capacity == 0
    then err zero_capacity
    else ok (record { a_to_b = open_queue capacity; b_to_a = open_queue capacity })

-- `send`, its answer, the queues and the waker that it wakes.
unfoldable pub send :
    End → OutboundPacket → Link → Result MemoryTransportError (Unit {0}) × Link × Option ℕ
send e packet link =
    let q = outgoing e link in
    if not (packet.peer_id == remote_peer e)
    then (err peer_closed, link, none)
    else (if not q.receiver_open
        then (err peer_closed, link, none)
        else (if leb q.capacity (length q.packets) then (err queue_full, link, none) else (
          ok tt,
          with_outgoing e
              (record q {
                packets =
                    q.packets ++ (record { peer_id = local_peer e; frame = packet.frame } ∷ []);
                receiver_waker = none;
              })
              link,
          q.receiver_waker,
        )))

-- The answers of `poll_receive`: `Poll::Ready(Ok)`, `Poll::Ready(Err)` and `Poll::Pending`.
pub data Poll : Type 0 where
  ready : InboundPacket → Poll
  failed : MemoryTransportError → Poll
  pending : Poll

unfoldable pub poll_receive : End → ℕ → Link → Poll × Link
poll_receive e waker link =
    let q = incoming e link in
    elim q.packets [
      | packet ∷ rest ↦ (ready packet, with_incoming e (record q { packets = rest }) link)
      | [] ↦
          if not q.sender_open
          then (failed peer_closed, link)
          else (pending, with_incoming e (record q { receiver_waker = some waker }) link)
    ]

-- `Drop::drop`: the queues and the waker that it wakes.
unfoldable pub drop_transport : End → Link → Link × Option ℕ
drop_transport e link =
    let out = with_outgoing e (record (outgoing e link) { sender_open = false }) link in
    let q = incoming e out in
    (
      with_incoming e (record q { receiver_open = false; receiver_waker = none }) out,
      q.receiver_waker,
    )
