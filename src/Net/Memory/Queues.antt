-- ===== src/Net/Memory/Queues.antt =====
-- The queues of crates/udp2raw-ng-net/src/memory.rs in any sequence of calls, and what is left of
-- them when an end is dropped.
use mathlib.Core.Path.{subst}
use udp2raw_ng.Prelude.{
  ℕ, ◌≤◌, ◌≡◌, ◌≢◌, refl, sym, ap, inl, inr, false, Option, none, List, [], ◌∷◌, ◌++◌, arith, ◌==◌,
  Bool-cases, Result, ok, err, length, length-append, ok-injective, list_cases,
}
use udp2raw_ng.Net.{OutboundPacket, InboundPacket}
use udp2raw_ng.Net.Memory.{
  SharedQueue, End, a_end, b_end, other_end, local_peer, remote_peer, Link, outgoing, incoming,
  with_outgoing, memory_transport_pair, open_queue, send, Poll, ready, failed, pending,
  poll_receive, drop_transport, MemoryTransportError, peer_closed, zero_capacity,
}
use udp2raw_ng.Net.Memory.Order.{Call, sends, polls, drops, step, run, send-cases, poll-cases}
use udp2raw_ng.Net.Memory.Wakes.{IsAsleep, waiting_after, run-IsAsleep}

-- A queue of the capacity which is not overfull.
pub record IsQueue (capacity : ℕ) (q : SharedQueue) : Type 0 where
  pub size : q.capacity ≡ capacity
  pub bounded : length q.packets ≤ capacity

abbrev pub AreQueues : ℕ → Link → Type 0
AreQueues capacity link = (e : End) → IsQueue capacity (outgoing e link)

-- A changed queue leaves the other one as it is.
with_outgoing-AreQueues :
    (capacity : ℕ) (e : End) (q : SharedQueue) (link : Link)
    → AreQueues capacity link
    → IsQueue capacity q
    → AreQueues capacity (with_outgoing e q link)
with_outgoing-AreQueues capacity a_end q link v changed a_end = changed
with_outgoing-AreQueues capacity a_end q link v changed b_end = v b_end
with_outgoing-AreQueues capacity b_end q link v changed a_end = v a_end
with_outgoing-AreQueues capacity b_end q link v changed b_end = changed

send-AreQueues :
    (capacity : ℕ) (e : End) (packet : OutboundPacket) (link : Link)
    → AreQueues capacity link
    → AreQueues capacity (send e packet link).1
send-AreQueues capacity e packet link v = elim (send-cases e packet link) [
  | inl (x, refused) ↦
      subst
        (λ (s : Result MemoryTransportError (Unit {0}) × Link × Option ℕ). AreQueues capacity s.1)
        (sym refused) v
  | inr (room, taken) ↦
      let q = outgoing e link in
      let held = v e in
      let added : InboundPacket = record { peer_id = local_peer e; frame = packet.frame } in
      subst
        (λ (s : Result MemoryTransportError (Unit {0}) × Link × Option ℕ). AreQueues capacity s.1)
        (sym taken)
        (with_outgoing-AreQueues capacity e
          (record q { packets = q.packets ++ (added ∷ []); receiver_waker = none }) link v
          (record {
            size = held.size;
            bounded = omega (arith, length-append q.packets (added ∷ []), room, held.size);
          }))
]

poll-AreQueues :
    (capacity : ℕ) (e : End) (waker : ℕ) (link : Link)
    → AreQueues capacity link
    → AreQueues capacity (poll_receive e waker link).1
poll-AreQueues capacity e waker link v =
    let q = incoming e link in
    let held = v (other_end e) in
    elim (poll-cases e waker link) [
      | inl (packet, rest, has, out) ↦
          subst (λ (s : Poll × Link). AreQueues capacity s.1) (sym out)
            (with_outgoing-AreQueues capacity (other_end e) (record q { packets = rest }) link v
              (record { size = held.size; bounded = omega (arith, held.bounded, ap length has) }))
      | inr (empty, (x, wait, silent, out)) ↦
          subst (λ (s : Poll × Link). AreQueues capacity s.1) (sym out)
            (with_outgoing-AreQueues capacity (other_end e) (record q { receiver_waker = wait })
              link v (record { size = held.size; bounded = held.bounded }))
    ]

drop-AreQueues :
    (capacity : ℕ) (e : End) (link : Link)
    → AreQueues capacity link
    → AreQueues capacity (drop_transport e link).0
unfolding drop_transport
drop-AreQueues capacity e link v =
    let out = record (outgoing e link) { sender_open = false } in
    let held = v e in
    let next =
      with_outgoing-AreQueues capacity e out link v
        (record { size = held.size; bounded = held.bounded }) in
    let inward = next (other_end e) in
    with_outgoing-AreQueues capacity (other_end e)
      (record (incoming e (with_outgoing e out link)) {
        receiver_open = false;
        receiver_waker = none;
      })
      (with_outgoing e out link) next (record { size = inward.size; bounded = inward.bounded })

step-AreQueues :
    (capacity : ℕ) (c : Call) (link : Link)
    → AreQueues capacity link
    → AreQueues capacity (step c link)
step-AreQueues capacity (sends e packet) link v = send-AreQueues capacity e packet link v
step-AreQueues capacity (polls e waker) link v = poll-AreQueues capacity e waker link v
step-AreQueues capacity (drops e) link v = drop-AreQueues capacity e link v

run-AreQueues :
    (capacity : ℕ) (calls : List Call) (link : Link)
    → AreQueues capacity link
    → AreQueues capacity (run calls link)
run-AreQueues capacity [] link v = v
run-AreQueues capacity (c ∷ calls) link v =
    run-AreQueues capacity calls (step c link) (step-AreQueues capacity c link v)

new_queues :
    (capacity : ℕ)
    → AreQueues capacity (record { a_to_b = open_queue capacity; b_to_a = open_queue capacity })
new_queues capacity a_end = record { size = refl; bounded = omega arith }
new_queues capacity b_end = record { size = refl; bounded = omega arith }

new-AreQueues :
    (capacity : ℕ) (link : Link)
    → memory_transport_pair capacity ≡ ok link
    → AreQueues capacity link
unfolding memory_transport_pair
new-AreQueues capacity link made = elim (Bool-cases (capacity == 0)) [
  | inl none_allowed ↦ let bad : err zero_capacity ≡ ok link = rw none_allowed at made in absurd cc
  | inr positive ↦
      let new_link : Link = record { a_to_b = open_queue capacity; b_to_a = open_queue capacity } in
      let given : ok new_link ≡ ok link = rw positive at made in
      subst (AreQueues capacity) (ok-injective given) (new_queues capacity)
]

-- From a new pair of transports on, whatever the two ends call, no queue holds more packets than
-- the capacity, and no receiver is left waiting while there is a packet for it: when the last poll
-- at the receiving end of a queue told its caller to wait and no call has woken that caller's waker
-- since, the queue is empty and the waker is still in it.
pub run-memory_transport_pair :
    (capacity : ℕ) (link : Link) (calls : List Call) (e : End)
    → memory_transport_pair capacity ≡ ok link
    → (length (outgoing e (run calls link)).packets ≤ capacity)
      × IsAsleep (waiting_after e calls link none) (outgoing e (run calls link))
run-memory_transport_pair capacity link calls e made =
    let held = run-AreQueues capacity calls link (new-AreQueues capacity link made) e in
    (held.bounded, run-IsAsleep e calls link none tt)

closed_send :
    (e : End) (packet : OutboundPacket) (link : Link)
    → (outgoing e link).receiver_open ≡ false
    → (send e packet link).0 ≡ err peer_closed
unfolding send
closed_send e packet link closed = elim (Bool-cases (packet.peer_id == remote_peer e)) [
  | inl here ↦ rw (send, here, closed)
  | inr away ↦ rw (send, away)
]

closed_poll :
    (e : End) (waker : ℕ) (link : Link)
    → (incoming e link).sender_open ≡ false
    → (incoming e link).packets ≡ []
    → (poll_receive e waker link).0 ≡ failed peer_closed
unfolding poll_receive
closed_poll e waker link closed empty = rw (poll_receive, empty, closed)

closed_ready :
    (e : End) (waker : ℕ) (link : Link)
    → (incoming e link).sender_open ≡ false
    → (poll_receive e waker link).0 ≢ pending
unfolding poll_receive
closed_ready e waker link closed = elim (list_cases (incoming e link).packets) [
  | inl empty ↦ rw (closed_poll e waker link closed empty) (λ x. cc)
  | inr (packet, rest, has) ↦
      let out : (poll_receive e waker link).0 ≡ ready packet = rw (poll_receive, has) in
      rw out (λ x. cc)
]

-- When an end is dropped, the other end can send nothing any more, and a poll there never waits:
-- on an empty queue it reports that the peer is closed. The waker that the drop wakes is the
-- dropped end's own, and the one that waits at the other end stays in its queue unwoken.
pub drop_transport_lem :
    (e : End) (link : Link)
    → ((packet : OutboundPacket)
        → (send (other_end e) packet (drop_transport e link).0).0 ≡ err peer_closed)
      × ((waker : ℕ)
          → (outgoing e link).packets ≡ []
          → (poll_receive (other_end e) waker (drop_transport e link).0).0 ≡ failed peer_closed)
      × ((waker : ℕ) → (poll_receive (other_end e) waker (drop_transport e link).0).0 ≢ pending)
      × ((drop_transport e link).1 ≡ (incoming e link).receiver_waker)
      × ((outgoing e (drop_transport e link).0).receiver_waker ≡ (outgoing e link).receiver_waker)
unfolding drop_transport
drop_transport_lem a_end link = (
  λ p. closed_send b_end p _ refl,
  λ w empty. closed_poll b_end w _ refl empty,
  λ w. closed_ready b_end w _ refl,
  refl,
  refl,
)
drop_transport_lem b_end link = (
  λ p. closed_send a_end p _ refl,
  λ w empty. closed_poll a_end w _ refl empty,
  λ w. closed_ready a_end w _ refl,
  refl,
  refl,
)
