-- ===== src/Net/Memory/Wakes.antt =====
-- Whom the calls of crates/udp2raw-ng-net/src/memory.rs tell to wait and whom they wake.
use mathlib.Core.Path.{subst}
use udp2raw_ng.Prelude.{
  ℕ, ◌≡◌, refl, sym, inl, inr, Option, none, some, List, [], ◌∷◌, ◌==◌, eq_self, if◌then◌else◌,
  Bool-cases, Result, list_cases,
}
use udp2raw_ng.Net.{OutboundPacket}
use udp2raw_ng.Net.Memory.{
  SharedQueue, End, a_end, b_end, other_end, Link, outgoing, incoming, with_outgoing, with_incoming,
  send, Poll, ready, failed, pending, poll_receive, drop_transport, MemoryTransportError,
  peer_closed,
}
use udp2raw_ng.Net.Memory.Order.{
  Call, sends, polls, drops, step, run, same_end, with_packet, send-cases, poll-cases,
}

-- The waker that a call wakes.
abbrev pub woken : Call → Link → Option ℕ
woken (sends at packet) link = (send at packet link).2
woken (polls at waker) link = none
woken (drops at) link = (drop_transport at link).1

abbrev when_pending : Poll → ℕ → Option ℕ
when_pending pending waker = some waker
when_pending (ready packet) waker = none
when_pending (failed x) waker = none

-- The waker of the receiver of what the end sends, while the receiver waits: a poll there that
-- answers `pending` tells it to wait, and one with another answer does not.
abbrev pub told : End → Call → Link → Option ℕ → Option ℕ
told e (polls at waker) link waiting =
    if same_end (other_end e) at then when_pending (poll_receive at waker link).0 waker else waiting
told e (sends at packet) link waiting = waiting
told e (drops at) link waiting = waiting

-- A receiver that is woken waits no more.
abbrev pub after_wake : Option ℕ → Option ℕ → Option ℕ
after_wake none waiting = waiting
after_wake (some v) none = none
after_wake (some v) (some w) = if v == w then none else some w

-- The receiver that was told to wait in a sequence of calls and was not woken since.
abbrev pub waiting_after : End → List Call → Link → Option ℕ → Option ℕ
waiting_after e [] link waiting = waiting
waiting_after e (c ∷ calls) link waiting =
    waiting_after e calls (step c link) (after_wake (woken c link) (told e c link waiting))

-- A receiver that waits has nothing to receive, and its waker is in the queue.
abbrev pub IsAsleep : Option ℕ → SharedQueue → Type 0
IsAsleep none q = Unit
IsAsleep (some w) q = (q.packets ≡ []) × (q.receiver_waker ≡ some w)

IsAsleep-same :
    (waiting : Option ℕ) (q p : SharedQueue)
    → q.packets ≡ p.packets
    → q.receiver_waker ≡ p.receiver_waker
    → IsAsleep waiting q
    → IsAsleep waiting p
IsAsleep-same none q p packets waker s = tt
IsAsleep-same (some w) q p packets waker s = (cc, cc)

IsAsleep-after_wake :
    (v waiting : Option ℕ) (q : SharedQueue)
    → IsAsleep waiting q
    → IsAsleep (after_wake v waiting) q
IsAsleep-after_wake none waiting q s = s
IsAsleep-after_wake (some v) none q s = tt
IsAsleep-after_wake (some v) (some w) q s = elim (Bool-cases (v == w)) [
  | inl same ↦ rw same tt
  | inr other ↦ rw other s
]

-- When the waker in the queue is woken, nobody is left waiting.
after_wake-none : (v : Option ℕ) → after_wake v none ≡ none
after_wake-none none = refl
after_wake-none (some v) = refl

after_wake-slot :
    (waiting : Option ℕ) (q : SharedQueue)
    → IsAsleep waiting q
    → after_wake q.receiver_waker waiting ≡ none
after_wake-slot none q s = after_wake-none q.receiver_waker
after_wake-slot (some w) q s = let slot : q.receiver_waker ≡ some w = s.1 in rw (slot, eq_self w)

awake-IsAsleep :
    (waiting : Option ℕ) (q p : SharedQueue)
    → IsAsleep waiting q
    → IsAsleep (after_wake q.receiver_waker waiting) p
awake-IsAsleep waiting q p s =
    subst (λ (v : Option ℕ). IsAsleep v p) (sym (after_wake-slot waiting q s)) tt

with_packet-IsAsleep :
    (e at : End) (packet : OutboundPacket) (link : Link) (waiting : Option ℕ)
    → IsAsleep waiting (outgoing e link)
    → IsAsleep
        (after_wake (outgoing at link).receiver_waker waiting)
        (outgoing e (with_packet at packet link))
with_packet-IsAsleep a_end a_end packet link waiting s = awake-IsAsleep waiting link.a_to_b _ s
with_packet-IsAsleep b_end b_end packet link waiting s = awake-IsAsleep waiting link.b_to_a _ s
with_packet-IsAsleep a_end b_end packet link waiting s = IsAsleep-after_wake _ waiting link.a_to_b s
with_packet-IsAsleep b_end a_end packet link waiting s = IsAsleep-after_wake _ waiting link.b_to_a s

send-IsAsleep :
    (e at : End) (packet : OutboundPacket) (link : Link) (waiting : Option ℕ)
    → IsAsleep waiting (outgoing e link)
    → IsAsleep (after_wake (send at packet link).2 waiting) (outgoing e (send at packet link).1)
send-IsAsleep e at packet link waiting s =
    let goal : (Result MemoryTransportError (Unit {0}) × Link × Option ℕ) → Type 0 =
      λ out. IsAsleep (after_wake out.2 waiting) (outgoing e out.1) in
    elim (send-cases at packet link) [
      | inl (x, refused) ↦ subst goal (sym refused) s
      | inr (room, taken) ↦ subst goal (sym taken) (with_packet-IsAsleep e at packet link waiting s)
    ]

outgoing-with_outgoing :
    (e : End) (q : SharedQueue) (link : Link) → q ≡ outgoing e (with_outgoing e q link)
outgoing-with_outgoing a_end q link = refl
outgoing-with_outgoing b_end q link = refl

-- A poll that answers `pending` leaves its waker in an empty queue.
poll_receive-IsAsleep :
    (e : End) (waker : ℕ) (link : Link)
    → IsAsleep
        (when_pending (poll_receive e waker link).0 waker)
        (incoming e (poll_receive e waker link).1)
unfolding poll_receive
poll_receive-IsAsleep e waker link =
    let goal : (Poll × Link) → Type 0 =
      λ out. IsAsleep (when_pending out.0 waker) (incoming e out.1) in
    elim (list_cases (incoming e link).packets) [
      | inr (packet, rest, has) ↦
          let out : poll_receive e waker link
              ≡ (ready packet, with_incoming e (record (incoming e link) { packets = rest }) link) =
            rw (poll_receive, has) in
          subst goal (sym out) tt
      | inl empty ↦ elim (Bool-cases (incoming e link).sender_open) [
        | inr closed ↦
            let out : poll_receive e waker link ≡ (failed peer_closed, link) =
              rw (poll_receive, empty, closed) in
            subst goal (sym out) tt
        | inl opened ↦
            let asleep : SharedQueue = record (incoming e link) { receiver_waker = some waker } in
            let out : poll_receive e waker link ≡ (pending, with_incoming e asleep link) =
              rw (poll_receive, empty, opened, empty) in
            subst goal (sym out) (
              subst (IsAsleep (some waker)) (outgoing-with_outgoing (other_end e) asleep link)
                (empty, refl))
      ]
    ]

outgoing-with_incoming :
    (e : End) (q : SharedQueue) (link : Link)
    → outgoing e (with_incoming e q link) ≡ outgoing e link
outgoing-with_incoming a_end q link = refl
outgoing-with_incoming b_end q link = refl

outgoing-poll_receive :
    (e : End) (waker : ℕ) (link : Link) → outgoing e (poll_receive e waker link).1 ≡ outgoing e link
outgoing-poll_receive e waker link =
    let goal : (Poll × Link) → Type 0 = λ out. outgoing e out.1 ≡ outgoing e link in
    elim (poll-cases e waker link) [
      | inl (packet, rest, has, out) ↦ subst goal (sym out) (outgoing-with_incoming e _ link)
      | inr (empty, (x, wait, silent, out)) ↦ subst goal (sym out) (outgoing-with_incoming e _ link)
    ]

poll-IsAsleep :
    (e at : End) (waker : ℕ) (link : Link) (waiting : Option ℕ)
    → IsAsleep waiting (outgoing e link)
    → IsAsleep (told e (polls at waker) link waiting) (outgoing e (poll_receive at waker link).1)
poll-IsAsleep a_end b_end waker link waiting s = poll_receive-IsAsleep b_end waker link
poll-IsAsleep b_end a_end waker link waiting s = poll_receive-IsAsleep a_end waker link
poll-IsAsleep a_end a_end waker link waiting s =
    subst (IsAsleep waiting) (sym (outgoing-poll_receive a_end waker link)) s
poll-IsAsleep b_end b_end waker link waiting s =
    subst (IsAsleep waiting) (sym (outgoing-poll_receive b_end waker link)) s

drop-IsAsleep :
    (e at : End) (link : Link) (waiting : Option ℕ)
    → IsAsleep waiting (outgoing e link)
    → IsAsleep
        (after_wake (drop_transport at link).1 waiting)
        (outgoing e (drop_transport at link).0)
unfolding drop_transport
drop-IsAsleep a_end b_end link waiting s = awake-IsAsleep waiting link.a_to_b _ s
drop-IsAsleep b_end a_end link waiting s = awake-IsAsleep waiting link.b_to_a _ s
drop-IsAsleep a_end a_end link waiting s =
    IsAsleep-same _ link.a_to_b _ refl refl (IsAsleep-after_wake _ waiting link.a_to_b s)
drop-IsAsleep b_end b_end link waiting s =
    IsAsleep-same _ link.b_to_a _ refl refl (IsAsleep-after_wake _ waiting link.b_to_a s)

step-IsAsleep :
    (e : End) (c : Call) (link : Link) (waiting : Option ℕ)
    → IsAsleep waiting (outgoing e link)
    → IsAsleep (after_wake (woken c link) (told e c link waiting)) (outgoing e (step c link))
step-IsAsleep e (sends at packet) link waiting s = send-IsAsleep e at packet link waiting s
step-IsAsleep e (polls at waker) link waiting s = poll-IsAsleep e at waker link waiting s
step-IsAsleep e (drops at) link waiting s = drop-IsAsleep e at link waiting s

-- In any sequence of calls, a receiver that waits stays asleep until it is woken.
pub run-IsAsleep :
    (e : End) (calls : List Call) (link : Link) (waiting : Option ℕ)
    → IsAsleep waiting (outgoing e link)
    → IsAsleep (waiting_after e calls link waiting) (outgoing e (run calls link))
run-IsAsleep e [] link waiting s = s
run-IsAsleep e (c ∷ calls) link waiting s =
    run-IsAsleep e calls (step c link) _ (step-IsAsleep e c link waiting s)
