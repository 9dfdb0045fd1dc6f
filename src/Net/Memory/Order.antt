-- ===== src/Net/Memory/Order.antt =====
-- What the transport of crates/udp2raw-ng-net/src/memory.rs does with packets in any sequence of
-- calls at both ends.
use mathlib.Core.List.{append_assoc, append-nil}
use mathlib.Core.Path.{subst}
use udp2raw_ng.Prelude.{
  ℕ, ◌<◌, ◌≡◌, ◌⊎◌, refl, sym, ap, ◌∙◌, inl, inr, Bool, true, false, Option, none, some, List, [],
  ◌∷◌, ◌++◌, arith, leb, ◌==◌, if◌then◌else◌, Bool-cases, Result, ok, err, length, list_cases,
}
use udp2raw_ng.Net.{OutboundPacket, InboundPacket}
use udp2raw_ng.Net.Memory.{
  End, a_end, b_end, other_end, local_peer, remote_peer, Link, outgoing, incoming, with_outgoing,
  with_incoming, send, Poll, ready, failed, pending, poll_receive, drop_transport,
  MemoryTransportError, peer_closed, queue_full,
}

-- The calls at both ends.
pub data Call : Type 0 where
  sends : End → OutboundPacket → Call
  polls : End → ℕ → Call
  drops : End → Call

abbrev pub step : Call → Link → Link
step (sends e packet) link = (send e packet link).1
step (polls e waker) link = (poll_receive e waker link).1
step (drops e) link = (drop_transport e link).0

abbrev pub run : List Call → Link → Link
run [] link = link
run (c ∷ calls) link = run calls (step c link)

abbrev pub same_end : End → End → Bool
same_end a_end a_end = true
same_end b_end b_end = true
same_end _ _ = false

abbrev when_ok : End → OutboundPacket → Result MemoryTransportError (Unit {0}) → List InboundPacket
when_ok e packet (ok u) = record { peer_id = local_peer e; frame = packet.frame } ∷ []
when_ok e packet (err x) = []

-- What a call of `send` at the end takes over, if it says that it succeeded.
abbrev pub accepted : End → Call → Link → List InboundPacket
accepted e (sends at packet) link =
    if same_end e at then when_ok e packet (send at packet link).0 else []
accepted e (polls at waker) link = []
accepted e (drops at) link = []

abbrev when_ready : Poll → List InboundPacket
when_ready (ready packet) = packet ∷ []
when_ready (failed x) = []
when_ready pending = []

-- What a poll at the other end hands out.
abbrev pub delivered : End → Call → Link → List InboundPacket
delivered e (polls at waker) link =
    if same_end (other_end e) at then when_ready (poll_receive at waker link).0 else []
delivered e (sends at packet) link = []
delivered e (drops at) link = []

-- The packets taken over and handed out in a sequence of calls.
abbrev pub all_accepted : End → List Call → Link → List InboundPacket
all_accepted e [] link = []
all_accepted e (c ∷ calls) link = accepted e c link ++ all_accepted e calls (step c link)

abbrev pub all_delivered : End → List Call → Link → List InboundPacket
all_delivered e [] link = []
all_delivered e (c ∷ calls) link = delivered e c link ++ all_delivered e calls (step c link)

abbrev pub with_packet : End → OutboundPacket → Link → Link
with_packet e packet link =
    with_outgoing e
      (record (outgoing e link) {
        packets =
            (outgoing e link).packets
            ++ (record { peer_id = local_peer e; frame = packet.frame } ∷ []);
        receiver_waker = none;
      })
      link

-- A packet is refused, and nothing changes, or there is room for it.
pub send-cases :
    (e : End) (packet : OutboundPacket) (link : Link)
    → ((x : MemoryTransportError) × (send e packet link ≡ (err x, link, none)))
      ⊎ ((length (outgoing e link).packets < (outgoing e link).capacity)
          × (send e packet link
              ≡ (ok tt, with_packet e packet link, (outgoing e link).receiver_waker)))
unfolding send
send-cases e packet link = elim (Bool-cases (packet.peer_id == remote_peer e)) [
  | inr away ↦ inl (peer_closed, rw away)
  | inl here ↦ elim (Bool-cases (outgoing e link).receiver_open) [
    | inr closed ↦ inl (peer_closed, rw (here, closed))
    | inl opened ↦
        elim (Bool-cases (leb (outgoing e link).capacity (length (outgoing e link).packets))) [
          | inl full ↦ inl (queue_full, rw (here, opened, full))
          | inr room ↦ inr (ground arith, rw (here, opened, room))
        ]
  ]
]

refused_order :
    (e at : End) (link : Link)
    → (outgoing e link).packets ++ (if same_end e at then [] else []) ≡ (outgoing e link).packets
refused_order a_end a_end link = append-nil _
refused_order b_end b_end link = append-nil _
refused_order a_end b_end link = append-nil _
refused_order b_end a_end link = append-nil _

taken_order :
    (e at : End) (packet : OutboundPacket) (link : Link)
    → (outgoing e link).packets
        ++ (if same_end e at
            then record { peer_id = local_peer e; frame = packet.frame } ∷ []
            else [])
      ≡ (outgoing e (with_packet at packet link)).packets
taken_order a_end a_end packet link = refl
taken_order b_end b_end packet link = refl
taken_order a_end b_end packet link = append-nil _
taken_order b_end a_end packet link = append-nil _

send_order :
    (e at : End) (packet : OutboundPacket) (link : Link)
    → (outgoing e link).packets ++ accepted e (sends at packet) link
      ≡ (outgoing e (step (sends at packet) link)).packets
send_order e at packet link =
    let goal : (Result MemoryTransportError (Unit {0}) × Link × Option ℕ) → Type 0 = λ s.
      (outgoing e link).packets ++ (if same_end e at then when_ok e packet s.0 else [])
      ≡ (outgoing e s.1).packets in
    elim (send-cases at packet link) [
      | inl (x, refused) ↦ subst goal (sym refused) (refused_order e at link)
      | inr (room, taken) ↦ subst goal (sym taken) (taken_order e at packet link)
    ]

same_incoming :
    (e : End) (link : Link)
    → link
      ≡ with_incoming e
          (record (incoming e link) { receiver_waker = (incoming e link).receiver_waker })
          link
same_incoming a_end link = refl
same_incoming b_end link = refl

-- A poll hands out the first packet of its queue, or there is none and the packets stay.
pub poll-cases :
    (e : End) (waker : ℕ) (link : Link)
    → ((packet : InboundPacket) × (rest : List InboundPacket) × ((incoming e link).packets
          ≡ packet ∷ rest)
        × (poll_receive e waker link
            ≡ (ready packet, with_incoming e (record (incoming e link) { packets = rest }) link)))
      ⊎ (((incoming e link).packets ≡ [])
          × ((x : Poll) × (wait : Option ℕ) × (when_ready x ≡ [])
              × (poll_receive e waker link ≡ (
                x,
                with_incoming e (record (incoming e link) { receiver_waker = wait }) link,
              ))))
unfolding poll_receive
poll-cases e waker link = elim (list_cases (incoming e link).packets) [
  | inr (packet, rest, has) ↦ inl (packet, rest, has, rw (poll_receive, has))
  | inl empty ↦ elim (Bool-cases (incoming e link).sender_open) [
    | inl opened ↦ inr (empty, (pending, some waker, refl, rw (poll_receive, empty, opened, empty)))
    | inr closed ↦
        let out : poll_receive e waker link ≡ (failed peer_closed, link) =
          rw (poll_receive, empty, closed) in
        inr (
          empty,
          (
            failed peer_closed,
            (incoming e link).receiver_waker,
            refl,
            out ∙ ap (λ (l : Link). (failed peer_closed, l)) (same_incoming e link),
          ),
        )
  ]
]

ready_order :
    (e at : End) (link : Link) (packet : InboundPacket) (rest : List InboundPacket)
    → (incoming at link).packets ≡ packet ∷ rest
    → (outgoing e link).packets
      ≡ (if same_end (other_end e) at then packet ∷ [] else [])
        ++ (outgoing e
            (with_incoming at (record (incoming at link) { packets = rest }) link)).packets
ready_order a_end b_end link packet rest has = has
ready_order b_end a_end link packet rest has = has
ready_order a_end a_end link packet rest has = refl
ready_order b_end b_end link packet rest has = refl

waiting_order :
    (e at : End) (link : Link) (wait : Option ℕ)
    → (outgoing e link).packets
      ≡ (if same_end (other_end e) at then [] else [])
        ++ (outgoing e
            (with_incoming at (record (incoming at link) { receiver_waker = wait }) link)).packets
waiting_order a_end b_end link wait = refl
waiting_order b_end a_end link wait = refl
waiting_order a_end a_end link wait = refl
waiting_order b_end b_end link wait = refl

poll_order :
    (e at : End) (waker : ℕ) (link : Link)
    → (outgoing e link).packets
      ≡ delivered e (polls at waker) link ++ (outgoing e (step (polls at waker) link)).packets
poll_order e at waker link =
    let goal : (Poll × Link) → Type 0 = λ s.
      (outgoing e link).packets
      ≡ (if same_end (other_end e) at then when_ready s.0 else []) ++ (outgoing e s.1).packets in
    elim (poll-cases at waker link) [
      | inl (packet, rest, has, out) ↦ subst goal (sym out) (ready_order e at link packet rest has)
      | inr (empty, (x, wait, silent, out)) ↦
          let quiet =
            ap
              (λ (p : List InboundPacket).
                (if same_end (other_end e) at then p else [])
                ++ (outgoing e (
                    with_incoming at (record (incoming at link) { receiver_waker = wait })
                      link)).packets)
              (sym silent) in
          subst goal (sym out) (waiting_order e at link wait ∙ quiet)
    ]

drop_order :
    (e at : End) (link : Link)
    → (outgoing e (step (drops at) link)).packets ≡ (outgoing e link).packets
unfolding drop_transport
drop_order a_end a_end link = refl
drop_order b_end b_end link = refl
drop_order a_end b_end link = refl
drop_order b_end a_end link = refl

step_order :
    (e : End) (c : Call) (link : Link)
    → (outgoing e link).packets ++ accepted e c link
      ≡ delivered e c link ++ (outgoing e (step c link)).packets
step_order e (sends at packet) link = send_order e at packet link
step_order e (polls at waker) link = append-nil _ ∙ poll_order e at waker link
step_order e (drops at) link = append-nil _ ∙ sym (drop_order e at link)

-- In any sequence of calls at the two ends, the packets that were waiting and those taken over from
-- one end are, in that order, those handed out at the other end and those still waiting: none is
-- lost, repeated or overtaken.
pub run_order :
    (e : End) (calls : List Call) (link : Link)
    → (outgoing e link).packets ++ all_accepted e calls link
      ≡ all_delivered e calls link ++ (outgoing e (run calls link)).packets
run_order e [] link = append-nil _
run_order e (c ∷ calls) link =
    sym (append_assoc _ (accepted e c link) _)
    ∙ ap (λ (xs : List InboundPacket). xs ++ all_accepted e calls (step c link))
        (step_order e c link)
    ∙ append_assoc (delivered e c link) _ _
    ∙ ap (λ (xs : List InboundPacket). delivered e c link ++ xs) (run_order e calls (step c link))
    ∙ sym (append_assoc (delivered e c link) _ _)
