-- ===== src/Net/Memory/Examples.antt =====
-- Two transports of one place each, and the theorems on them.
use udp2raw_ng.Prelude.{ℕ, ◌≤◌, ◌≡◌, ◌≢◌, refl, none, some, List, [], ◌∷◌, ◌++◌, ok, err, length}
use udp2raw_ng.Net.{OutboundPacket, InboundPacket}
use udp2raw_ng.Net.Memory.{
  a_end, b_end, Link, outgoing, incoming, open_queue, memory_transport_pair, send, failed, pending,
  poll_receive, drop_transport, peer_closed,
}
use udp2raw_ng.Net.Memory.Order.{Call, sends, polls, run, all_accepted, all_delivered, run_order}
use udp2raw_ng.Net.Memory.Wakes.{IsAsleep, waiting_after}
use udp2raw_ng.Net.Memory.Queues.{run-memory_transport_pair, drop_transport_lem}

abbrev fresh : Link
fresh = record { a_to_b = open_queue 1; b_to_a = open_queue 1 }

made : memory_transport_pair 1 ≡ ok fresh
unfolding memory_transport_pair
made = refl

abbrev to_b : ℕ → OutboundPacket
to_b n = record { peer_id = 2; frame = n ∷ [] }

-- The second packet finds the queue full.
abbrev calls : List Call
calls =
    polls b_end 40
    ∷ sends a_end (to_b 5)
    ∷ sends a_end (to_b 6)
    ∷ polls b_end 41
    ∷ sends a_end (to_b 7)
    ∷ []

abbrev from_a : ℕ → InboundPacket
from_a n = record { peer_id = 1; frame = n ∷ [] }

taken_over : all_accepted a_end calls fresh ≡ from_a 5 ∷ from_a 7 ∷ []
unfolding send poll_receive
taken_over = refl

handed_out : all_delivered a_end calls fresh ≡ from_a 5 ∷ []
unfolding send poll_receive
handed_out = refl

run_order_example :
    (outgoing a_end fresh).packets ++ all_accepted a_end calls fresh
    ≡ all_delivered a_end calls fresh ++ (outgoing a_end (run calls fresh)).packets
run_order_example = run_order a_end calls fresh

-- A second poll is told to wait once the packet that woke the first one is gone.
abbrev calls_and_polls : List Call
calls_and_polls = polls b_end 40 ∷ sends a_end (to_b 5) ∷ polls b_end 41 ∷ polls b_end 42 ∷ []

waits_again : waiting_after a_end calls_and_polls fresh none ≡ some 42
unfolding send poll_receive
waits_again = refl

woken_by_packet : waiting_after a_end calls fresh none ≡ none
unfolding send poll_receive
woken_by_packet = refl

run-memory_transport_pair_example :
    (length (outgoing a_end (run calls_and_polls fresh)).packets ≤ 1)
    × IsAsleep
        (waiting_after a_end calls_and_polls fresh none)
        (outgoing a_end (run calls_and_polls fresh))
run-memory_transport_pair_example = run-memory_transport_pair 1 fresh calls_and_polls a_end made

-- A link at whose second end a receiver waits.
abbrev waiting : Link
waiting = record fresh { a_to_b = record (open_queue 1) { receiver_waker = some 40 } }

drop_transport_lem_example :
    ((packet : OutboundPacket)
      → (send b_end packet (drop_transport a_end waiting).0).0 ≡ err peer_closed)
    × ((waker : ℕ)
        → (outgoing a_end waiting).packets ≡ []
        → (poll_receive b_end waker (drop_transport a_end waiting).0).0 ≡ failed peer_closed)
    × ((waker : ℕ) → (poll_receive b_end waker (drop_transport a_end waiting).0).0 ≢ pending)
    × ((drop_transport a_end waiting).1 ≡ (incoming a_end waiting).receiver_waker)
    × ((outgoing a_end (drop_transport a_end waiting).0).receiver_waker
        ≡ (outgoing a_end waiting).receiver_waker)
drop_transport_lem_example = drop_transport_lem a_end waiting
