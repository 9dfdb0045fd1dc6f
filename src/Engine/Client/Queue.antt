-- ===== src/Engine/Client/Queue.antt =====
-- The queue of datagrams that wait for a session, in `ClientEngine` of
-- crates/udp2raw-ng-core/src/engine.rs.
use udp2raw_ng.Prelude.{ℕ, ◌-◌, Bool, List, [], ◌∷◌, ◌++◌, leb, if◌then◌else◌, length}
use udp2raw_ng.Engine.Events.{
  ClientDatagramDropReason, reconnect_queue_full, reconnect_queue_expired, TunnelAction,
  client_datagram_dropped, schedule_timer,
}
use udp2raw_ng.Engine.Client.{ClientEngine, QueuedClientDatagram}

-- `enqueue_reconnect_datagram`
unfoldable pub enqueue_reconnect_datagram :
    ℕ → List ℕ → ℕ → ClientEngine → List TunnelAction × ClientEngine
enqueue_reconnect_datagram local_peer payload now s =
    if leb s.config.reconnect_queue_capacity (length s.queued_datagrams)
    then (client_datagram_dropped local_peer reconnect_queue_full ∷ [], s)
    else (
      schedule_timer s.config.reconnect_queue_timeout ∷ [],
      record s {
        queued_datagrams =
            s.queued_datagrams
            ++ (record { local_peer = local_peer; payload = payload; queued_at = now } ∷ []);
      },
    )

-- Whether a datagram has waited for the timeout.
abbrev pub overdue : ℕ → ℕ → QueuedClientDatagram → Bool
overdue timeout now queued = leb timeout (now - queued.queued_at)

-- The loop of `expire_queued_datagrams`: the datagrams that are left and the actions.
unfoldable pub drop_overdue :
    ℕ → ℕ → List QueuedClientDatagram → List QueuedClientDatagram × List TunnelAction
drop_overdue timeout now [] = ([], [])
drop_overdue timeout now (queued ∷ rest) =
    let (left, actions) = drop_overdue timeout now rest in
    if overdue timeout now queued
    then (left, client_datagram_dropped queued.local_peer reconnect_queue_expired ∷ actions)
    else (queued ∷ rest, [])

abbrev timer_if_any : ℕ → List QueuedClientDatagram → List TunnelAction
timer_if_any timeout [] = []
timer_if_any timeout (queued ∷ rest) = schedule_timer timeout ∷ []

unfoldable pub expire_queued_datagrams : ℕ → ClientEngine → List TunnelAction × ClientEngine
expire_queued_datagrams now s =
    let timeout = s.config.reconnect_queue_timeout in
    let (left, actions) = drop_overdue timeout now s.queued_datagrams in
    (actions ++ timer_if_any timeout left, record s { queued_datagrams = left })

abbrev pub dropped_for : ClientDatagramDropReason → List QueuedClientDatagram → List TunnelAction
dropped_for reason [] = []
dropped_for reason (queued ∷ rest) =
    client_datagram_dropped queued.local_peer reason ∷ dropped_for reason rest

-- `clear_queued_datagrams`
unfoldable pub clear_queued_datagrams :
    ClientDatagramDropReason → ClientEngine → List TunnelAction × ClientEngine
clear_queued_datagrams reason s =
    (dropped_for reason s.queued_datagrams, record s { queued_datagrams = [] })
