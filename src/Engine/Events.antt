-- ===== src/Engine/Events.antt =====
-- The events that the engines of crates/udp2raw-ng-core/src/engine.rs take and the actions that they
-- return. An `Instant` and a `Duration` are numbers of nanoseconds, a `SocketAddr` is a number.
use mathlib.Core.Bool.{Bool, true, false}
use mathlib.Core.Option.{Option}
use udp2raw_ng.Prelude.{ℕ, List}
use udp2raw_ng.Config.{CipherSuite}

pub data SessionState : Type 0 where
  idle : SessionState
  handshaking : SessionState
  ready : SessionState
  reconnecting : SessionState
  closed : SessionState

-- `matches!` and `==` on a state
abbrev pub is_idle : SessionState → Bool
is_idle idle = true
is_idle _ = false

abbrev pub is_ready : SessionState → Bool
is_ready ready = true
is_ready _ = false

abbrev pub is_reconnecting : SessionState → Bool
is_reconnecting reconnecting = true
is_reconnecting _ = false

abbrev pub is_handshaking_state : SessionState → Bool
is_handshaking_state handshaking = true
is_handshaking_state reconnecting = true
is_handshaking_state _ = false

pub data ClientDatagramDropReason : Type 0 where
  reconnect_queue_full : ClientDatagramDropReason
  reconnect_queue_expired : ClientDatagramDropReason
  session_closed_reason : ClientDatagramDropReason

pub data TunnelEvent : Type 0 where
  start_event : TunnelEvent
  reconnect_event : TunnelEvent
  -- the local peer and the payload
  client_datagram : ℕ → List ℕ → TunnelEvent
  -- the session, the conversation and the payload
  server_datagram : ℕ → ℕ → List ℕ → TunnelEvent
  -- the peer and the bytes
  tunnel_frame : ℕ → List ℕ → TunnelEvent
  time_advanced : ℕ → TunnelEvent
  -- the session, if it is named, and the conversation
  close_conversation : Option ℕ → ℕ → TunnelEvent

pub data TunnelAction : Type 0 where
  -- the peer and the bytes
  send_tunnel_frame : ℕ → List ℕ → TunnelAction
  -- the local peer and the payload
  deliver_to_client : ℕ → List ℕ → TunnelAction
  -- the session, the conversation and the payload
  deliver_to_upstream : ℕ → ℕ → List ℕ → TunnelAction
  -- the peer, the session, the suite and whether the session is resumed
  session_established : ℕ → ℕ → CipherSuite → Bool → TunnelAction
  -- the peer, the old and the new session
  session_resumed : ℕ → ℕ → ℕ → TunnelAction
  -- the peer and the session
  session_closed : ℕ → ℕ → TunnelAction
  session_recovery_expired : ℕ → TunnelAction
  -- the session, if there is one, and the conversation
  conversation_opened : Option ℕ → ℕ → TunnelAction
  conversation_closed : Option ℕ → ℕ → TunnelAction
  -- the local peer and the reason
  client_datagram_dropped : ℕ → ClientDatagramDropReason → TunnelAction
  schedule_timer : ℕ → TunnelAction
