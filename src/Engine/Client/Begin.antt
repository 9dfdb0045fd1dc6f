-- ===== src/Engine/Client/Begin.antt =====
-- How `ClientEngine` of crates/udp2raw-ng-core/src/engine.rs begins a handshake, at the start and
-- anew.
use udp2raw_ng.Prelude.{
  ℕ, ◌-◌, Bool, true, false, ◌&&◌, Option, none, some, List, [], ◌∷◌, ◌++◌, leb, ◌==◌,
  if◌then◌else◌,
}
use udp2raw_ng.Prelude.Maps.{Map}
use udp2raw_ng.Errors.{EngineError, session_not_ready}
use udp2raw_ng.Protocol.{encode}
use udp2raw_ng.Handshake.Messages.{
  ClientHello, ResumptionCredential, generate_client_hello, client_hello_frame,
}
use udp2raw_ng.Engine.Events.{
  SessionState, reconnecting, closed, is_idle, is_ready, is_reconnecting, TunnelAction,
  send_tunnel_frame, session_closed, schedule_timer,
}
use udp2raw_ng.Engine.Monad.{
  Outcome, returns, raises, panics, pure, raise, get_state, modify, ◌>>=◌, ◌>>◌, require, lift,
}
use udp2raw_ng.Engine.Client.{ClientEngine, ClientConversation, Client, awaiting_server_hello}

-- The first credential that a conversation holds, and the session that issued it.
abbrev pub first_credential : Map ClientConversation → Option (ℕ × ResumptionCredential)
first_credential [] = none
first_credential ((peer, conversation) ∷ rest) = elim conversation.resumption [
  | some found ↦ some found
  | none ↦ first_credential rest
]

abbrev issued_by : ℕ → Option (ℕ × ResumptionCredential) → Bool
issued_by session_id none = false
issued_by session_id (some (candidate, credential)) = candidate == session_id

-- `all(..)`: every conversation holds a credential that the session issued.
abbrev pub all_issued_by : ℕ → Map ClientConversation → Bool
all_issued_by session_id [] = true
all_issued_by session_id ((peer, conversation) ∷ rest) =
    issued_by session_id conversation.resumption && all_issued_by session_id rest

-- The credential that a reconnection offers.
unfoldable pub offered : Map ClientConversation → Option ResumptionCredential
offered by_peer = elim (first_credential by_peer) [
  | none ↦ none
  | some (session_id, credential) ↦
      if all_issued_by session_id by_peer then some credential else none
]

-- `ClientHello::generate`, from the random source of the engine.
unfoldable pub draw_hello : Option ResumptionCredential → Client ClientHello
draw_hello resumption s =
    let (answer, entropy) = generate_client_hello s.config.cipher_suite resumption s.entropy in
    lift (λ e. e) answer (record s { entropy = entropy })

-- The state that `begin_handshake` leaves, once the hello is written.
abbrev pub begun : ClientHello → ℕ → SessionState → ClientEngine → ClientEngine
begun hello now state s = record s {
  handshake = some (record {
    hello = hello;
    phase = awaiting_server_hello;
    started_at = now;
    last_sent_at = now;
    attempts = 1;
  });
  state = state;
}

unfoldable pub begin_handshake : ℕ → SessionState → Client (List TunnelAction)
begin_handshake now state = do
  s ← get_state
  hello ← draw_hello (if is_reconnecting state then offered s.by_peer else none)
  bytes ← lift EngineError.frame (encode (client_hello_frame hello))
  modify (begun hello now state)
  pure (
      send_tunnel_frame s.server_peer bytes ∷ schedule_timer s.config.handshake_retry_interval ∷ [])

abbrev pub closing : ClientEngine → List TunnelAction
closing s = elim s.session [
  | none ↦ []
  | some session ↦ session_closed s.server_peer session.id ∷ []
]

-- `begin_reconnect` after the call of `begin_handshake`. The call does not panic.
abbrev pub reconnected :
    List TunnelAction
    → Outcome (List TunnelAction) × ClientEngine
    → List TunnelAction × ClientEngine
reconnected actions (returns more, s) = (actions ++ more, s)
reconnected actions (raises e, s) = (actions, record s { state = closed })
reconnected actions (panics, s) = (actions, s)

unfoldable pub begin_reconnect : ℕ → ClientEngine → List TunnelAction × ClientEngine
begin_reconnect now s =
    reconnected (closing s)
      (begin_handshake now reconnecting (record s { session = none; handshake = none }))

-- `start` and `reconnect`
unfoldable pub start : ℕ → Client (List TunnelAction)
start now = do
  s ← get_state
  require (is_idle s.state) session_not_ready
  begin_handshake now SessionState.handshaking

unfoldable pub reconnect : ℕ → Client (List TunnelAction)
reconnect now s =
    if is_ready s.state
    then (let (actions, s') = begin_reconnect now s in (returns actions, s'))
    else raise session_not_ready s

unfoldable pub ready_session_is_stale : ℕ → ClientEngine → Bool
ready_session_is_stale now s = elim s.session [
  | none ↦ false
  | some session ↦ leb s.config.session_timeout (now - session.last_received_at)
]
