-- ===== src/Engine/Server/Finish.antt =====
-- Client finishes in `ServerEngine` of crates/udp2raw-ng-core/src/engine.rs: `handle_client_finish`.
use udp2raw_ng.Prelude.{
  ℕ, ◌+◌, Bool, false, not, ◌||◌, Option, none, some, List, [], ◌∷◌, ◌++◌, ◌==◌, ◌=bytes◌, leb,
  if◌then◌else◌, is_some, length,
}
use udp2raw_ng.Prelude.Maps.{Map, lookup, insert, remove}
use udp2raw_ng.Errors.{
  EngineError, HandshakeError, unexpected_peer, session_capacity, unknown_pending_handshake,
}
use udp2raw_ng.Config.{EngineConfig}
use udp2raw_ng.Crypto.{Primitives, SessionKeys, client_to_server, server_to_client}
use udp2raw_ng.Protocol.{WireFrame, encode, handshake_ack}
use udp2raw_ng.Replay.{ReplayWindow, new}
use udp2raw_ng.Record.{RecordSealer, new_sealer, new_opener, seal}
use udp2raw_ng.Handshake.Messages.{ResumptionCredential, decode_client_finish}
use udp2raw_ng.Handshake.Auth.{verify_client_finish, session_keys}
use udp2raw_ng.Engine.Handles.{new_handles}
use udp2raw_ng.Engine.Events.{
  TunnelAction, send_tunnel_frame, session_established, session_resumed, schedule_timer,
}
use udp2raw_ng.Engine.Monad.{
  pure, get_state, modify, ◌>>=◌, ◌>>◌, require, or_raise, or_panic, lift,
}
use udp2raw_ng.Engine.Server.{
  ServerEngine, ServerSession, ResumableSession, PendingHandshake, Server,
}

-- The conversations that a session takes over from the one it resumes.
abbrev pub taken_over : Option ServerSession → Option ResumableSession → Map ℕ
taken_over (some session) resumable = session.conversations
taken_over none (some resumable) = resumable.conversations
taken_over none none = []

abbrev pub inherited : Option ℕ → ServerEngine → Map ℕ
inherited none s = []
inherited (some old_session_id) s =
    taken_over (lookup s.sessions old_session_id) (lookup s.resumable old_session_id)

-- The state without the session that is resumed.
abbrev pub without_source : Option ℕ → ServerEngine → ServerEngine
without_source none s = s
without_source (some old_session_id) s =
    if is_some (lookup s.sessions old_session_id)
    then record s { sessions = remove s.sessions old_session_id }
    else record s { resumable = remove s.resumable old_session_id }

abbrev lasting : ℕ → Option ResumptionCredential → Option (ResumptionCredential × ℕ)
lasting expires_at none = none
lasting expires_at (some credential) = some (credential, expires_at)

-- `resumption_credential` of `handle_client_finish`.
abbrev pub kept_credential :
    ℕ → Map ℕ → Option ResumptionCredential → Option (ResumptionCredential × ℕ)
kept_credential expires_at [] credential = none
kept_credential expires_at (p ∷ rest) credential = lasting expires_at credential

abbrev pub replaces_active : ServerEngine → Option ℕ → Bool
replaces_active s none = false
replaces_active s (some old_session_id) = is_some (lookup s.sessions old_session_id)

abbrev resumed_actions : ℕ → ℕ → Option ℕ → List TunnelAction
resumed_actions peer_id session_id none = []
resumed_actions peer_id session_id (some old_session_id) =
    session_resumed peer_id old_session_id session_id ∷ []

-- The actions for a session that is established.
abbrev pub establishing : ℕ → ℕ → Option ℕ → List ℕ → EngineConfig → List TunnelAction
establishing peer_id session_id source ack config =
    send_tunnel_frame peer_id ack
    ∷ session_established peer_id session_id config.cipher_suite (is_some source)
    ∷ (resumed_actions peer_id session_id source
        ++ (schedule_timer config.session_idle_timeout ∷ []))

-- The session of `handle_client_finish`.
abbrev pub opened_session :
    EngineConfig
    → PendingHandshake
    → ℕ
    → SessionKeys
    → List ℕ × RecordSealer
    → List ℕ
    → ReplayWindow
    → Map ℕ
    → ℕ
    → ServerSession
opened_session config pending session_id keys acked client_finish window conversations now =
    record {
      peer_id = pending.peer_id;
      sealer = acked.1;
      opener = new_opener config.cipher_suite client_to_server session_id keys.to_server window;
      handshake_ack = acked.0;
      client_finish = client_finish;
      conversations = conversations;
      handles = new_handles;
      resumed_from = pending.resume_from;
      resumption_credential =
          kept_credential (now + config.resumption_lifetime) conversations
            pending.client_hello.resumption;
      last_activity = now;
      expires_at = now + config.session_idle_timeout;
    }

abbrev pub with_opened : ℕ → ServerSession → ServerEngine → ServerEngine
with_opened session_id session s = record s {
  sessions = insert s.sessions session_id session;
  pending = remove s.pending session_id;
}

module _ (c : Primitives) where
  -- The finish of an established session comes again: so does its acknowledgement.
  unfoldable pub repeat_ack : ServerSession → ℕ → WireFrame → Server (List TunnelAction)
  repeat_ack session peer_id frame = do
    require (session.peer_id == peer_id) unexpected_peer
    bytes ← lift EngineError.frame (encode frame)
    require (session.client_finish =bytes bytes)
        (EngineError.handshake HandshakeError.authentication_failed)
    pure (send_tunnel_frame peer_id session.handshake_ack ∷ [])

  -- `handle_client_finish` from the sealing of the acknowledgement on.
  unfoldable pub establish :
      PendingHandshake → SessionKeys → ℕ → WireFrame → ℕ → Server (List TunnelAction)
  establish pending keys peer_id frame now = do
    s ← get_state
    acked ← lift EngineError.record_error (
        seal c (new_sealer s.config.cipher_suite server_to_client frame.session_id keys.to_client)
          handshake_ack none [])
    client_finish ← lift EngineError.frame (encode frame)
    modify (without_source pending.resume_from)
    window ← or_panic (new s.config.replay_window_size)
    modify (
        with_opened frame.session_id (
          opened_session s.config pending frame.session_id keys acked client_finish window
            (inherited pending.resume_from s) now))
    pure (establishing peer_id frame.session_id pending.resume_from acked.0 s.config)

  unfoldable pub finish_pending : ℕ → WireFrame → ℕ → Server (List TunnelAction)
  finish_pending peer_id frame now = do
    s ← get_state
    pending ←
        or_raise (lookup s.pending frame.session_id)
          (EngineError.handshake unknown_pending_handshake)
    require (pending.peer_id == peer_id) unexpected_peer
    require
        (not (leb s.config.max_sessions (length s.sessions))
          || replaces_active s pending.resume_from)
        session_capacity
    finish ← lift EngineError.handshake (decode_client_finish frame)
    lift EngineError.handshake (
        verify_client_finish c finish s.psk pending.client_hello pending.server_hello
          frame.session_id)
    keys ←
        lift EngineError.crypto
          (session_keys c s.psk pending.client_hello pending.server_hello frame.session_id)
    establish pending keys peer_id frame now

  unfoldable pub handle_client_finish : ℕ → WireFrame → ℕ → Server (List TunnelAction)
  handle_client_finish peer_id frame now s = elim (lookup s.sessions frame.session_id) [
    | some session ↦ repeat_ack session peer_id frame s
    | none ↦ finish_pending peer_id frame now s
  ]
