-- ===== src/Engine/Server/Admit.antt =====
-- Client hellos in `ServerEngine` of crates/udp2raw-ng-core/src/engine.rs: `handle_client_hello`.
use udp2raw_ng.Prelude.{
  ℕ, ◌+◌, Bool, true, false, not, ◌&&◌, ◌||◌, Option, none, some, List, [], ◌∷◌, ◌==◌, ◌=bytes◌,
  leb, if◌then◌else◌, is_some, length, Result, ok, err,
}
use udp2raw_ng.Prelude.Bytes.{from_be}
use udp2raw_ng.Prelude.Maps.{Map, lookup, insert}
use udp2raw_ng.Errors.{
  EngineError, HandshakeError, cipher_suite_mismatch, handshake_rate_limited,
  pending_handshake_capacity, per_peer_pending_handshake_capacity, randomness_unavailable,
}
use udp2raw_ng.Crypto.{Primitives}
use udp2raw_ng.Protocol.{WireFrame, encode}
use udp2raw_ng.Entropy.{Entropy}
use udp2raw_ng.Handshake.Messages.{
  ClientHello, ServerHello, ResumptionCredential, client_hello_payload, decode_client_hello,
  retry_frame, server_hello_frame,
}
use udp2raw_ng.Handshake.Auth.{
  same_suite, create_retry, verify_cookie, create_server_hello, verify_resumption_credential,
}
use udp2raw_ng.Engine.Events.{TunnelAction, send_tunnel_frame, schedule_timer}
use udp2raw_ng.Engine.Monad.{returns, pure, get_state, modify, ◌>>=◌, ◌>>◌, require, lift}
use udp2raw_ng.Engine.Server.{
  ServerEngine, ServerSession, ResumableSession, PendingHandshake, Server, now_ms,
}
use udp2raw_ng.Engine.Server.Rate.{allow_handshake_attempt}

abbrev pub same_hello : ℕ → ClientHello → PendingHandshake → Bool
same_hello peer_id hello pending =
    (pending.peer_id == peer_id)
    && (client_hello_payload pending.client_hello =bytes client_hello_payload hello)

-- `find`: the pending handshake that the peer began with the same hello.
abbrev pub pending_hello : ℕ → ClientHello → Map PendingHandshake → Option (ℕ × PendingHandshake)
pending_hello peer_id hello [] = none
pending_hello peer_id hello (p ∷ rest) =
    if same_hello peer_id hello p.1 then some p else pending_hello peer_id hello rest

-- `filter(..).count()`
abbrev pub pending_of : ℕ → Map PendingHandshake → ℕ
pending_of peer_id [] = 0
pending_of peer_id (p ∷ rest) =
    let more = pending_of peer_id rest in if p.1.peer_id == peer_id then more + 1 else more

-- The tests of a candidate for the id of a session.
abbrev pub is_unused : ServerEngine → ℕ → Bool
is_unused s candidate =
    not (candidate == 0)
    && (not (is_some (lookup s.pending candidate))
        && (not (is_some (lookup s.sessions candidate))
            && not (is_some (lookup s.resumable candidate))))

-- The `loop` with `SessionId::generate`, on the answers of the random source.
unfoldable pub draw_unused : (ℕ → Bool) → Entropy → Result EngineError ℕ × Entropy
draw_unused unused [] = (err randomness_unavailable, [])
draw_unused unused (none ∷ rest) = (err randomness_unavailable, rest)
draw_unused unused (some bytes ∷ rest) =
    let again = draw_unused unused rest in
    if unused (from_be bytes) then (ok (from_be bytes), rest) else again

unfoldable pub draw_session_id : Server ℕ
draw_session_id s =
    let (answer, entropy) = draw_unused (is_unused s) s.entropy in
    lift (λ e. e) answer (record s { entropy = entropy })

-- Whether an active or a resumable session has the conversation of a credential.
abbrev active_matches : Option ServerSession → ℕ → Bool
active_matches none conversation_id = false
active_matches (some session) conversation_id =
    is_some (lookup session.conversations conversation_id) && is_some session.resumption_credential

abbrev resumable_matches : Option ResumableSession → ℕ → Bool
resumable_matches none conversation_id = false
resumable_matches (some session) conversation_id =
    is_some (lookup session.conversations conversation_id)

abbrev pub resumes_to : ServerEngine → Result HandshakeError (ℕ × ℕ) → Option ℕ
resumes_to s (err e) = none
resumes_to s (ok (session_id, conversation_id)) =
    if active_matches (lookup s.sessions session_id) conversation_id
      || resumable_matches (lookup s.resumable session_id) conversation_id
    then some session_id
    else none

abbrev pub is_source : ℕ → Option ℕ → Bool
is_source session_id none = false
is_source session_id (some source) = source == session_id

-- `any`: a pending handshake resumes the session already.
abbrev pub already_resumed : ℕ → Map PendingHandshake → Bool
already_resumed session_id [] = false
already_resumed session_id (p ∷ rest) =
    is_source session_id p.1.resume_from || already_resumed session_id rest

abbrev pub unless_resumed : Map PendingHandshake → Option ℕ → Option ℕ
unless_resumed pending none = none
unless_resumed pending (some session_id) =
    if already_resumed session_id pending then none else some session_id

abbrev pub is_ok : Result HandshakeError (Unit {0}) → Bool
is_ok (ok u) = true
is_ok (err e) = false

-- The retry, or what follows it.
abbrev pub or_admit :
    Option (List TunnelAction) → Server (List TunnelAction) → Server (List TunnelAction)
or_admit none rest = rest
or_admit (some actions) rest = pure actions

module _ (c : Primitives) where
  -- `resume_from` of `handle_client_hello`, with both of its steps.
  abbrev pub resume_from : ServerEngine → ℕ → Option ResumptionCredential → Option ℕ
  resume_from s at none = none
  resume_from s at (some credential) =
      unless_resumed s.pending
        (resumes_to s (verify_resumption_credential c s.cookie_secret credential at))

  -- `ServerHello::create`, from the random source of the engine.
  unfoldable pub draw_server_hello : ClientHello → ℕ → Bool → Server ServerHello
  draw_server_hello hello session_id resumed s =
      let (answer, entropy) = create_server_hello c s.psk hello session_id resumed s.entropy in
      lift (λ e. e) answer (record s { entropy = entropy })

  unfoldable pub retry_with : ℕ → ClientHello → ℕ → Server (Option (List TunnelAction))
  retry_with peer_id hello at = do
    s ← get_state
    retry ← lift EngineError.crypto (create_retry c s.psk s.cookie_secret hello peer_id at)
    bytes ← lift EngineError.frame (encode (retry_frame retry))
    pure (some (send_tunnel_frame peer_id bytes ∷ []))

  -- The retry that a hello without a valid cookie gets, if cookies are required.
  unfoldable pub retry_for : ℕ → ClientHello → ℕ → Server (Option (List TunnelAction))
  retry_for peer_id hello now s =
      if s.config.require_handshake_cookie
      then (do
        at ← now_ms now
        (if is_ok
              (verify_cookie c s.cookie_secret hello peer_id at s.config.handshake_cookie_lifetime)
            then pure none
            else retry_with peer_id hello at))
          s
      else (returns none, s)

  -- `handle_client_hello` for a hello that no pending handshake has.
  unfoldable pub begin_pending : ℕ → ClientHello → ℕ → Server (List TunnelAction)
  begin_pending peer_id hello now = do
    s ← get_state
    require (not (leb s.config.max_pending_handshakes (length s.pending)))
        pending_handshake_capacity
    require (not (leb s.config.max_pending_handshakes_per_peer (pending_of peer_id s.pending)))
        per_peer_pending_handshake_capacity
    session_id ← draw_session_id
    at ← now_ms now
    let source = resume_from s at hello.resumption
    server_hello ← draw_server_hello hello session_id (is_some source)
    bytes ← lift EngineError.frame (encode (server_hello_frame server_hello session_id))
    modify (λ (t : ServerEngine). record t {
      pending = insert t.pending session_id (record {
        peer_id = peer_id;
        created_at = now;
        client_hello = hello;
        server_hello = server_hello;
        resume_from = source;
      });
    })
    pure (send_tunnel_frame peer_id bytes ∷ schedule_timer s.config.handshake_timeout ∷ [])

  unfoldable pub admit_hello : ℕ → ClientHello → ℕ → Server (List TunnelAction)
  admit_hello peer_id hello now s = elim (pending_hello peer_id hello s.pending) [
    | some found ↦
        (do
          bytes ← lift EngineError.frame (encode (server_hello_frame found.1.server_hello found.0))
          pure (send_tunnel_frame peer_id bytes ∷ []))
          s
    | none ↦ begin_pending peer_id hello now s
  ]

  unfoldable pub handle_client_hello : ℕ → WireFrame → ℕ → Server (List TunnelAction)
  handle_client_hello peer_id frame now = do
    hello ← lift EngineError.handshake (decode_client_hello frame)
    s ← get_state
    require (same_suite hello.suite s.config.cipher_suite)
        (EngineError.handshake cipher_suite_mismatch)
    allowed ← allow_handshake_attempt peer_id now
    require allowed handshake_rate_limited
    retry ← retry_for peer_id hello now
    or_admit retry (admit_hello peer_id hello now)
