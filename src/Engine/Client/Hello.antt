-- ===== src/Engine/Client/Hello.antt =====
-- The server's handshake messages in `ClientEngine` of crates/udp2raw-ng-core/src/engine.rs: the
-- retry and the server hello.
use udp2raw_ng.Prelude.{
  ℕ, ◌+◌, ◌-◌, ◌^◌, Bool, true, false, ◌&&◌, Option, none, some, List, [], ◌∷◌, ◌==◌, ◌=bytes◌,
  if◌then◌else◌, min,
}
use udp2raw_ng.Prelude.Maps.{Map}
use udp2raw_ng.Errors.{EngineError, session_not_ready, unexpected_message}
use udp2raw_ng.Crypto.{Primitives, client_to_server, server_to_client}
use udp2raw_ng.Protocol.{WireFrame, encode}
use udp2raw_ng.Replay.{new}
use udp2raw_ng.Record.{new_sealer, new_opener}
use udp2raw_ng.Handshake.Messages.{
  ServerHello, ResumptionCredential, client_hello_frame, decode_retry, decode_server_hello,
  server_hello_payload, client_finish_frame,
}
use udp2raw_ng.Handshake.Auth.{
  verify_and_apply, verify_server_hello, create_client_finish, session_keys,
}
use udp2raw_ng.Engine.Handles.{new_handles}
use udp2raw_ng.Engine.Events.{TunnelAction, send_tunnel_frame, schedule_timer}
use udp2raw_ng.Engine.Monad.{
  pure, get_state, modify, ◌>>=◌, ◌>>◌, require, or_raise, or_panic, lift,
}
use udp2raw_ng.Engine.Client.{
  ClientEngine, ClientConversation, ClientHandshake, ClientHandshakePhase, ClientSession, Client,
  awaiting_server_hello, awaiting_server_ack, session_id_of, is_handshaking,
}

-- `saturating_add(1)` of a `usize`
abbrev pub one_more : ℕ → ℕ
one_more n = min (n + 1) (2 ^ 64 - 1)

-- A handshake that has just sent again.
abbrev pub sent_again : ℕ → ClientHandshake → ClientHandshake
sent_again now handshake = record handshake {
  last_sent_at = now;
  attempts = one_more handshake.attempts;
}

abbrev pub with_handshake : ClientHandshake → ClientEngine → ClientEngine
with_handshake handshake s = record s { handshake = some handshake }

-- The frame and the timer that end each of these methods.
abbrev pub sending : ClientEngine → List ℕ → List TunnelAction
sending s bytes =
    send_tunnel_frame s.server_peer bytes ∷ schedule_timer s.config.handshake_retry_interval ∷ []

abbrev pub awaits_hello : ClientHandshakePhase → Bool
awaits_hello awaiting_server_hello = true
awaits_hello (awaiting_server_ack hello bytes) = false

abbrev holds : ResumptionCredential → Option (ℕ × ResumptionCredential) → Option ℕ
holds credential none = none
holds credential (some (session_id, candidate)) =
    if candidate =bytes credential then some session_id else none

-- `find_map`: the session that issued the credential, by the conversations.
abbrev pub issuer_of : ResumptionCredential → Map ClientConversation → Option ℕ
issuer_of credential [] = none
issuer_of credential ((peer, conversation) ∷ rest) =
    elim (holds credential conversation.resumption) [
      | some session_id ↦ some session_id
      | none ↦ issuer_of credential rest
    ]

abbrev pub resumption_source_of : Option ResumptionCredential → Map ClientConversation → Option ℕ
resumption_source_of none by_peer = none
resumption_source_of (some credential) by_peer = issuer_of credential by_peer

module _ (c : Primitives) where
  unfoldable pub handle_hello_retry : WireFrame → ℕ → Client (List TunnelAction)
  handle_hello_retry frame now = do
    s ← get_state
    require (is_handshaking s) (EngineError.handshake unexpected_message)
    handshake ← or_raise s.handshake session_not_ready
    require (awaits_hello handshake.phase) (EngineError.handshake unexpected_message)
    retry ← lift EngineError.handshake (decode_retry frame)
    hello ← lift EngineError.handshake (verify_and_apply c retry s.psk handshake.hello)
    modify (with_handshake (record handshake { hello = hello }))
    bytes ← lift EngineError.frame (encode (client_hello_frame hello))
    modify (with_handshake (sent_again now (record handshake { hello = hello })))
    pure (sending s bytes)

  -- The server hello that comes again: the finish is sent again.
  unfoldable pub repeat_finish :
      ServerHello → ServerHello → List ℕ → ClientHandshake → ℕ → ℕ → Client (List TunnelAction)
  repeat_finish expected server_hello finish_bytes handshake session_id now = do
    s ← get_state
    require
        (server_hello_payload expected =bytes server_hello_payload server_hello
          && (elim (session_id_of s.session) [ some id ↦ id == session_id | none ↦ false ]))
        (EngineError.handshake unexpected_message)
    modify (with_handshake (sent_again now handshake))
    pure (sending s finish_bytes)

  -- The session of `handle_server_hello`.
  unfoldable pub make_session : ServerHello → ClientHandshake → ℕ → ℕ → Client ClientSession
  make_session server_hello handshake session_id now = do
    s ← get_state
    keys ← lift EngineError.crypto (session_keys c s.psk handshake.hello server_hello session_id)
    window ← or_panic (new s.config.replay_window_size)
    pure (record {
      id = session_id;
      sealer = new_sealer s.config.cipher_suite client_to_server session_id keys.to_server;
      opener = new_opener s.config.cipher_suite server_to_client session_id keys.to_client window;
      last_received_at = now;
      resumed = server_hello.resumed;
      handles = new_handles;
      resumption_source = resumption_source_of handshake.hello.resumption s.by_peer;
    })

  -- `handle_server_hello` for the first server hello.
  unfoldable pub accept_server_hello :
      ServerHello → ClientHandshake → ℕ → ℕ → Client (List TunnelAction)
  accept_server_hello server_hello handshake session_id now = do
    s ← get_state
    finish ←
        lift EngineError.crypto
          (create_client_finish c s.psk handshake.hello server_hello session_id)
    finish_bytes ← lift EngineError.frame (encode (client_finish_frame finish session_id))
    session ← make_session server_hello handshake session_id now
    modify (λ (t : ClientEngine). record t {
      session = some session;
      handshake = some (
          sent_again now
            (record handshake { phase = awaiting_server_ack server_hello finish_bytes }));
    })
    pure (sending s finish_bytes)

  unfoldable pub answer_server_hello :
      ServerHello → ClientHandshake → ℕ → ℕ → Client (List TunnelAction)
  answer_server_hello server_hello handshake session_id now = elim handshake.phase [
    | awaiting_server_ack expected finish_bytes ↦
        repeat_finish expected server_hello finish_bytes handshake session_id now
    | awaiting_server_hello ↦ accept_server_hello server_hello handshake session_id now
  ]

  unfoldable pub handle_server_hello : WireFrame → ℕ → Client (List TunnelAction)
  handle_server_hello frame now = do
    s ← get_state
    require (is_handshaking s) (EngineError.handshake unexpected_message)
    handshake ← or_raise s.handshake session_not_ready
    server_hello ← lift EngineError.handshake (decode_server_hello frame)
    lift EngineError.handshake
        (verify_server_hello c server_hello s.psk handshake.hello frame.session_id)
    answer_server_hello server_hello handshake frame.session_id now
