-- ===== src/Engine/Client/Expire.antt =====
-- Time and closing in `ClientEngine` of crates/udp2raw-ng-core/src/engine.rs: `expire` and `close`.
use udp2raw_ng.Prelude.{
  ℕ, ◌+◌, ◌-◌, Bool, ◌&&◌, ◌||◌, Option, none, some, List, [], ◌∷◌, ◌++◌, ltb, leb, if◌then◌else◌,
  Result, ok, err,
}
use udp2raw_ng.Prelude.Maps.{Map, lookup, remove}
use udp2raw_ng.Errors.{FrameError}
use udp2raw_ng.Config.{EngineConfig}
use udp2raw_ng.Protocol.{encode}
use udp2raw_ng.Handshake.Messages.{ClientHello, client_hello_frame}
use udp2raw_ng.Engine.Handles.{release}
use udp2raw_ng.Engine.Events.{
  closed, session_closed_reason, TunnelAction, send_tunnel_frame, conversation_closed,
  schedule_timer,
}
use udp2raw_ng.Engine.Client.{
  ClientEngine, ClientConversation, ClientHandshake, ClientHandshakePhase, ClientSession,
  awaiting_server_hello, awaiting_server_ack, session_id_of, is_handshaking,
}
use udp2raw_ng.Engine.Client.Queue.{expire_queued_datagrams, clear_queued_datagrams}
use udp2raw_ng.Engine.Client.Begin.{closing}
use udp2raw_ng.Engine.Client.Hello.{with_handshake}

-- The handshake has lasted too long, or its last attempt has.
abbrev pub should_close : EngineConfig → ℕ → ClientHandshake → Bool
should_close config now handshake =
    leb config.handshake_timeout (now - handshake.started_at)
    || (leb config.handshake_max_attempts handshake.attempts
        && leb config.handshake_retry_interval (now - handshake.last_sent_at))

abbrev pub should_retry : EngineConfig → ℕ → ClientHandshake → Bool
should_retry config now handshake =
    leb config.handshake_retry_interval (now - handshake.last_sent_at)
    && ltb handshake.attempts config.handshake_max_attempts

-- What is sent again.
abbrev pub last_message : ClientHello → ClientHandshakePhase → Result FrameError (List ℕ)
last_message hello awaiting_server_hello = encode (client_hello_frame hello)
last_message hello (awaiting_server_ack server_hello finish_bytes) = ok finish_bytes

abbrev pub send_again :
    ClientHandshake
    → ℕ
    → Result FrameError (List ℕ)
    → ClientEngine
    → List TunnelAction × ClientEngine
send_again handshake now (ok bytes) s = (
  send_tunnel_frame s.server_peer bytes ∷ schedule_timer s.config.handshake_retry_interval ∷ [],
  with_handshake (record handshake { last_sent_at = now; attempts = handshake.attempts + 1 }) s,
)
send_again handshake now (err e) s = ([], s)

unfoldable pub give_up : ClientEngine → List TunnelAction × ClientEngine
give_up s =
    let (actions, s') =
      clear_queued_datagrams session_closed_reason
        (record s { session = none; handshake = none; state = closed }) in
    (actions ++ closing s, s')

-- The first part of `expire`, for a handshake that is under way.
unfoldable pub expire_handshake : ℕ → ClientEngine → List TunnelAction × ClientEngine
expire_handshake now s = elim s.handshake [
  | none ↦ ([], s)
  | some handshake ↦
      if is_handshaking s
      then (if should_close s.config now handshake
          then give_up s
          else (if should_retry s.config now handshake
              then send_again handshake now (last_message handshake.hello handshake.phase) s
              else ([], s)))
      else ([], s)
]

-- The conversations that have been idle for the timeout: their peers and their ids.
abbrev pub idle_conversations : ℕ → ℕ → Map ClientConversation → List (ℕ × ℕ)
idle_conversations timeout now [] = []
idle_conversations timeout now ((peer, conversation) ∷ rest) =
    let more = idle_conversations timeout now rest in
    if leb timeout (now - conversation.last_activity) then (peer, conversation.id) ∷ more else more

abbrev pub released : ℕ → Option ClientSession → Option ClientSession
released id none = none
released id (some session) = some (record session { handles = release session.handles id })

-- A conversation out of both maps and out of the session.
abbrev pub without_conversation : ℕ → ℕ → ClientEngine → ClientEngine
without_conversation peer id s = record s {
  by_peer = remove s.by_peer peer;
  by_id = remove s.by_id id;
  session = released id s.session;
}

unfoldable pub close_all : List (ℕ × ℕ) → ClientEngine → List TunnelAction × ClientEngine
close_all [] s = ([], s)
close_all ((peer, id) ∷ rest) s =
    let (actions, s') = close_all rest (without_conversation peer id s) in
    (conversation_closed (session_id_of s.session) id ∷ actions, s')

unfoldable pub expire : ℕ → ClientEngine → List TunnelAction × ClientEngine
expire now s =
    let (first, s1) = expire_handshake now s in
    let (second, s2) = expire_queued_datagrams now s1 in
    let (third, s3) =
      close_all (idle_conversations s2.config.conversation_idle_timeout now s2.by_peer) s2 in
    (first ++ (second ++ third), s3)

-- `close`
unfoldable pub close : ℕ → ClientEngine → List TunnelAction × ClientEngine
close id s = elim (lookup s.by_id id) [
  | none ↦ ([], s)
  | some peer ↦
      (conversation_closed (session_id_of s.session) id ∷ [], without_conversation peer id s)
]
