-- ===== src/Engine/Client/Local.antt =====
-- Local datagrams in `ClientEngine` of crates/udp2raw-ng-core/src/engine.rs: those that are sent,
-- those that are queued, and the queue that is sent once a session is ready.
use udp2raw_ng.Prelude.{
  ℕ, zero, suc, not, none, some, List, [], ◌∷◌, ◌++◌, ltb, leb, if◌then◌else◌, length,
}
use udp2raw_ng.Prelude.Maps.{lookup, insert}
use udp2raw_ng.Errors.{EngineError, conversation_capacity, session_not_ready, payload_too_large}
use udp2raw_ng.Crypto.{Primitives}
use udp2raw_ng.Protocol.{FrameType, data_frame}
use udp2raw_ng.Entropy.{generate_conversation}
use udp2raw_ng.Record.{seal}
use udp2raw_ng.Engine.Handles.{handle_for_or_allocate}
use udp2raw_ng.Engine.Events.{
  is_ready, reconnect_queue_expired, session_closed_reason, TunnelAction, send_tunnel_frame,
  conversation_opened, client_datagram_dropped,
}
use udp2raw_ng.Engine.Monad.{
  Outcome, returns, raises, panics, pure, raise, get_state, modify, ◌>>=◌, ◌>>◌, require, or_raise,
  or_panic, lift,
}
use udp2raw_ng.Engine.Client.{
  ClientEngine, ClientSession, QueuedClientDatagram, Client, session_id_of, is_handshaking,
}
use udp2raw_ng.Engine.Client.Queue.{enqueue_reconnect_datagram, overdue}
use udp2raw_ng.Engine.Client.Begin.{begin_reconnect, ready_session_is_stale}

-- A new conversation in both maps.
abbrev pub opened : ℕ → ℕ → ℕ → ClientEngine → ClientEngine
opened local_peer id now s = record s {
  by_peer =
      insert s.by_peer local_peer (record { id = id; last_activity = now; resumption = none });
  by_id = insert s.by_id id local_peer;
}

-- `ConversationId::generate`, from the random source of the engine.
unfoldable pub draw_conversation : Client ℕ
draw_conversation s =
    let (answer, entropy) = generate_conversation s.entropy in
    lift (λ e. e) answer (record s { entropy = entropy })

-- The conversation of a local peer, which is opened if there is none, with what is to be reported.
unfoldable pub conversation_of : ℕ → ℕ → Client (ℕ × List TunnelAction)
conversation_of local_peer now s = elim (lookup s.by_peer local_peer) [
  | some conversation ↦ (
    returns (conversation.id, []),
    record s {
      by_peer = insert s.by_peer local_peer (record conversation { last_activity = now });
    },
  )
  | none ↦
      (do
        require (not (leb s.config.max_conversations (length s.by_peer))) conversation_capacity
        id ← draw_conversation
        modify (opened local_peer id now)
        pure (id, conversation_opened (session_id_of s.session) id ∷ []))
        s
]

abbrev pub with_session : ClientSession → ClientEngine → ClientEngine
with_session session s = record s { session = some session }

module _ (c : Primitives) where
  -- A record of the session for a conversation, whose handle is allocated if it has none.
  unfoldable pub send_record : FrameType → ℕ → List ℕ → Client (List ℕ)
  send_record frame_type conversation_id plaintext = do
    s ← get_state
    session ← or_raise s.session session_not_ready
    (answer, handles) ← or_panic (handle_for_or_allocate session.handles conversation_id)
    let with_handles = record session { handles = handles }
    modify (with_session with_handles)
    handle ← lift (λ e. e) answer
    (bytes, sealer) ←
        lift EngineError.record_error (seal c session.sealer frame_type (some handle) plaintext)
    modify (with_session (record with_handles { sealer = sealer }))
    pure bytes

  -- `handle_local` from `let mut actions = Vec::with_capacity(2)` on.
  unfoldable pub send_local : ℕ → List ℕ → ℕ → Client (List TunnelAction)
  send_local local_peer payload now = do
    (conversation_id, actions) ← conversation_of local_peer now
    bytes ← send_record data_frame conversation_id payload
    s ← get_state
    pure (actions ++ (send_tunnel_frame s.server_peer bytes ∷ []))

  -- The branch of `handle_local` for a session that is stale.
  unfoldable pub reconnect_with : ℕ → List ℕ → ℕ → ClientEngine → List TunnelAction × ClientEngine
  reconnect_with local_peer payload now s =
      let (actions, s') = begin_reconnect now s in
      let (more, s'') = enqueue_reconnect_datagram local_peer payload now s' in
      if is_handshaking s'
      then (actions ++ more, s'')
      else (actions ++ (client_datagram_dropped local_peer session_closed_reason ∷ []), s')

  unfoldable pub handle_local : ℕ → List ℕ → ℕ → Client (List TunnelAction)
  handle_local local_peer payload now s =
      if ltb s.config.max_frame_payload (length payload)
      then raise payload_too_large s
      else (if is_ready s.state
          then (if ready_session_is_stale now s
              then (let (actions, s') = reconnect_with local_peer payload now s in
                  (returns actions, s'))
              else send_local local_peer payload now s)
          else (if is_handshaking s
              then (let (actions, s') = enqueue_reconnect_datagram local_peer payload now s in
                  (returns actions, s'))
              else raise session_not_ready s))

  -- The `match` on the outcome of a queued datagram: a datagram that is refused is dropped.
  abbrev pub or_dropped :
      ℕ → Outcome (List TunnelAction) × ClientEngine → Outcome (List TunnelAction) × ClientEngine
  or_dropped local_peer (returns actions, s) = (returns actions, s)
  or_dropped local_peer (raises e, s) =
      (returns (client_datagram_dropped local_peer session_closed_reason ∷ []), s)
  or_dropped local_peer (panics, s) = (panics, s)

  -- A datagram that was taken out of the queue.
  unfoldable pub flush_one : QueuedClientDatagram → ℕ → Client (List TunnelAction)
  flush_one queued now s =
      if overdue s.config.reconnect_queue_timeout now queued
      then (returns (client_datagram_dropped queued.local_peer reconnect_queue_expired ∷ []), s)
      else or_dropped queued.local_peer (handle_local queued.local_peer queued.payload now s)

  -- The loop of `flush_queued_datagrams` with the number of its rounds. A datagram that is left when
  -- they are over counts as a panic.
  unfoldable pub flush_loop : ℕ → ℕ → Client (List TunnelAction)
  flush_loop zero now s = elim s.queued_datagrams [
    | [] ↦ (returns [], s)
    | queued ∷ rest ↦ (panics, s)
  ]
  flush_loop (suc rounds) now s = elim s.queued_datagrams [
    | [] ↦ (returns [], s)
    | queued ∷ rest ↦
        (do actions ← flush_one queued now; more ← flush_loop rounds now; pure (actions ++ more))
          (record s { queued_datagrams = rest })
  ]

  unfoldable pub flush_queued_datagrams : ℕ → Client (List TunnelAction)
  flush_queued_datagrams now s = flush_loop (length s.queued_datagrams) now s
