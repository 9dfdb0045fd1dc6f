-- ===== src/Engine/Server/Records.antt =====
-- Protected frames and upstream datagrams in `ServerEngine` of crates/udp2raw-ng-core/src/engine.rs:
-- `handle_record`, `handle_upstream` and `close`.
use udp2raw_ng.Prelude.{
  ℕ, ◌+◌, ◌-◌, ◌/◌, ◌^◌, Bool, true, false, not, ◌&&◌, Option, none, some, List, [], ◌∷◌, ◌++◌,
  ◌==◌, leb, ltb, if◌then◌else◌, is_some, length, min,
}
use udp2raw_ng.Prelude.Maps.{Map, lookup, insert, remove}
use udp2raw_ng.Errors.{
  EngineError, unknown_session, unexpected_peer, unknown_conversation, conversation_capacity,
  payload_too_large, invalid_resumption_credential,
}
use udp2raw_ng.Config.{EngineConfig}
use udp2raw_ng.Crypto.{Primitives}
use udp2raw_ng.Protocol.{data_frame, resume_conversation, resumption_credential}
use udp2raw_ng.Entropy.{generate_conversation}
use udp2raw_ng.Record.{AuthenticatedFrame, seal, open_record}
use udp2raw_ng.Handshake.Messages.{ResumptionCredential, same_type}
use udp2raw_ng.Handshake.Auth.{millis, issue_resumption_credential, verify_resumption_credential}
use udp2raw_ng.Engine.Handles.{bind, id_for, handle_for, release}
use udp2raw_ng.Engine.Events.{
  TunnelAction, send_tunnel_frame, deliver_to_upstream, conversation_opened, conversation_closed,
  schedule_timer,
}
use udp2raw_ng.Engine.Monad.{
  returns, pure, get_state, modify, ◌>>=◌, ◌>>◌, require, or_raise, or_panic, lift,
}
use udp2raw_ng.Engine.Client.Tunnel.{same_source, to_credential}
use udp2raw_ng.Engine.Server.{ServerSession, Server, put_session, now_ms}

-- `ConversationId::generate`, from the random source of the engine.
unfoldable pub draw_id : Server ℕ
draw_id s =
    let (answer, entropy) = generate_conversation s.entropy in
    lift (λ e. e) answer (record s { entropy = entropy })

-- The session after activity.
abbrev pub active : EngineConfig → ℕ → ServerSession → ServerSession
active config now session = record session {
  last_activity = now;
  expires_at = now + config.session_idle_timeout;
}

abbrev pub at_work : ℕ → ℕ → ServerSession → ServerSession
at_work conversation_id now session = record session {
  conversations = insert session.conversations conversation_id now;
}

-- The conversation of a handle that none has yet: `is_new`.
unfoldable pub open_conversation : ℕ → ℕ → ServerSession → ℕ → Server (ℕ × ServerSession)
open_conversation session_id handle session now = do
  s ← get_state
  require (not (leb s.config.max_conversations (length session.conversations)))
      conversation_capacity
  conversation_id ← draw_id
  let bound = bind session.handles handle conversation_id
  modify (put_session session_id (record session { handles = bound.1 }))
  lift (λ e. e) bound.0
  let opened = at_work conversation_id now (record session { handles = bound.1 })
  modify (put_session session_id opened)
  pure (conversation_id, opened)

-- Whether the conversation is new, and what it is.
unfoldable pub conversation_for : ℕ → ℕ → ServerSession → ℕ → Server (Bool × (ℕ × ServerSession))
conversation_for session_id handle session now s = elim (id_for session.handles handle) [
  | some conversation_id ↦
      (let used = at_work conversation_id now session in
        (returns (false, (conversation_id, used)), put_session session_id used s))
  | none ↦ (do found ← open_conversation session_id handle session now; pure (true, found)) s
]

-- `is_none_or` on the credential.
abbrev pub should_refresh : EngineConfig → ℕ → Option (ResumptionCredential × ℕ) → Bool
should_refresh config now none = true
should_refresh config now (some (credential, expires_at)) =
    leb (expires_at - now) (config.resumption_lifetime / 2)

abbrev pub ids_of : Map ℕ → List ℕ
ids_of [] = []
ids_of (p ∷ rest) = p.0 ∷ ids_of rest

abbrev opening : Bool → ℕ → ℕ → List TunnelAction
opening is_new session_id conversation_id =
    if is_new then conversation_opened (some session_id) conversation_id ∷ [] else []

module _ (c : Primitives) where
  -- `issue_resumption_credential`, from the random source of the engine.
  unfoldable pub draw_credential : ℕ → ℕ → ℕ → Server ResumptionCredential
  draw_credential session_id conversation_id at s =
      let (answer, entropy) =
        issue_resumption_credential c s.cookie_secret session_id conversation_id at
          (min (at + millis s.config.resumption_lifetime) (2 ^ 64 - 1)) s.entropy in
      lift EngineError.crypto answer (record s { entropy = entropy })

  -- A credential for a conversation, sealed under its handle.
  unfoldable pub send_credential :
      ℕ → ResumptionCredential → ℕ → ServerSession → Server (TunnelAction × ServerSession)
  send_credential session_id credential handle session = do
    (bytes, sealer) ←
        lift EngineError.record_error
          (seal c session.sealer resumption_credential (some handle) credential)
    let sent = record session { sealer = sealer }
    modify (put_session session_id sent)
    pure (send_tunnel_frame session.peer_id bytes, sent)

  -- The loop over the conversations of a session that refreshes its credentials.
  unfoldable pub grant_all :
      ℕ → ℕ → List ℕ → ServerSession → Server (List TunnelAction × ServerSession)
  grant_all session_id at [] session = pure ([], session)
  grant_all session_id at (conversation_id ∷ rest) session = do
    credential ← draw_credential session_id conversation_id at
    handle ← or_panic (handle_for session.handles conversation_id)
    (action, sent) ← send_credential session_id credential handle session
    (actions, last) ← grant_all session_id at rest sent
    pure (action ∷ actions, last)

  unfoldable pub refresh_credentials :
      ℕ → ℕ → ServerSession → ℕ → ℕ → Server (List TunnelAction × ServerSession)
  refresh_credentials session_id conversation_id session now at = do
    s ← get_state
    credential ← draw_credential session_id conversation_id at
    let fresh = record session {
      resumption_credential = some (credential, now + s.config.resumption_lifetime);
    }
    modify (put_session session_id fresh)
    grant_all session_id at (ids_of fresh.conversations) fresh

  -- The credentials that a data frame brings about: for all conversations, for a new one, or none.
  unfoldable pub grant :
      ℕ → ℕ → ℕ → Bool → ServerSession → ℕ → ℕ → Server (List TunnelAction × ServerSession)
  grant session_id conversation_id handle is_new session now at s =
      if should_refresh s.config now session.resumption_credential
      then refresh_credentials session_id conversation_id session now at s
      else (if is_new
          then (do
            credential ← draw_credential session_id conversation_id at
            (action, sent) ← send_credential session_id credential handle session
            pure (action ∷ [], sent))
              s
          else (returns ([], session), s))

  -- `handle_record` for a data frame.
  unfoldable pub take_datagram :
      AuthenticatedFrame → ℕ → ServerSession → ℕ → ℕ → Server (List TunnelAction)
  take_datagram frame session_id session now at = do
    s ← get_state
    handle ← or_raise frame.conversation_handle unknown_conversation
    (is_new, (conversation_id, used)) ← conversation_for session_id handle session now
    (granted, sent) ← grant session_id conversation_id handle is_new used now at
    pure (
        opening is_new session_id conversation_id
        ++ (granted
            ++ (deliver_to_upstream session_id conversation_id frame.plaintext
                ∷ schedule_timer s.config.session_idle_timeout
                ∷ [])))

  -- `handle_record` for a conversation that is resumed.
  unfoldable pub take_resumption :
      AuthenticatedFrame → ℕ → ServerSession → ℕ → Server (List TunnelAction)
  take_resumption frame session_id session at = do
    s ← get_state
    credential ←
        or_raise (to_credential frame.plaintext)
          (EngineError.handshake invalid_resumption_credential)
    claim ←
        lift EngineError.handshake (verify_resumption_credential c s.cookie_secret credential at)
    require
        (same_source session.resumed_from claim.0 && is_some (lookup session.conversations claim.1))
        unknown_conversation
    handle ← or_raise frame.conversation_handle unknown_conversation
    let bound = bind session.handles handle claim.1
    modify (put_session session_id (record session { handles = bound.1 }))
    lift (λ e. e) bound.0
    pure []

  unfoldable pub take_record :
      AuthenticatedFrame → ℕ → ServerSession → ℕ → ℕ → Server (List TunnelAction)
  take_record frame session_id session now at =
      if same_type frame.frame_type resume_conversation
      then take_resumption frame session_id session at
      else (if same_type frame.frame_type data_frame
          then take_datagram frame session_id session now at
          else pure [])

  unfoldable pub handle_record : ℕ → ℕ → List ℕ → ℕ → Server (List TunnelAction)
  handle_record peer_id session_id bytes now = do
    at ← now_ms now
    s ← get_state
    session ← or_raise (lookup s.sessions session_id) unknown_session
    require (session.peer_id == peer_id) unexpected_peer
    let opened = open_record c session.opener bytes
    let read = record session { opener = opened.0 }
    modify (put_session session_id read)
    frame ← lift EngineError.record_error opened.1
    let live = active s.config now read
    modify (put_session session_id live)
    take_record frame session_id live now at

  unfoldable pub handle_upstream : ℕ → ℕ → List ℕ → ℕ → Server (List TunnelAction)
  handle_upstream session_id conversation_id payload now = do
    s ← get_state
    require (not (ltb s.config.max_frame_payload (length payload))) payload_too_large
    session ← or_raise (lookup s.sessions session_id) unknown_session
    handle ← or_raise (handle_for session.handles conversation_id) unknown_conversation
    let live = active s.config now session
    modify (put_session session_id live)
    (bytes, sealer) ←
        lift EngineError.record_error (seal c live.sealer data_frame (some handle) payload)
    modify (put_session session_id (record live { sealer = sealer }))
    pure (
        send_tunnel_frame session.peer_id bytes ∷ schedule_timer s.config.session_idle_timeout ∷ [])

-- A conversation out of a session.
abbrev pub without : ℕ → ServerSession → ServerSession
without conversation_id session = record session {
  conversations = remove session.conversations conversation_id;
  handles = release session.handles conversation_id;
}

-- `close`
unfoldable pub close_in : ℕ → ℕ → Server (List TunnelAction)
close_in session_id conversation_id = do
  s ← get_state
  session ← or_raise (lookup s.sessions session_id) unknown_session
  require (is_some (lookup session.conversations conversation_id)) unknown_conversation
  modify (put_session session_id (without conversation_id session))
  pure (conversation_closed (some session_id) conversation_id ∷ [])
