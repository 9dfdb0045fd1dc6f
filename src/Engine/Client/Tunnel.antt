-- ===== src/Engine/Client/Tunnel.antt =====
-- Frames from the server in `ClientEngine` of crates/udp2raw-ng-core/src/engine.rs: `handle_tunnel`
-- with the acknowledgement of a handshake, credentials and data.
use udp2raw_ng.Prelude.{
  ℕ, Bool, true, false, not, ◌&&◌, ◌||◌, Option, none, some, List, [], ◌∷◌, ◌++◌, ◌==◌,
  if◌then◌else◌, is_some, length, Result, ok, err,
}
use udp2raw_ng.Prelude.Maps.{Map, lookup, insert}
use udp2raw_ng.Errors.{
  EngineError, RecordError, duplicate, session_not_ready, unexpected_peer, unknown_conversation,
  invalid_resumption_credential,
}
use udp2raw_ng.Crypto.{Primitives}
use udp2raw_ng.Protocol.{
  FrameType, WireFrame, decode, hello_retry, server_hello, handshake_ack, resumption_credential,
  resume_conversation, data_frame,
}
use udp2raw_ng.Handshake.Messages.{ResumptionCredential, same_type}
use udp2raw_ng.Record.{AuthenticatedFrame, open_record}
use udp2raw_ng.Engine.Handles.{new_handles, id_for}
use udp2raw_ng.Engine.Events.{
  SessionState, is_ready, TunnelAction, send_tunnel_frame, deliver_to_client, session_established,
  conversation_closed, schedule_timer,
}
use udp2raw_ng.Engine.Monad.{
  returns, pure, raise, get_state, modify, ◌>>=◌, ◌>>◌, require, or_raise, lift,
}
use udp2raw_ng.Engine.Client.{
  ClientEngine, ClientConversation, ClientHandshake, ClientSession, Client, is_handshaking,
}
use udp2raw_ng.Engine.Client.Local.{with_session, send_record, flush_queued_datagrams}
use udp2raw_ng.Engine.Client.Hello.{handle_hello_retry, handle_server_hello}

-- `ConversationClosed` for each conversation that is forgotten.
abbrev pub forgotten : Map ClientConversation → List TunnelAction
forgotten [] = []
forgotten ((peer, conversation) ∷ rest) = conversation_closed none conversation.id ∷ forgotten rest

-- `Some(source) == resumption_source`
abbrev pub same_source : Option ℕ → ℕ → Bool
same_source none source = false
same_source (some session_id) source = source == session_id

abbrev binding : Option ℕ → ℕ → Option (ℕ × ResumptionCredential) → List (ℕ × ResumptionCredential)
binding source id none = []
binding source id (some (issuer, credential)) =
    if same_source source issuer then (id, credential) ∷ [] else []

-- The conversations that go on in the resumed session, with their credentials.
abbrev pub bindings : Option ℕ → Map ClientConversation → List (ℕ × ResumptionCredential)
bindings source [] = []
bindings source ((peer, conversation) ∷ rest) =
    binding source conversation.id conversation.resumption ++ bindings source rest

abbrev pub attempted_resumption : Option ClientHandshake → Bool
attempted_resumption none = false
attempted_resumption (some handshake) = is_some handshake.hello.resumption

-- The state once an acknowledgement has come.
abbrev pub acknowledged : ClientSession → ℕ → ClientEngine → ClientEngine
acknowledged session now s = record s {
  handshake = none;
  state = SessionState.ready;
  session = some (record session { last_received_at = now });
}

-- A server that did not resume: the conversations are forgotten.
unfoldable pub forget_unless : Bool → ClientSession → Client (List TunnelAction)
forget_unless resumes session s = if resumes then (returns [], s) else (
  returns (forgotten s.by_peer),
  record s { session = some (record session { handles = new_handles }); by_peer = []; by_id = [] },
)

-- An array of 92 bytes, `try_into`
abbrev pub to_credential : List ℕ → Option ResumptionCredential
to_credential bytes = if length bytes == 92 then some bytes else none

-- The conversation after a credential has come for it.
abbrev pub with_credential :
    Option ClientConversation → ℕ → ℕ → ResumptionCredential → ℕ → ClientEngine → ClientEngine
with_credential none local_peer session_id credential now s = s
with_credential (some conversation) local_peer session_id credential now s = record s {
  by_peer =
      insert s.by_peer local_peer
        (record conversation { resumption = some (session_id, credential); last_activity = now });
}

abbrev pub touched : Option ClientConversation → ℕ → ℕ → ClientEngine → ClientEngine
touched none local_peer now s = s
touched (some conversation) local_peer now s = record s {
  by_peer = insert s.by_peer local_peer (record conversation { last_activity = now });
}

-- The conversation and the local peer that a handle stands for.
unfoldable pub addressee : Option ℕ → ClientSession → Client ℕ
addressee conversation_handle session = do
  s ← get_state
  handle ← or_raise conversation_handle unknown_conversation
  id ← or_raise (id_for session.handles handle) unknown_conversation
  or_raise (lookup s.by_id id) unknown_conversation

unfoldable pub take_credential : AuthenticatedFrame → ClientSession → ℕ → Client (List TunnelAction)
take_credential frame session now = do
  local_peer ← addressee frame.conversation_handle session
  credential ←
      or_raise (to_credential frame.plaintext) (EngineError.handshake invalid_resumption_credential)
  modify (λ (s : ClientEngine).
      with_credential (lookup s.by_peer local_peer) local_peer session.id credential now s)
  pure []

unfoldable pub take_data : AuthenticatedFrame → ClientSession → ℕ → Client (List TunnelAction)
take_data frame session now = do
  local_peer ← addressee frame.conversation_handle session
  modify (λ (s : ClientEngine). touched (lookup s.by_peer local_peer) local_peer now s)
  pure (deliver_to_client local_peer frame.plaintext ∷ [])

abbrev pub to_resume : Bool → Option ℕ → Map ClientConversation → List (ℕ × ResumptionCredential)
to_resume resumed source by_peer = if resumed then bindings source by_peer else []

abbrev pub is_duplicate : RecordError → Bool
is_duplicate (RecordError.replay duplicate) = true
is_duplicate _ = false

module _ (c : Primitives) where
  -- `ResumeConversation` for each of the bindings.
  unfoldable pub resume_all : List (ℕ × ResumptionCredential) → Client (List TunnelAction)
  resume_all [] = pure []
  resume_all ((id, credential) ∷ rest) = do
    bytes ← send_record c resume_conversation id credential
    s ← get_state
    more ← resume_all rest
    pure (send_tunnel_frame s.server_peer bytes ∷ more)

  -- The branch of `handle_tunnel` for an acknowledgement of the handshake.
  unfoldable pub take_ack : ClientSession → ℕ → Client (List TunnelAction)
  take_ack session now = do
    s ← get_state
    modify (acknowledged session now)
    closed ←
        forget_unless (not (attempted_resumption s.handshake && not session.resumed))
          (record session { last_received_at = now })
    t ← get_state
    resumed ← resume_all (to_resume session.resumed session.resumption_source t.by_peer)
    flushed ← flush_queued_datagrams c now
    pure (
        closed
        ++ (session_established s.server_peer session.id s.config.cipher_suite session.resumed
            ∷ (resumed ++ (flushed ++ (schedule_timer s.config.session_timeout ∷ [])))))

  -- `handle_tunnel` once the session's opener has delivered a frame.
  unfoldable pub take_frame : AuthenticatedFrame → ClientSession → ℕ → Client (List TunnelAction)
  take_frame frame session now s =
      if same_type frame.frame_type handshake_ack
      then (if is_handshaking s then take_ack session now s else (returns [], s))
      else (do
        require (is_ready s.state) session_not_ready
        let received = record session { last_received_at = now }
        modify (with_session received)
        (if same_type frame.frame_type resumption_credential
            then take_credential frame received now
            else (if same_type frame.frame_type data_frame
                then take_data frame received now
                else pure [])))
          s

  -- The `match` on the opener's answer.
  unfoldable pub take_answer :
      FrameType
      → Result RecordError AuthenticatedFrame
      → ClientSession
      → ℕ
      → Client (List TunnelAction)
  take_answer frame_type (ok frame) session now s = take_frame frame session now s
  take_answer frame_type (err e) session now s =
      if is_duplicate e && (same_type frame_type handshake_ack && is_ready s.state)
      then (returns [], s)
      else raise (EngineError.record_error e) s

  -- `handle_tunnel` for a frame of neither handshake message.
  unfoldable pub handle_record : WireFrame → List ℕ → ℕ → Client (List TunnelAction)
  handle_record envelope bytes now = do
    s ← get_state
    require (is_ready s.state || is_handshaking s) session_not_ready
    session ← or_raise s.session session_not_ready
    let opened = open_record c session.opener bytes
    let session' = record session { opener = opened.0 }
    modify (with_session session')
    take_answer envelope.frame_type opened.1 session' now

  -- Which message it is.
  unfoldable pub dispatch : WireFrame → List ℕ → ℕ → Client (List TunnelAction)
  dispatch envelope bytes now =
      if same_type envelope.frame_type hello_retry
      then handle_hello_retry c envelope now
      else (if same_type envelope.frame_type server_hello
          then handle_server_hello c envelope now
          else handle_record envelope bytes now)

  unfoldable pub handle_tunnel : ℕ → List ℕ → ℕ → Client (List TunnelAction)
  handle_tunnel peer_id bytes now = do
    s ← get_state
    require (peer_id == s.server_peer) unexpected_peer
    envelope ← lift EngineError.frame (decode bytes)
    dispatch envelope bytes now
