-- ===== src/Engine/Server/Handle.antt =====
-- `ServerEngine::handle` of crates/udp2raw-ng-core/src/engine.rs.
use udp2raw_ng.Prelude.{ℕ, List, if◌then◌else◌}
use udp2raw_ng.Errors.{EngineError, invalid_role, unknown_session, unexpected_message}
use udp2raw_ng.Crypto.{Primitives}
use udp2raw_ng.Protocol.{WireFrame, decode, is_protected, client_hello, client_finish}
use udp2raw_ng.Handshake.Messages.{same_type}
use udp2raw_ng.Engine.Events.{
  TunnelEvent, start_event, reconnect_event, client_datagram, server_datagram, tunnel_frame,
  time_advanced, close_conversation, TunnelAction,
}
use udp2raw_ng.Engine.Monad.{returns, raise, ◌>>=◌, or_raise, lift}
use udp2raw_ng.Engine.Server.{ServerEngine, Server}
use udp2raw_ng.Engine.Server.Admit.{handle_client_hello}
use udp2raw_ng.Engine.Server.Finish.{handle_client_finish}
use udp2raw_ng.Engine.Server.Records.{handle_record, handle_upstream, close_in}
use udp2raw_ng.Engine.Server.Expire.{expire}

-- A method that cannot fail.
abbrev pub surely : {A : Type 0} → (ServerEngine → A × ServerEngine) → Server A
surely m s = let (a, s') = m s in (returns a, s')

module _ (c : Primitives) where
  -- Which message it is.
  unfoldable pub dispatch : ℕ → WireFrame → List ℕ → ℕ → Server (List TunnelAction)
  dispatch peer_id frame bytes now =
      if same_type frame.frame_type client_hello
      then handle_client_hello c peer_id frame now
      else (if same_type frame.frame_type client_finish
          then handle_client_finish c peer_id frame now
          else (if is_protected frame.frame_type
              then handle_record c peer_id frame.session_id bytes now
              else raise (EngineError.handshake unexpected_message)))

  unfoldable pub handle_tunnel : ℕ → List ℕ → ℕ → Server (List TunnelAction)
  handle_tunnel peer_id bytes now = do
    frame ← lift EngineError.frame (decode bytes)
    dispatch peer_id frame bytes now

  unfoldable pub handle : TunnelEvent → ℕ → Server (List TunnelAction)
  handle (tunnel_frame peer_id bytes) now = handle_tunnel peer_id bytes now
  handle (server_datagram session_id conversation_id payload) now =
      handle_upstream c session_id conversation_id payload now
  handle (close_conversation session_id conversation_id) now = do
    named ← or_raise session_id unknown_session
    close_in named conversation_id
  handle (time_advanced at) now = surely (expire at)
  handle start_event now = raise invalid_role
  handle reconnect_event now = raise invalid_role
  handle (client_datagram local_peer payload) now = raise invalid_role
