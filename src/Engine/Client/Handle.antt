-- ===== src/Engine/Client/Handle.antt =====
-- `ClientEngine::handle` of crates/udp2raw-ng-core/src/engine.rs.
use udp2raw_ng.Prelude.{ℕ, Bool, true, false, Option, none, some, List, ◌==◌, if◌then◌else◌}
use udp2raw_ng.Errors.{invalid_role, unknown_session}
use udp2raw_ng.Crypto.{Primitives}
use udp2raw_ng.Engine.Events.{
  TunnelEvent, start_event, reconnect_event, client_datagram, server_datagram, tunnel_frame,
  time_advanced, close_conversation, TunnelAction,
}
use udp2raw_ng.Engine.Monad.{returns, raise}
use udp2raw_ng.Engine.Client.{ClientEngine, Client, session_id_of}
use udp2raw_ng.Engine.Client.Begin.{start, reconnect}
use udp2raw_ng.Engine.Client.Local.{handle_local}
use udp2raw_ng.Engine.Client.Tunnel.{handle_tunnel}
use udp2raw_ng.Engine.Client.Expire.{expire, close}

-- A method that cannot fail.
abbrev pub always : {A : Type 0} → (ClientEngine → A × ClientEngine) → Client A
always m s = let (a, s') = m s in (returns a, s')

-- `session_id.is_some() && session_id != self.session_id()`, negated.
abbrev pub names_session : Option ℕ → Option ℕ → Bool
names_session none current = true
names_session (some named) none = false
names_session (some named) (some current) = named == current

module _ (c : Primitives) where
  unfoldable pub handle : TunnelEvent → ℕ → Client (List TunnelAction)
  handle start_event now = start now
  handle reconnect_event now = reconnect now
  handle (client_datagram local_peer payload) now = handle_local c local_peer payload now
  handle (tunnel_frame peer_id bytes) now = handle_tunnel c peer_id bytes now
  handle (time_advanced at) now = always (expire at)
  handle (close_conversation session_id conversation_id) now = λ s.
      if names_session session_id (session_id_of s.session)
      then always (close conversation_id) s
      else raise unknown_session s
  handle (server_datagram session_id conversation_id payload) now = raise invalid_role
