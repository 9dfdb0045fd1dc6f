-- ===== src/Engine/Client/Laws.antt =====
-- The invariant of `ClientEngine` of crates/udp2raw-ng-core/src/engine.rs for `handle` and for
-- sequences of events.
use mathlib.Core.Path.{subst}
use udp2raw_ng.Prelude.{
  ℕ, ◌≡◌, ◌≢◌, refl, inl, inr, none, [], arith, Bool-cases, ok, map_err, map_err-eq-ok, >>=-eq-ok,
  guard->>-ok, ok-injective,
}
use udp2raw_ng.Errors.{EngineError, invalid_role}
use udp2raw_ng.Config.{EngineConfig, Psk, validate}
use udp2raw_ng.Config.Laws.{IsValid, validate-ok_iff}
use udp2raw_ng.Crypto.{Primitives}
use udp2raw_ng.Entropy.{Entropy}
use udp2raw_ng.Engine.Events.{
  idle, TunnelEvent, start_event, reconnect_event, client_datagram, server_datagram, tunnel_frame,
  time_advanced, close_conversation,
}
use udp2raw_ng.Engine.Monad.{panics}
use udp2raw_ng.Engine.Rules.{Post, Post-state, Post-no_panic}
use udp2raw_ng.Engine.Client.{ClientEngine, is_client, new_client, session_id_of}
use udp2raw_ng.Engine.Client.Handle.{names_session, handle}
use udp2raw_ng.Engine.Client.Invariant.{IsGood, Linked-none}
use udp2raw_ng.Engine.Client.Starts.{start-IsGood}
use udp2raw_ng.Engine.Client.Locals.{reconnect-IsGood, handle_local-IsGood}
use udp2raw_ng.Engine.Client.Tunnels.{handle_tunnel-Keeps}
use udp2raw_ng.Engine.Client.Times.{expire-IsGood, close-IsGood}

abbrev fresh_client : EngineConfig → Psk → ℕ → Entropy → ClientEngine
fresh_client config psk server_peer entropy = record {
  config = config;
  psk = psk;
  server_peer = server_peer;
  state = idle;
  handshake = none;
  session = none;
  by_peer = [];
  by_id = [];
  queued_datagrams = [];
  entropy = entropy;
}

fresh_client-IsGood :
    (config : EngineConfig) (psk : Psk) (server_peer : ℕ) (entropy : Entropy)
    → IsValid config
    → IsGood (fresh_client config psk server_peer entropy)
fresh_client-IsGood config psk server_peer entropy v = record {
  valid = v;
  phase = (refl, refl);
  allocated = tt;
  room = omega arith;
  waiting = omega arith;
  linked = Linked-none;
}

pub new_client-IsGood :
    (config : EngineConfig) (psk : Psk) (server_peer : ℕ) (entropy : Entropy) (s : ClientEngine)
    → new_client config psk server_peer entropy ≡ ok s
    → IsGood s
unfolding new_client
new_client-IsGood config psk server_peer entropy s made =
    let (u, checked, rest) = >>=-eq-ok (map_err EngineError.config (validate config)) _ made in
    let (role, same) = guard->>-ok (is_client config.role) invalid_role _ rest in
    let valid =
      (validate-ok_iff config).0 (map_err-eq-ok EngineError.config (validate config) checked) in
    subst IsGood (ok-injective same) (fresh_client-IsGood config psk server_peer entropy valid)

module _ (c : Primitives) where
  pub handle-IsGood :
      (e : TunnelEvent) (now : ℕ) (s : ClientEngine)
      → IsGood s
      → Post (λ actions t. IsGood t) (λ t. IsGood t) (handle c e now s)
  unfolding handle
  handle-IsGood start_event now s g = start-IsGood now s g
  handle-IsGood reconnect_event now s g = reconnect-IsGood now s g
  handle-IsGood (client_datagram peer payload) now s g = handle_local-IsGood c peer payload now s g
  handle-IsGood (server_datagram session_id id payload) now s g = g
  handle-IsGood (tunnel_frame peer bytes) now s g = handle_tunnel-Keeps c peer bytes now s g
  handle-IsGood (time_advanced at) now s g = expire-IsGood at s g
  handle-IsGood (close_conversation session_id id) now s g =
      elim (Bool-cases (names_session session_id (session_id_of s.session))) [
        | inl named ↦ rw named (close-IsGood id s g)
        | inr other ↦ rw other g
      ]

  -- The states that a client engine comes to: a new one, and one after an event.
  pub data Reached : ClientEngine → Type 0 where
    is_new :
        (config : EngineConfig) (psk : Psk) (server_peer : ℕ) (entropy : Entropy) (s : ClientEngine)
        → new_client config psk server_peer entropy ≡ ok s
        → Reached s
    handled :
        (e : TunnelEvent) (now : ℕ) (s : ClientEngine) → Reached s → Reached (handle c e now s).1

  pub Reached-IsGood : (s : ClientEngine) → Reached s → IsGood s
  Reached-IsGood _ (is_new config psk server_peer entropy s made) =
      new_client-IsGood config psk server_peer entropy s made
  Reached-IsGood _ (handled e now s before) =
      Post-state IsGood (handle c e now s) (handle-IsGood e now s (Reached-IsGood s before))

  -- In every state that a client engine comes to, from a new one by any events at any times, `handle`
  -- does not panic on any further event, and the state that it leaves, after an error too, has the
  -- invariant: a valid configuration, no more conversations and queued datagrams than configured, a
  -- handshake and a session as the state asks, well formed handles, and for every id a local peer whose
  -- conversation has that id.
  pub handle-never_panics :
      (s : ClientEngine) (e : TunnelEvent) (now : ℕ)
      → Reached s
      → ((handle c e now s).0 ≢ panics) × IsGood (handle c e now s).1
  handle-never_panics s e now before =
      let h = handle-IsGood e now s (Reached-IsGood s before) in
      (
        Post-no_panic (λ a t. IsGood t) IsGood (handle c e now s) h,
        Post-state IsGood (handle c e now s) h,
      )
