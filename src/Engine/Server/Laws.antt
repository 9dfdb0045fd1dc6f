-- ===== src/Engine/Server/Laws.antt =====
-- The invariant of `ServerEngine` of crates/udp2raw-ng-core/src/engine.rs for `handle` and for
-- sequences of events.
use mathlib.Core.Path.{subst}
use udp2raw_ng.Prelude.{
  ℕ, ◌≡◌, inl, inr, Option, none, some, List, arith, Bool-cases, ok, map_err, map_err-eq-ok,
  >>=-eq-ok, guard->>-ok, ok-injective,
}
use udp2raw_ng.Errors.{EngineError, invalid_role}
use udp2raw_ng.Config.{EngineConfig, Psk, validate}
use udp2raw_ng.Config.Laws.{IsValid, validate-ok_iff}
use udp2raw_ng.Crypto.{Primitives}
use udp2raw_ng.Entropy.{Entropy, getrandom}
use udp2raw_ng.Protocol.{WireFrame, decode, is_protected, client_hello, client_finish}
use udp2raw_ng.Handshake.Messages.{same_type}
use udp2raw_ng.Engine.Events.{
  TunnelEvent, start_event, reconnect_event, client_datagram, server_datagram, tunnel_frame,
  time_advanced, close_conversation,
}
use udp2raw_ng.Engine.Ends.{Ends-state, Ends-lift, Ends-or_raise}
use udp2raw_ng.Engine.Server.{ServerEngine, is_server, server_with, with_secret, new_server}
use udp2raw_ng.Engine.Server.Handle.{dispatch, handle_tunnel, handle}
use udp2raw_ng.Engine.Server.Invariant.{IsGood}
use udp2raw_ng.Engine.Server.Keeps.{Keeps, handle_client_hello-Keeps}
use udp2raw_ng.Engine.Server.Finishes.{handle_client_finish-Keeps}
use udp2raw_ng.Engine.Server.Takes.{handle_record-Keeps, handle_upstream-Keeps, close_in-Keeps}
use udp2raw_ng.Engine.Server.Ages.{expire-IsGood}

server_with-IsGood :
    (config : EngineConfig) (psk : Psk) (secret : List ℕ) (entropy : Entropy)
    → IsValid config
    → IsGood (server_with config psk secret entropy)
server_with-IsGood config psk secret entropy v = record {
  valid = v;
  limited = record { few = omega arith; full = tt };
  bounded = record { few = omega arith; few_of = λ peer_id. omega arith };
  room = omega arith;
  fitting = tt;
  recoverable = tt;
}

with_secret-IsGood :
    (config : EngineConfig) (psk : Psk) (drawn : Option (List ℕ) × Entropy) (s : ServerEngine)
    → IsValid config
    → with_secret config psk drawn ≡ ok s
    → IsGood s
with_secret-IsGood config psk (none, entropy) s v made = absurd cc
with_secret-IsGood config psk (some secret, entropy) s v made =
    subst IsGood (ok-injective made) (server_with-IsGood config psk secret entropy v)

pub new_server-IsGood :
    (config : EngineConfig) (psk : Psk) (entropy : Entropy) (s : ServerEngine)
    → new_server config psk entropy ≡ ok s
    → IsGood s
unfolding new_server
new_server-IsGood config psk entropy s made =
    let (u, checked, rest) = >>=-eq-ok (map_err EngineError.config (validate config)) _ made in
    let (role, same) = guard->>-ok (is_server config.role) invalid_role _ rest in
    let valid =
      (validate-ok_iff config).0 (map_err-eq-ok EngineError.config (validate config) checked) in
    with_secret-IsGood config psk (getrandom entropy) s valid same

module _ (c : Primitives) where
  dispatch-Keeps :
      (peer_id : ℕ) (frame : WireFrame) (bytes : List ℕ) (now : ℕ) (s : ServerEngine)
      → IsGood s
      → Keeps (dispatch c peer_id frame bytes now s)
  unfolding dispatch
  dispatch-Keeps peer_id frame bytes now s g =
      elim (Bool-cases (same_type frame.frame_type client_hello)) [
        | inl hello ↦ rw hello (handle_client_hello-Keeps c peer_id frame now s g)
        | inr other ↦ elim (Bool-cases (same_type frame.frame_type client_finish)) [
          | inl finish ↦ rw (other, finish) (handle_client_finish-Keeps c peer_id frame now s g)
          | inr other1 ↦ elim (Bool-cases (is_protected frame.frame_type)) [
            | inl guarded ↦
                rw (other, other1, guarded)
                  (handle_record-Keeps c peer_id frame.session_id bytes now s g)
            | inr other2 ↦ rw (other, other1, other2) g
          ]
        ]
      ]

  handle-Keeps :
      (e : TunnelEvent) (now : ℕ) (s : ServerEngine) → IsGood s → Keeps (handle c e now s)
  unfolding handle handle_tunnel
  handle-Keeps start_event now s g = g
  handle-Keeps reconnect_event now s g = g
  handle-Keeps (client_datagram peer payload) now s g = g
  handle-Keeps (server_datagram session_id id payload) now s g =
      handle_upstream-Keeps c session_id id payload now s g
  handle-Keeps (tunnel_frame peer bytes) now s g =
      Ends-lift (λ a t. IsGood t) IsGood EngineError.frame (decode bytes) _ s g
        λ frame read. dispatch-Keeps peer frame bytes now s g
  handle-Keeps (time_advanced at) now s g = expire-IsGood at s g
  handle-Keeps (close_conversation session_id id) now s g =
      Ends-or_raise (λ a t. IsGood t) IsGood session_id _ _ s g
        λ named given. close_in-Keeps named id s g

  -- The states that a server engine comes to: a new one, and one after an event.
  pub data Reached : ServerEngine → Type 0 where
    is_new :
        (config : EngineConfig) (psk : Psk) (entropy : Entropy) (s : ServerEngine)
        → new_server config psk entropy ≡ ok s
        → Reached s
    handled :
        (e : TunnelEvent) (now : ℕ) (s : ServerEngine) → Reached s → Reached (handle c e now s).1

  -- In every state that a server engine comes to, from a new one by any events at any times, errors and
  -- panics included, the configuration is valid; pending handshakes, in all and for each peer, rate
  -- buckets with their tokens, sessions, and the conversations of each session are no more than
  -- configured; and the handles of a session are inverse to the ids, each for a conversation of the
  -- session.
  pub Reached-IsGood : (s : ServerEngine) → Reached s → IsGood s
  Reached-IsGood _ (is_new config psk entropy s made) = new_server-IsGood config psk entropy s made
  Reached-IsGood _ (handled e now s before) =
      Ends-state IsGood (handle c e now s) (handle-Keeps e now s (Reached-IsGood s before))
