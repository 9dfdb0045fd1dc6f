-- ===== src/Engine/Server/Finishes.antt =====
-- The invariant where `ServerEngine` of crates/udp2raw-ng-core/src/engine.rs takes client
-- finishes.
use udp2raw_ng.Prelude.{
  ℕ, ◌≤◌, ◌<◌, ◌≡◌, refl, inl, inr, true, false, not, ◌||◌, Option, none, some, List, [], arith,
  leb, ◌==◌, ◌=bytes◌, length, Option-cases,
}
use udp2raw_ng.Prelude.Maps.{
  lookup, length-remove, length-remove_found, All-insert, All-remove, All-lookup,
}
use udp2raw_ng.Errors.{EngineError}
use udp2raw_ng.Config.{EngineConfig}
use udp2raw_ng.Crypto.{Primitives, SessionKeys, server_to_client}
use udp2raw_ng.Protocol.{WireFrame, encode, handshake_ack}
use udp2raw_ng.Replay.{new}
use udp2raw_ng.Record.{new_sealer, seal}
use udp2raw_ng.Handshake.Messages.{decode_client_finish}
use udp2raw_ng.Handshake.Auth.{verify_client_finish, session_keys}
use udp2raw_ng.Engine.Events.{TunnelAction}
use udp2raw_ng.Engine.Ends.{Ends-require, Ends-or_raise, Ends-or_panic, Ends-lift}
use udp2raw_ng.Engine.Server.{ServerEngine, ServerSession, ResumableSession, PendingHandshake}
use udp2raw_ng.Engine.Server.Finish.{
  taken_over, inherited, without_source, replaces_active, opened_session, with_opened, repeat_ack,
  establish, finish_pending, handle_client_finish,
}
use udp2raw_ng.Engine.Server.Fits.{Fits-new}
use udp2raw_ng.Engine.Server.Invariant.{IsBounded-remove, FitsIn, SmallIn, IsGood}
use udp2raw_ng.Engine.Server.Keeps.{Keeps}

length-inherited :
    (config : EngineConfig) (x : Option ServerSession) (y : Option ResumableSession)
    → ((z : ServerSession) → x ≡ some z → FitsIn config z)
    → ((z : ResumableSession) → y ≡ some z → SmallIn config z)
    → length (taken_over x y) ≤ config.max_conversations
length-inherited config (some z) y f h = (f z refl).small
length-inherited config none (some z) f h = h z refl
length-inherited config none none f h = omega arith

inherited_small :
    (source : Option ℕ) (s : ServerEngine)
    → IsGood s
    → length (inherited source s) ≤ s.config.max_conversations
inherited_small none s g = omega arith
inherited_small (some old) s g =
    length-inherited s.config (lookup s.sessions old) (lookup s.resumable old)
      (λ z e. All-lookup (FitsIn s.config) s.sessions old z g.fitting e)
      (λ z e. All-lookup (SmallIn s.config) s.resumable old z g.recoverable e)

-- Room for the session that replaces another, or that is new.
without_room :
    (source : Option ℕ) (s : ServerEngine)
    → IsGood s
    → (not (leb s.config.max_sessions (length s.sessions)) || replaces_active s source) ≡ true
    → IsGood (without_source source s)
      × (length (without_source source s).sessions < (without_source source s).config.max_sessions)
      × (length (inherited source s) ≤ (without_source source s).config.max_conversations)
without_room none s g room = (g, ground arith, omega arith)
without_room (some old) s g room =
    let small = inherited_small (some old) s g in
    elim (Option-cases (lookup s.sessions old)) [
      | inr (x, e) ↦
          let less = length-remove_found s.sessions old x e in
          rw e (
            record {
              valid = g.valid;
              limited = g.limited;
              bounded = g.bounded;
              room = omega (arith, g.room, less);
              fitting = All-remove (FitsIn s.config) s.sessions old g.fitting;
              recoverable = g.recoverable;
            },
            omega (arith, g.room, less),
            rw e at small,
          )
      | inl e ↦
          let space : (not (leb s.config.max_sessions (length s.sessions)) || false) ≡ true =
            rw e at room in
          rw e (
            record {
              valid = g.valid;
              limited = g.limited;
              bounded = g.bounded;
              room = g.room;
              fitting = g.fitting;
              recoverable = All-remove (SmallIn s.config) s.resumable old g.recoverable;
            },
            ground arith,
            rw e at small,
          )
    ]

IsGood-opened :
    (id : ℕ) (x : ServerSession) (s : ServerEngine)
    → IsGood s
    → length s.sessions < s.config.max_sessions
    → FitsIn s.config x
    → IsGood (with_opened id x s)
IsGood-opened id x s g space f = record {
  valid = g.valid;
  limited = g.limited;
  bounded = IsBounded-remove s.config s.pending id g.bounded;
  room = omega (arith, space, length-remove s.sessions id);
  fitting = All-insert (FitsIn s.config) s.sessions id x g.fitting f;
  recoverable = g.recoverable;
}

module _ (c : Primitives) where
  repeat_ack-Keeps :
      (x : ServerSession) (peer_id : ℕ) (frame : WireFrame) (s : ServerEngine)
      → IsGood s
      → Keeps (repeat_ack c x peer_id frame s)
  unfolding repeat_ack
  repeat_ack-Keeps x peer_id frame s g =
      let Q : List TunnelAction → ServerEngine → Type 0 = λ a t. IsGood t in
      Ends-require Q IsGood (x.peer_id == peer_id) _ _ s g λ own.
        Ends-lift Q IsGood EngineError.frame (encode frame) _ s g
          λ bytes written. Ends-require Q IsGood (x.client_finish =bytes bytes) _ _ s g λ same. g

  establish-Keeps :
      (pending : PendingHandshake) (keys : SessionKeys) (peer_id : ℕ) (frame : WireFrame) (now : ℕ)
      (s : ServerEngine)
      → IsGood s
      → (not (leb s.config.max_sessions (length s.sessions))
          || replaces_active s pending.resume_from)
        ≡ true
      → Keeps (establish c pending keys peer_id frame now s)
  unfolding establish
  establish-Keeps pending keys peer_id frame now s g room =
      let Q : List TunnelAction → ServerEngine → Type 0 = λ a t. IsGood t in
      let (g1, space, small) = without_room pending.resume_from s g room in
      let s1 = without_source pending.resume_from s in
      let sealer =
        new_sealer s.config.cipher_suite server_to_client frame.session_id keys.to_client in
      Ends-lift Q IsGood EngineError.record_error (seal c sealer handshake_ack none []) _ s g
        λ acked done. Ends-lift Q IsGood EngineError.frame (encode frame) _ s g λ bytes written.
          Ends-or_panic Q IsGood (new s.config.replay_window_size) _ s1 g1 λ window made.
            IsGood-opened frame.session_id
              (opened_session s.config pending frame.session_id keys acked bytes window
                (inherited pending.resume_from s) now)
              s1 g1 space (Fits-new s1.config (inherited pending.resume_from s) small)

  finish_pending-Keeps :
      (peer_id : ℕ) (frame : WireFrame) (now : ℕ) (s : ServerEngine)
      → IsGood s
      → Keeps (finish_pending c peer_id frame now s)
  unfolding finish_pending
  finish_pending-Keeps peer_id frame now s g =
      let Q : List TunnelAction → ServerEngine → Type 0 = λ a t. IsGood t in
      Ends-or_raise Q IsGood (lookup s.pending frame.session_id) _ _ s g λ p found.
        Ends-require Q IsGood (p.peer_id == peer_id) _ _ s g λ own.
          Ends-require Q IsGood
            (not (leb s.config.max_sessions (length s.sessions)) || replaces_active s p.resume_from)
            _ _ s g
            λ room.
              Ends-lift Q IsGood EngineError.handshake (decode_client_finish frame) _ s g
                λ finish read.
                  Ends-lift Q IsGood EngineError.handshake
                    (verify_client_finish c finish s.psk p.client_hello p.server_hello
                      frame.session_id)
                    _ s g
                    λ u verified.
                      Ends-lift Q IsGood EngineError.crypto
                        (session_keys c s.psk p.client_hello p.server_hello frame.session_id) _ s g
                        λ keys derived. establish-Keeps p keys peer_id frame now s g room

  pub handle_client_finish-Keeps :
      (peer_id : ℕ) (frame : WireFrame) (now : ℕ) (s : ServerEngine)
      → IsGood s
      → Keeps (handle_client_finish c peer_id frame now s)
  unfolding handle_client_finish
  handle_client_finish-Keeps peer_id frame now s g =
      elim (Option-cases (lookup s.sessions frame.session_id)) [
        | inl e ↦ rw (handle_client_finish, e) (finish_pending-Keeps peer_id frame now s g)
        | inr (x, e) ↦ rw (handle_client_finish, e) (repeat_ack-Keeps x peer_id frame s g)
      ]
