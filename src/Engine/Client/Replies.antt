-- ===== src/Engine/Client/Replies.antt =====
-- The invariant where `ClientEngine` of crates/udp2raw-ng-core/src/engine.rs takes the server's
-- handshake messages.
use mathlib.Core.Path.{subst}
use udp2raw_ng.Prelude.{
  ℕ, ◌<◌, ◌≡◌, ◌⊎◌, refl, sym, inl, inr, true, false, ◌&&◌, Option, none, some, List, arith, ltb,
  ◌==◌, ◌=bytes◌,
}
use udp2raw_ng.Errors.{EngineError, unexpected_message}
use udp2raw_ng.Crypto.{Primitives}
use udp2raw_ng.Protocol.{WireFrame, encode}
use udp2raw_ng.Replay.{ReplayWindow, new}
use udp2raw_ng.Handshake.Messages.{
  ServerHello, client_hello_frame, decode_retry, decode_server_hello, server_hello_payload,
  client_finish_frame,
}
use udp2raw_ng.Handshake.Auth.{
  verify_and_apply, verify_server_hello, create_client_finish, session_keys,
}
use udp2raw_ng.Engine.Handles.Laws.{Allocated, new_handles-Allocated}
use udp2raw_ng.Engine.Events.{
  SessionState, idle, handshaking, ready, reconnecting, closed, TunnelAction, is_handshaking_state,
}
use udp2raw_ng.Engine.Monad.{◌>>◌, modify, pure}
use udp2raw_ng.Engine.Rules.{Post, Post-bind, Post-require, Post-or_raise, Post-or_panic, Post-lift}
use udp2raw_ng.Engine.Client.{
  ClientEngine, ClientHandshake, ClientHandshakePhase, ClientSession, awaiting_server_hello,
  awaiting_server_ack, is_handshaking, session_id_of,
}
use udp2raw_ng.Engine.Client.Hello.{
  sending, awaits_hello, sent_again, with_handshake, handle_hello_retry, repeat_finish,
  make_session, accept_server_hello, answer_server_hello, handle_server_hello,
}
use udp2raw_ng.Engine.Client.Invariant.{Made, Exchanging, InPhase, SessionAllocated, IsGood}

pub InPhase-Made :
    (st : SessionState) (h : Option ClientHandshake) (k : ClientHandshake)
    (x : Option ClientSession)
    → InPhase st h x
    → is_handshaking_state st ≡ true
    → h ≡ some k
    → Made k.phase x
InPhase-Made idle h k x p e has = absurd cc
InPhase-Made handshaking h k x p e has =
    subst (λ (o : Option ClientHandshake). Exchanging o x) has p
InPhase-Made ready h k x p e has = absurd cc
InPhase-Made reconnecting h k x p e has =
    subst (λ (o : Option ClientHandshake). Exchanging o x) has p
InPhase-Made closed h k x p e has = absurd cc

exchange_phase :
    (st : SessionState) (k : ClientHandshake) (x : Option ClientSession)
    → is_handshaking_state st ≡ true
    → Made k.phase x
    → InPhase st (some k) x
exchange_phase idle k x e m = absurd cc
exchange_phase handshaking k x e m = m
exchange_phase ready k x e m = absurd cc
exchange_phase reconnecting k x e m = m
exchange_phase closed k x e m = absurd cc

-- Another handshake, and what session it has made.
pub IsGood-exchange :
    (s : ClientEngine) (k : ClientHandshake) (x : Option ClientSession)
    → IsGood s
    → is_handshaking s ≡ true
    → Made k.phase x
    → SessionAllocated x
    → IsGood (record s { handshake = some k; session = x })
IsGood-exchange s k x g e m a = record {
  valid = g.valid;
  phase = exchange_phase s.state k x e m;
  allocated = a;
  room = g.room;
  waiting = g.waiting;
  linked = g.linked;
}

new_window : (width : ℕ) → 0 < width → (w : ReplayWindow) × (new width ≡ some w)
unfolding new
new_window width h = let positive : ltb 0 width ≡ true = ground arith in rw positive (_, refl)

phase_cases :
    (p : ClientHandshakePhase)
    → (p ≡ awaiting_server_hello)
      ⊎ ((hello : ServerHello) × (bytes : List ℕ) × (p ≡ awaiting_server_ack hello bytes))
phase_cases awaiting_server_hello = inl refl
phase_cases (awaiting_server_ack hello bytes) = inr (hello, bytes, refl)

-- What the server's messages keep: the invariant and the state.
pub record Exchanged (s t : ClientEngine) : Type 0 where
  pub good : IsGood t
  pub state_same : t.state ≡ s.state

module _ (c : Primitives) (s : ClientEngine) (g : IsGood s) where
  abbrev Q : List TunnelAction → ClientEngine → Type 0
  Q a t = Exchanged s t

  abbrev E : ClientEngine → Type 0
  E t = Exchanged s t

  unchanged : Exchanged s s
  unchanged = record { good = g; state_same = refl }

  pub handle_hello_retry-Exchanged :
      (frame : WireFrame) (now : ℕ)
      → Post (λ a t. Exchanged s t) (λ t. Exchanged s t) (handle_hello_retry c frame now s)
  unfolding handle_hello_retry
  handle_hello_retry-Exchanged frame now =
      Post-require Q E (is_handshaking s) _ _ s unchanged λ going.
        Post-or_raise Q E s.handshake _ _ s unchanged λ h has.
          let made = InPhase-Made s.state s.handshake h s.session g.phase going has in
          Post-require Q E (awaits_hello h.phase) _ _ s unchanged λ early.
            Post-lift Q E EngineError.handshake (decode_retry frame) _ s unchanged λ retry read.
              Post-lift Q E EngineError.handshake (verify_and_apply c retry s.psk h.hello) _ s
                unchanged
                λ hello verified.
                  let k : ClientHandshake = record h { hello = hello } in
                  let s1 = with_handshake k s in
                  let g1 = IsGood-exchange s k s.session g going made g.allocated in
                  Post-lift Q E EngineError.frame (encode (client_hello_frame hello)) _ s1
                    (record { good = g1; state_same = refl })
                    λ bytes written. record {
                      good =
                          IsGood-exchange s (sent_again now k) s.session g going made g.allocated;
                      state_same = refl;
                    }

  module _ (server_hello : ServerHello) (h : ClientHandshake) (session_id now : ℕ)
      (going : is_handshaking s ≡ true) (has : s.handshake ≡ some h) where
    repeat_finish-Exchanged :
        (expected : ServerHello) (bytes : List ℕ)
        → Post
            (λ a t. Exchanged s t)
            (λ t. Exchanged s t)
            (repeat_finish c expected server_hello bytes h session_id now s)
    unfolding repeat_finish
    repeat_finish-Exchanged expected bytes =
        let made = InPhase-Made s.state s.handshake h s.session g.phase going has in
        Post-require Q E
          (server_hello_payload expected =bytes server_hello_payload server_hello
            && (elim (session_id_of s.session) [ some id ↦ id == session_id | none ↦ false ]))
          (EngineError.handshake unexpected_message)
          (modify (with_handshake (sent_again now h)) >> pure (sending s bytes)) s unchanged
          λ same. record {
            good = IsGood-exchange s (sent_again now h) s.session g going made g.allocated;
            state_same = refl;
          }

    abbrev finished : List ℕ → ClientHandshake
    finished bytes = sent_again now (record h { phase = awaiting_server_ack server_hello bytes })

    abbrev with_finish : List ℕ → ClientSession → ClientEngine → ClientEngine
    with_finish bytes x t = record t { session = some x; handshake = some (finished bytes) }

    make_session-Allocated :
        Post
          (λ x t. (t ≡ s) × Allocated x.handles)
          (λ t. Exchanged s t)
          (make_session c server_hello h session_id now s)
    unfolding make_session
    make_session-Allocated =
        let R : ClientSession → ClientEngine → Type 0 = λ x t. (t ≡ s) × Allocated x.handles in
        let (w, made_window) = new_window s.config.replay_window_size g.valid.window in
        Post-lift R E EngineError.crypto (session_keys c s.psk h.hello server_hello session_id) _ s
          unchanged
          λ keys derived.
            Post-or_panic R E (new s.config.replay_window_size) w _ s made_window
              (refl, new_handles-Allocated)

    accepted :
        (bytes : List ℕ) (x : ClientSession) (t : ClientEngine)
        → t ≡ s
        → Allocated x.handles
        → Exchanged s (with_finish bytes x t)
    accepted bytes x t same a =
        subst (λ (u : ClientEngine). Exchanged s (with_finish bytes x u)) (sym same)
          (record {
            good = IsGood-exchange s (finished bytes) (some x) g going (x, refl) a;
            state_same = refl;
          })

    accept_server_hello-Exchanged :
        Post
          (λ a t. Exchanged s t)
          (λ t. Exchanged s t)
          (accept_server_hello c server_hello h session_id now s)
    unfolding accept_server_hello
    accept_server_hello-Exchanged =
        Post-lift Q E EngineError.crypto
          (create_client_finish c s.psk h.hello server_hello session_id) _ s unchanged
          λ finish created.
            Post-lift Q E EngineError.frame (encode (client_finish_frame finish session_id)) _ s
              unchanged
              λ bytes written.
                Post-bind Q E (λ x t. (t ≡ s) × Allocated x.handles)
                  (make_session c server_hello h session_id now s) _ make_session-Allocated
                  λ x t p. accepted bytes x t p.0 p.1

    pub answer_server_hello-Exchanged :
        Post
          (λ a t. Exchanged s t)
          (λ t. Exchanged s t)
          (answer_server_hello c server_hello h session_id now s)
    unfolding answer_server_hello
    answer_server_hello-Exchanged = elim (phase_cases h.phase) [
      | inl e ↦ rw (answer_server_hello, e) accept_server_hello-Exchanged
      | inr (expected, bytes, e) ↦
          rw (answer_server_hello, e) (repeat_finish-Exchanged expected bytes)
    ]

  pub handle_server_hello-Exchanged :
      (frame : WireFrame) (now : ℕ)
      → Post (λ a t. Exchanged s t) (λ t. Exchanged s t) (handle_server_hello c frame now s)
  unfolding handle_server_hello
  handle_server_hello-Exchanged frame now =
      Post-require Q E (is_handshaking s) _ _ s unchanged λ going.
        Post-or_raise Q E s.handshake _ _ s unchanged λ h has.
          Post-lift Q E EngineError.handshake (decode_server_hello frame) _ s unchanged
            λ hello read.
              Post-lift Q E EngineError.handshake
                (verify_server_hello c hello s.psk h.hello frame.session_id) _ s unchanged
                λ u verified. answer_server_hello-Exchanged hello h frame.session_id now going has
