-- ===== src/Engine/Server/Keeps.antt =====
-- The invariant where `ServerEngine` of crates/udp2raw-ng-core/src/engine.rs takes handshake messages.
use mathlib.Core.Path.{subst}
use udp2raw_ng.Prelude.{
  ℕ, ◌-◌, ◌≡◌, sym, inl, inr, Bool, true, false, not, Option, none, some, List, leb, is_some,
  if◌then◌else◌, length, Option-cases,
}
use udp2raw_ng.Prelude.Maps.{insert}
use udp2raw_ng.Errors.{EngineError}
use udp2raw_ng.Crypto.{Primitives}
use udp2raw_ng.Protocol.{WireFrame, encode}
use udp2raw_ng.Handshake.Messages.{
  ClientHello, decode_client_hello, retry_frame, server_hello_frame,
}
use udp2raw_ng.Handshake.Auth.{same_suite, millis, create_retry, verify_cookie, create_server_hello}
use udp2raw_ng.Engine.Events.{TunnelAction}
use udp2raw_ng.Engine.Monad.{Outcome, pure}
use udp2raw_ng.Engine.Ends.{Ends, Ends-bind, Ends-require, Ends-lift, Post-Ends}
use udp2raw_ng.Engine.Server.{ServerEngine, PendingHandshake, Server, now_ms, origin_or}
use udp2raw_ng.Engine.Server.Rate.{allow_handshake_attempt}
use udp2raw_ng.Engine.Server.Limits.{Attempted, allow_handshake_attempt-Attempted}
use udp2raw_ng.Engine.Server.Admit.{
  pending_hello, pending_of, draw_unused, is_unused, draw_session_id, resume_from,
  draw_server_hello, is_ok, retry_with, retry_for, begin_pending, admit_hello, or_admit,
  handle_client_hello,
}
use udp2raw_ng.Engine.Server.Invariant.{IsBounded-insert, IsGood}

-- Whatever is answered, the invariant is kept.
abbrev pub Keeps : {A : Type 0} → Outcome A × ServerEngine → Type 0
Keeps r = Ends (λ a t. IsGood t) IsGood r

-- Both branches of a test.
Keeps-if :
    {A : Type 0} (test : Bool) (r q : Outcome A × ServerEngine)
    → Keeps r
    → Keeps q
    → Keeps (if test then r else q)
Keeps-if true r q h k = h
Keeps-if false r q h k = k

Keeps-choice :
    {A : Type 0} (test : Bool) (m k : Server A) (s : ServerEngine)
    → Keeps (m s)
    → Keeps (k s)
    → Keeps ((if test then m else k) s)
Keeps-choice true m k s h l = h
Keeps-choice false m k s h l = l

Attempted-IsGood : (s t : ServerEngine) → IsGood s → Attempted s t → IsGood t
Attempted-IsGood s t g a =
    let next : ServerEngine = record s { handshake_rate_buckets = t.handshake_rate_buckets } in
    let good : IsGood next = record {
      valid = g.valid;
      limited = a.limited;
      bounded = g.bounded;
      room = g.room;
      fitting = g.fitting;
      recoverable = g.recoverable;
    } in
    subst IsGood (sym a.rest) good

allow_handshake_attempt-Keeps :
    (peer_id now : ℕ) (s : ServerEngine) → IsGood s → Keeps (allow_handshake_attempt peer_id now s)
allow_handshake_attempt-Keeps peer_id now s g =
    Post-Ends (λ a t. IsGood t) IsGood (λ a t. Attempted s t) (λ t. ⊥)
      (allow_handshake_attempt peer_id now s)
      (allow_handshake_attempt-Attempted peer_id now s g.valid.refill g.limited)
      (λ a t q. Attempted-IsGood s t g q) λ t bad. absurd bad

IsGood-pending :
    (s : ServerEngine) (k : ℕ) (p : PendingHandshake)
    → IsGood s
    → not (leb s.config.max_pending_handshakes (length s.pending)) ≡ true
    → not (leb s.config.max_pending_handshakes_per_peer (pending_of p.peer_id s.pending)) ≡ true
    → IsGood (record s { pending = insert s.pending k p })
IsGood-pending s k p g space space_of = record {
  valid = g.valid;
  limited = g.limited;
  bounded = IsBounded-insert s.config s.pending k p g.bounded space space_of;
  room = g.room;
  fitting = g.fitting;
  recoverable = g.recoverable;
}

module _ (c : Primitives) (peer_id : ℕ) (hello : ClientHello) (now : ℕ) where
  begin_pending-Keeps : (s : ServerEngine) → IsGood s → Keeps (begin_pending c peer_id hello now s)
  unfolding begin_pending draw_session_id draw_server_hello now_ms
  begin_pending-Keeps s g =
      let Q : List TunnelAction → ServerEngine → Type 0 = λ a t. IsGood t in
      Ends-require Q IsGood (not (leb s.config.max_pending_handshakes (length s.pending))) _ _ s g
        λ space.
          Ends-require Q IsGood
            (not (leb s.config.max_pending_handshakes_per_peer (pending_of peer_id s.pending))) _ _
            s g
            λ space_of.
              let drawn = draw_unused (is_unused s) s.entropy in
              let s1 : ServerEngine = record s { entropy = drawn.1 } in
              Ends-lift Q IsGood (λ e. e) drawn.0 _ s1 g
                λ id given.
                  let origin = origin_or now s.clock_origin in
                  let source = resume_from c s1 (millis (now - origin)) hello.resumption in
                  let signed = create_server_hello c s.psk hello id (is_some source) drawn.1 in
                  let s2 : ServerEngine = record s {
                    entropy = signed.1;
                    clock_origin = some origin;
                  } in
                  Ends-lift Q IsGood (λ e. e) signed.0 _ s2 g
                    λ answer made.
                      Ends-lift Q IsGood EngineError.frame (encode (server_hello_frame answer id)) _
                        s2 g
                        λ bytes written.
                          IsGood-pending s2 id
                            (record {
                              peer_id = peer_id;
                              created_at = now;
                              client_hello = hello;
                              server_hello = answer;
                              resume_from = source;
                            })
                            g space space_of

  admit_hello-Keeps : (s : ServerEngine) → IsGood s → Keeps (admit_hello c peer_id hello now s)
  unfolding admit_hello
  admit_hello-Keeps s g =
      let Q : List TunnelAction → ServerEngine → Type 0 = λ a t. IsGood t in
      elim (Option-cases (pending_hello peer_id hello s.pending)) [
        | inl e ↦ rw (admit_hello, e) (begin_pending-Keeps s g)
        | inr (found, e) ↦
            rw (admit_hello, e)
              (Ends-lift Q IsGood EngineError.frame
                (encode (server_hello_frame found.1.server_hello found.0)) _ s g λ bytes written. g)
      ]

  retry_with-Keeps :
      (at : ℕ) (s : ServerEngine) → IsGood s → Keeps (retry_with c peer_id hello at s)
  unfolding retry_with
  retry_with-Keeps at s g =
      let Q : Option (List TunnelAction) → ServerEngine → Type 0 = λ a t. IsGood t in
      Ends-lift Q IsGood EngineError.crypto (create_retry c s.psk s.cookie_secret hello peer_id at)
        _ s g
        λ retry made.
          Ends-lift Q IsGood EngineError.frame (encode (retry_frame retry)) _ s g λ bytes written. g

  retry_for-Keeps : (s : ServerEngine) → IsGood s → Keeps (retry_for c peer_id hello now s)
  unfolding retry_for now_ms
  retry_for-Keeps s g =
      let at = millis (now - origin_or now s.clock_origin) in
      let s1 : ServerEngine = record s { clock_origin = some (origin_or now s.clock_origin) } in
      Keeps-if s.config.require_handshake_cookie _ _
        (Keeps-choice
          (is_ok
            (verify_cookie c s.cookie_secret hello peer_id at s.config.handshake_cookie_lifetime))
          (pure none) (retry_with c peer_id hello at) s1 g (retry_with-Keeps at s1 g))
        g

  or_admit-Keeps :
      (retry : Option (List TunnelAction)) (s : ServerEngine)
      → IsGood s
      → Keeps (or_admit retry (admit_hello c peer_id hello now) s)
  or_admit-Keeps none s g = admit_hello-Keeps s g
  or_admit-Keeps (some actions) s g = g

pub handle_client_hello-Keeps :
    (c : Primitives) (peer_id : ℕ) (frame : WireFrame) (now : ℕ) (s : ServerEngine)
    → IsGood s
    → Keeps (handle_client_hello c peer_id frame now s)
unfolding handle_client_hello
handle_client_hello-Keeps c peer_id frame now s g =
    let Q : List TunnelAction → ServerEngine → Type 0 = λ a t. IsGood t in
    Ends-lift Q IsGood EngineError.handshake (decode_client_hello frame) _ s g λ hello read.
      Ends-require Q IsGood (same_suite hello.suite s.config.cipher_suite) _ _ s g λ agreed.
        Ends-bind Q IsGood (λ a t. IsGood t) (allow_handshake_attempt peer_id now s) _
          (allow_handshake_attempt-Keeps peer_id now s g)
          λ allowed t g1. Ends-require Q IsGood allowed _ _ t g1 λ yes.
            Ends-bind Q IsGood (λ a u. IsGood u) (retry_for c peer_id hello now t) _
              (retry_for-Keeps c peer_id hello now t g1)
              λ retry u g2. or_admit-Keeps c peer_id hello now retry u g2
