-- ===== src/Engine/Client/Steps.antt =====
-- The parts of `ClientEngine::handle` of crates/udp2raw-ng-core/src/engine.rs that send a record, and
-- the invariant.
use mathlib.Core.Path.{subst}
use udp2raw_ng.Prelude.{ℕ, ◌≡◌, refl, sym, ◌∙◌, ap, Option, none, some, List, is_some}
use udp2raw_ng.Errors.{EngineError}
use udp2raw_ng.Crypto.{Primitives}
use udp2raw_ng.Protocol.{FrameType}
use udp2raw_ng.Record.{seal}
use udp2raw_ng.Engine.Handles.{handle_for_or_allocate}
use udp2raw_ng.Engine.Handles.Laws.{Allocated, handle_for_or_allocate-Allocated}
use udp2raw_ng.Engine.Events.{SessionState, idle, handshaking, ready, reconnecting, closed}
use udp2raw_ng.Engine.Rules.{Post, Post-or_raise, Post-or_panic, Post-lift}
use udp2raw_ng.Engine.Client.{
  ClientEngine, ClientHandshake, ClientHandshakePhase, ClientSession, awaiting_server_hello,
  awaiting_server_ack,
}
use udp2raw_ng.Engine.Client.Local.{with_session, send_record}
use udp2raw_ng.Engine.Client.Invariant.{Made, Exchanging, InPhase, SessionAllocated, IsGood}

Made-session :
    (p : ClientHandshakePhase) (x y : Option ClientSession)
    → is_some x ≡ is_some y
    → Made p x
    → Made p y
Made-session awaiting_server_hello none none e m = refl
Made-session awaiting_server_hello none (some y) e m = absurd cc
Made-session awaiting_server_hello (some x) y e m = absurd cc
Made-session (awaiting_server_ack h b) none y e (z, m) = absurd cc
Made-session (awaiting_server_ack h b) (some x) none e m = absurd cc
Made-session (awaiting_server_ack h b) (some x) (some y) e m = (y, refl)

Exchanging-session :
    (h : Option ClientHandshake) (x y : Option ClientSession)
    → is_some x ≡ is_some y
    → Exchanging h x
    → Exchanging h y
Exchanging-session none x y e m = absurd m
Exchanging-session (some h) x y e m = Made-session h.phase x y e m

none_again : (x y : Option ClientSession) → is_some x ≡ is_some y → x ≡ none → y ≡ none
none_again none none e m = refl
none_again none (some y) e m = absurd cc
none_again (some x) y e m = absurd cc

some_again :
    (x y : Option ClientSession)
    → is_some x ≡ is_some y
    → ((z : ClientSession) × (x ≡ some z))
    → (z : ClientSession) × (y ≡ some z)
some_again none y e (z, m) = absurd cc
some_again (some x) none e m = absurd cc
some_again (some x) (some y) e m = (y, refl)

InPhase-session :
    (st : SessionState) (h : Option ClientHandshake) (x y : Option ClientSession)
    → is_some x ≡ is_some y
    → InPhase st h x
    → InPhase st h y
InPhase-session idle h x y e p = (p.0, none_again x y e p.1)
InPhase-session handshaking h x y e p = Exchanging-session h x y e p
InPhase-session ready h x y e p = (p.0, some_again x y e p.1)
InPhase-session reconnecting h x y e p = Exchanging-session h x y e p
InPhase-session closed h x y e p = (p.0, none_again x y e p.1)

-- Another session in place of one.
pub IsGood-session :
    (s : ClientEngine) (y : Option ClientSession)
    → IsGood s
    → SessionAllocated y
    → is_some s.session ≡ is_some y
    → IsGood (record s { session = y })
IsGood-session s y g a e = record {
  valid = g.valid;
  phase = InPhase-session s.state s.handshake s.session y e g.phase;
  allocated = a;
  room = g.room;
  waiting = g.waiting;
  linked = g.linked;
}

pub SessionAllocated-some :
    (o : Option ClientSession) (x : ClientSession)
    → SessionAllocated o
    → o ≡ some x
    → Allocated x.handles
SessionAllocated-some o x a e = subst SessionAllocated e a

abbrev pub received : Option ClientSession → Option ℕ
received none = none
received (some session) = some session.last_received_at

-- A part that changes nothing but the session, and that in its handles and its sealer only.
pub record OnlySends (s t : ClientEngine) : Type 0 where
  pub rest : t ≡ record s { session = t.session }
  pub allocated : SessionAllocated t.session
  pub received_same : received s.session ≡ received t.session

OnlySends-refl : (s : ClientEngine) → SessionAllocated s.session → OnlySends s s
OnlySends-refl s a = record { rest = refl; allocated = a; received_same = refl }

OnlySends-some :
    (s : ClientEngine) (x y : ClientSession)
    → s.session ≡ some x
    → x.last_received_at ≡ y.last_received_at
    → Allocated y.handles
    → OnlySends s (with_session y s)
OnlySends-some s x y has same a = record {
  rest = refl;
  allocated = a;
  received_same = ap received has ∙ ap some same;
}

module _ (c : Primitives) where
  pub send_record-OnlySends :
      (t : FrameType) (id : ℕ) (plaintext : List ℕ) (s : ClientEngine)
      → SessionAllocated s.session
      → Post (λ b u. OnlySends s u) (λ u. OnlySends s u) (send_record c t id plaintext s)
  unfolding send_record
  send_record-OnlySends t id plaintext s a =
      let Q : List ℕ → ClientEngine → Type 0 = λ b u. OnlySends s u in
      let E : ClientEngine → Type 0 = λ u. OnlySends s u in
      let kept = OnlySends-refl s a in
      Post-or_raise Q E s.session _ _ s kept λ x has.
        let (r, h', e, v, range, failed, others) =
          handle_for_or_allocate-Allocated x.handles id (SessionAllocated-some s.session x a has) in
        let y : ClientSession = record x { handles = h' } in
        let bound = OnlySends-some s x y has refl v in
        Post-or_panic Q E (handle_for_or_allocate x.handles id) (r, h') _ s e
          (Post-lift Q E (λ f. f) r _ (with_session y s) bound
            λ handle given.
              Post-lift Q E EngineError.record_error (seal c x.sealer t (some handle) plaintext) _
                (with_session y s) bound
                λ sealed done. OnlySends-some s x (record y { sealer = sealed.1 }) has refl v)

-- A part that keeps the invariant and the state, the queue and the age of the session.
pub record Calm (s t : ClientEngine) : Type 0 where
  pub good : IsGood t
  pub config_same : t.config ≡ s.config
  pub state_same : t.state ≡ s.state
  pub queue_same : t.queued_datagrams ≡ s.queued_datagrams
  pub received_same : received t.session ≡ received s.session

pub Calm-refl : (s : ClientEngine) → IsGood s → Calm s s
Calm-refl s g = record {
  good = g;
  config_same = refl;
  state_same = refl;
  queue_same = refl;
  received_same = refl;
}

pub Calm-trans : (s t u : ClientEngine) → Calm s t → Calm t u → Calm s u
Calm-trans s t u p q = record {
  good = q.good;
  config_same = q.config_same ∙ p.config_same;
  state_same = q.state_same ∙ p.state_same;
  queue_same = q.queue_same ∙ p.queue_same;
  received_same = q.received_same ∙ p.received_same;
}

some_by_received : (x y : Option ClientSession) → received x ≡ received y → is_some x ≡ is_some y
some_by_received none none e = refl
some_by_received none (some y) e = absurd cc
some_by_received (some x) none e = absurd cc
some_by_received (some x) (some y) e = refl

pub Calm-sends : (s t : ClientEngine) → IsGood s → OnlySends s t → Calm s t
Calm-sends s t g o =
    let next = record s { session = t.session } in
    let calm : Calm s next = record {
      good =
          IsGood-session s t.session g o.allocated
            (some_by_received s.session t.session o.received_same);
      config_same = refl;
      state_same = refl;
      queue_same = refl;
      received_same = sym o.received_same;
    } in
    subst (Calm s) (sym o.rest) calm
