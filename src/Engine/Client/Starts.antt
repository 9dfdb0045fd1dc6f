-- ===== src/Engine/Client/Starts.antt =====
-- The invariant where `ClientEngine` of crates/udp2raw-ng-core/src/engine.rs begins a handshake and
-- where it takes local datagrams.
use mathlib.Core.Path.{subst}
use udp2raw_ng.Prelude.{
  ℕ, ◌≤◌, ◌≡◌, refl, sym, ◌∙◌, ap, true, Option, none, some, List, if◌then◌else◌, length,
}
use udp2raw_ng.Errors.{EngineError}
use udp2raw_ng.Config.Laws.{IsValid}
use udp2raw_ng.Protocol.{encode}
use udp2raw_ng.Handshake.Messages.{ClientHello, generate_client_hello, client_hello_frame}
use udp2raw_ng.Engine.Events.{
  SessionState, idle, handshaking, ready, reconnecting, closed, TunnelAction, is_idle,
  is_reconnecting, is_handshaking_state,
}
use udp2raw_ng.Engine.Monad.{Outcome, returns, raises, panics}
use udp2raw_ng.Engine.Rules.{Post, Post-weaken, Post-require, Post-lift}
use udp2raw_ng.Engine.Client.{ClientEngine, ClientHandshake, ClientSession, awaiting_server_hello}
use udp2raw_ng.Engine.Client.Begin.{
  offered, draw_hello, begun, begin_handshake, closing, reconnected, begin_reconnect, start,
}
use udp2raw_ng.Engine.Client.Invariant.{InPhase, SessionAllocated, Linked, IsGood}

-- Neither handshake nor session.
pub record IsBare (s : ClientEngine) : Type 0 where
  pub valid : IsValid s.config
  pub no_handshake : s.handshake ≡ none
  pub no_session : s.session ≡ none
  pub room : length s.by_peer ≤ s.config.max_conversations
  pub waiting : length s.queued_datagrams ≤ s.config.reconnect_queue_capacity
  pub linked : Linked s.by_peer s.by_id

pub IsBare-idle : (s : ClientEngine) → IsGood s → is_idle s.state ≡ true → IsBare s
IsBare-idle s g e =
    let (h, x) = bare s.state s.handshake s.session e g.phase in
    record {
      valid = g.valid;
      no_handshake = h;
      no_session = x;
      room = g.room;
      waiting = g.waiting;
      linked = g.linked;
    }
  where
    bare :
        (st : SessionState) (h : Option ClientHandshake) (x : Option ClientSession)
        → is_idle st ≡ true
        → InPhase st h x
        → (h ≡ none) × (x ≡ none)
    bare idle h x e p = p
    bare handshaking h x e p = absurd cc
    bare ready h x e p = absurd cc
    bare reconnecting h x e p = absurd cc
    bare closed h x e p = p

IsGood-closed : (s : ClientEngine) → IsBare s → IsGood (record s { state = closed })
IsGood-closed s b = record {
  valid = b.valid;
  phase = (b.no_handshake, b.no_session);
  allocated = subst SessionAllocated (sym b.no_session) tt;
  room = b.room;
  waiting = b.waiting;
  linked = b.linked;
}

IsGood-idle : (s : ClientEngine) → IsBare s → is_idle s.state ≡ true → IsGood s
IsGood-idle s b e = record {
  valid = b.valid;
  phase = idle_phase s.state s.handshake s.session e b.no_handshake b.no_session;
  allocated = subst SessionAllocated (sym b.no_session) tt;
  room = b.room;
  waiting = b.waiting;
  linked = b.linked;
}
  where
    idle_phase :
        (st : SessionState) (h : Option ClientHandshake) (x : Option ClientSession)
        → is_idle st ≡ true
        → h ≡ none
        → x ≡ none
        → InPhase st h x
    idle_phase idle h x e p q = (p, q)
    idle_phase handshaking h x e p q = absurd cc
    idle_phase ready h x e p q = absurd cc
    idle_phase reconnecting h x e p q = absurd cc
    idle_phase closed h x e p q = absurd cc

begun_phase :
    (st : SessionState) (h : ClientHandshake) (x : Option ClientSession)
    → is_handshaking_state st ≡ true
    → h.phase ≡ awaiting_server_hello
    → x ≡ none
    → InPhase st (some h) x
begun_phase idle h x e p n = absurd cc
begun_phase handshaking h x e p n = rw p n
begun_phase ready h x e p n = absurd cc
begun_phase reconnecting h x e p n = rw p n
begun_phase closed h x e p n = absurd cc

IsGood-begun :
    (hello : ClientHello) (now : ℕ) (st : SessionState) (s : ClientEngine)
    → IsBare s
    → is_handshaking_state st ≡ true
    → IsGood (begun hello now st s)
IsGood-begun hello now st s b e = record {
  valid = b.valid;
  phase =
      begun_phase st
        (record {
          hello = hello;
          phase = awaiting_server_hello;
          started_at = now;
          last_sent_at = now;
          attempts = 1;
        })
        s.session e refl b.no_session;
  allocated = subst SessionAllocated (sym b.no_session) tt;
  room = b.room;
  waiting = b.waiting;
  linked = b.linked;
}

pub begin_handshake-IsGood :
    (now : ℕ) (st : SessionState) (s : ClientEngine)
    → IsBare s
    → is_handshaking_state st ≡ true
    → Post
        (λ a t. IsGood t × (t.state ≡ st))
        (λ t. IsBare t × (t.state ≡ s.state))
        (begin_handshake now st s)
unfolding begin_handshake draw_hello
begin_handshake-IsGood now st s b e =
    let Q : List TunnelAction → ClientEngine → Type 0 = λ a t. IsGood t × (t.state ≡ st) in
    let E : ClientEngine → Type 0 = λ t. IsBare t × (t.state ≡ s.state) in
    let resumption = if is_reconnecting st then offered s.by_peer else none in
    let drawn = generate_client_hello s.config.cipher_suite resumption s.entropy in
    let s1 : ClientEngine = record s { entropy = drawn.1 } in
    let b1 : IsBare s1 = record {
      valid = b.valid;
      no_handshake = b.no_handshake;
      no_session = b.no_session;
      room = b.room;
      waiting = b.waiting;
      linked = b.linked;
    } in
    Post-lift Q E (λ f. f) drawn.0 _ s1 (b1, refl)
      λ hello given.
        Post-lift Q E EngineError.frame (encode (client_hello_frame hello)) _ s1 (b1, refl)
          λ bytes written. (IsGood-begun hello now st s1 b1 e, refl)

-- What a method that cannot fail leaves.
abbrev pub Leaves : {A : Type 0} → (ClientEngine → Type 0) → A × ClientEngine → Type 0
Leaves P (a, t) = P t

reconnected-IsGood :
    (actions : List TunnelAction) (r : Outcome (List TunnelAction) × ClientEngine)
    (st : SessionState)
    → Post (λ a t. IsGood t × (t.state ≡ reconnecting)) (λ t. IsBare t × (t.state ≡ st)) r
    → Leaves IsGood (reconnected actions r)
reconnected-IsGood actions (returns a, t) st p = p.0
reconnected-IsGood actions (raises e, t) st p = IsGood-closed t p.0
reconnected-IsGood actions (panics, t) st p = absurd p

pub begin_reconnect-IsGood :
    (now : ℕ) (s : ClientEngine) → IsGood s → Leaves IsGood (begin_reconnect now s)
unfolding begin_reconnect
begin_reconnect-IsGood now s g =
    let s1 : ClientEngine = record s { session = none; handshake = none } in
    let b1 : IsBare s1 = record {
      valid = g.valid;
      no_handshake = refl;
      no_session = refl;
      room = g.room;
      waiting = g.waiting;
      linked = g.linked;
    } in
    reconnected-IsGood (closing s) (begin_handshake now reconnecting s1) s.state
      (begin_handshake-IsGood now reconnecting s1 b1 refl)

pub start-IsGood :
    (now : ℕ) (s : ClientEngine) → IsGood s → Post (λ a t. IsGood t) (λ t. IsGood t) (start now s)
unfolding start
start-IsGood now s g =
    let Q : List TunnelAction → ClientEngine → Type 0 = λ a t. IsGood t in
    let E : ClientEngine → Type 0 = λ t. IsGood t in
    Post-require Q E (is_idle s.state) _ _ s g λ is.
      Post-weaken Q E (λ a t. IsGood t × (t.state ≡ handshaking))
        (λ t. IsBare t × (t.state ≡ s.state)) (begin_handshake now handshaking s)
        (begin_handshake-IsGood now handshaking s (IsBare-idle s g is) refl) (λ a t q. q.0)
        λ t q. IsGood-idle t q.0 (ap is_idle q.1 ∙ is)
