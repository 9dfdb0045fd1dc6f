-- ===== src/Engine/Client/Establish.antt =====
-- How a session of `ClientEngine` of crates/udp2raw-ng-core/src/engine.rs is established.
use udp2raw_ng.Prelude.{
  ℕ, ◌≡◌, refl, ◌∙◌, ap, inl, inr, true, false, ◌&&◌, ◌||◌, Option, some, List, leb, ltb, ◌==◌,
  ==_iff, is_some, Bool-cases, Option-cases, length, Result, ok, err,
}
use udp2raw_ng.Prelude.Maps.{lookup}
use udp2raw_ng.Errors.{EngineError, RecordError}
use udp2raw_ng.Crypto.{Primitives}
use udp2raw_ng.Protocol.{FrameType, WireFrame, decode, hello_retry, server_hello, handshake_ack}
use udp2raw_ng.Handshake.Messages.{same_type}
use udp2raw_ng.Record.{AuthenticatedFrame, RecordOpener, open_record}
use udp2raw_ng.Engine.Events.{
  handshaking, TunnelEvent, start_event, reconnect_event, client_datagram, server_datagram,
  tunnel_frame, time_advanced, close_conversation, TunnelAction, is_idle, is_ready,
}
use udp2raw_ng.Engine.Monad.{Outcome}
use udp2raw_ng.Engine.Rules.{Post, Post-state, Post-weaken, Post-require, Post-or_raise, Post-lift}
use udp2raw_ng.Engine.Client.{ClientEngine, ClientSession, is_handshaking, session_id_of}
use udp2raw_ng.Engine.Client.Queue.{enqueue_reconnect_datagram}
use udp2raw_ng.Engine.Client.Begin.{start, reconnect}
use udp2raw_ng.Engine.Client.Local.{with_session, handle_local}
use udp2raw_ng.Engine.Client.Hello.{handle_hello_retry, handle_server_hello}
use udp2raw_ng.Engine.Client.Tunnel.{
  take_ack, take_frame, is_duplicate, take_answer, handle_record, dispatch, handle_tunnel,
}
use udp2raw_ng.Engine.Client.Expire.{close}
use udp2raw_ng.Engine.Client.Handle.{names_session, handle}
use udp2raw_ng.Engine.Client.Invariant.{IsGood}
use udp2raw_ng.Engine.Client.Steps.{IsGood-session, SessionAllocated-some}
use udp2raw_ng.Engine.Client.Starts.{IsBare, IsBare-idle, begin_handshake-IsGood}
use udp2raw_ng.Engine.Client.Replies.{
  Exchanged, handle_hello_retry-Exchanged, handle_server_hello-Exchanged,
}
use udp2raw_ng.Engine.Client.Frames.{take_ack-Keeps}
use udp2raw_ng.Engine.Client.Timeout.{expire-not_ready}

abbrev IsAck : Result RecordError AuthenticatedFrame → Type 0
IsAck answer =
    (frame : AuthenticatedFrame) × (answer ≡ ok frame)
    × (same_type frame.frame_type handshake_ack ≡ true)

-- The bytes open under the session of an exchange that is under way, to an acknowledgement.
abbrev Acknowledges : Primitives → ClientEngine → List ℕ → Type 0
Acknowledges c s bytes =
    (x : ClientSession) × (s.session ≡ some x)
    × (is_handshaking s ≡ true)
    × IsAck (open_record c x.opener bytes).1

module _ (c : Primitives) (s : ClientEngine) (g : IsGood s)
    (unready : is_ready s.state ≡ false) where
  -- A state that is ready has this behind it.
  abbrev By : Type 0 → ClientEngine → Type 0
  By Ack t = is_ready t.state ≡ true → Ack

  still : (Ack : Type 0) (t : ClientEngine) → is_ready t.state ≡ false → By Ack t
  still Ack t e bad = absurd cc

  start-By : (now : ℕ) → Post (λ a t. By ⊥ t) (λ t. By ⊥ t) (start now s)
  unfolding start
  start-By now =
      let Q : List TunnelAction → ClientEngine → Type 0 = λ a t. By ⊥ t in
      let E : ClientEngine → Type 0 = λ t. By ⊥ t in
      Post-require Q E (is_idle s.state) _ _ s (still ⊥ s unready) λ is.
        Post-weaken Q E (λ a t. IsGood t × (t.state ≡ handshaking))
          (λ t. IsBare t × (t.state ≡ s.state)) _
          (begin_handshake-IsGood now handshaking s (IsBare-idle s g is) refl)
          (λ a t q. still ⊥ t (ap is_ready q.1)) λ t q. still ⊥ t (ap is_ready q.1 ∙ unready)

  reconnect-By : (now : ℕ) → Post (λ a t. By ⊥ t) (λ t. By ⊥ t) (reconnect now s)
  unfolding reconnect
  reconnect-By now = rw unready (still ⊥ s unready)

  handle_local-By :
      (peer : ℕ) (payload : List ℕ) (now : ℕ)
      → Post (λ a t. By ⊥ t) (λ t. By ⊥ t) (handle_local c peer payload now s)
  unfolding handle_local enqueue_reconnect_datagram
  handle_local-By peer payload now =
      elim (Bool-cases (ltb s.config.max_frame_payload (length payload))) [
        | inl large ↦ rw large (still ⊥ s unready)
        | inr fits ↦ elim (Bool-cases (is_handshaking s)) [
          | inr over ↦ rw (fits, unready, over) (still ⊥ s unready)
          | inl going ↦
              elim (Bool-cases
                (leb s.config.reconnect_queue_capacity (length s.queued_datagrams))) [
                  | inl full ↦ rw (fits, unready, going, full) (still ⊥ s unready)
                  | inr space ↦ rw (fits, unready, going, space) (still ⊥ s unready)
                ]
        ]
      ]

  close-By : (id : ℕ) → By ⊥ (close id s).1
  unfolding close
  close-By id = elim (Option-cases (lookup s.by_id id)) [
    | inl e ↦ rw (close, e) (still ⊥ s unready)
    | inr (peer, e) ↦ rw (close, e) (still ⊥ s unready)
  ]

  module _ (x : ClientSession) (has : s.session ≡ some x) (o : RecordOpener) (now : ℕ) where
    abbrev y : ClientSession
    y = record x { opener = o }

    abbrev opened : ClientEngine
    opened = with_session y s

    opened-IsGood : IsGood opened
    opened-IsGood =
        IsGood-session s (some y) g (SessionAllocated-some s.session x g.allocated has)
          (ap (λ (z : Option ClientSession). is_some z) has)

    module _ (Ack : Type 0) where
      take_frame-By :
          (frame : AuthenticatedFrame)
          → (same_type frame.frame_type handshake_ack ≡ true → is_handshaking s ≡ true → Ack)
          → Post (λ a t. By Ack t) (λ t. By Ack t) (take_frame c frame y now opened)
      unfolding take_frame
      take_frame-By frame k = elim (Bool-cases (same_type frame.frame_type handshake_ack)) [
        | inl ack ↦ elim (Bool-cases (is_handshaking s)) [
          | inl going ↦
              rw (ack, going)
                (Post-weaken (λ a t. By Ack t) (λ t. By Ack t) (λ a t. IsGood t) (λ t. IsGood t)
                  (take_ack c y now opened)
                  (take_ack-Keeps c y now opened opened-IsGood opened-IsGood.allocated)
                  (λ a t q r. k ack going) λ t q r. k ack going)
          | inr over ↦ rw (ack, over) (still Ack opened unready)
        ]
        | inr other ↦ rw (other, unready) (still Ack opened unready)
      ]

      take_answer-By :
          (t : FrameType) (r : Result RecordError AuthenticatedFrame)
          → (IsAck r → is_handshaking s ≡ true → Ack)
          → Post (λ a u. By Ack u) (λ u. By Ack u) (take_answer c t r y now opened)
      unfolding take_answer
      take_answer-By t (ok frame) k = take_frame-By frame λ ack going. k (frame, refl, ack) going
      take_answer-By t (err e) k =
          elim (Bool-cases (is_duplicate e && (same_type t handshake_ack && is_ready s.state))) [
            | inl again ↦ rw again (still Ack opened unready)
            | inr other ↦ rw other (still Ack opened unready)
          ]

  module _ (peer : ℕ) (bytes : List ℕ) (now : ℕ) where
    abbrev Ack : Type 0
    Ack = Acknowledges c s bytes

    abbrev Q : List TunnelAction → ClientEngine → Type 0
    Q a t = By Ack t

    abbrev E : ClientEngine → Type 0
    E t = By Ack t

    handle_record-By : (envelope : WireFrame) → Post Q E (handle_record c envelope bytes now s)
    unfolding handle_record
    handle_record-By envelope =
        Post-require Q E (is_ready s.state || is_handshaking s) _ _ s (still Ack s unready)
          λ in_session. Post-or_raise Q E s.session _ _ s (still Ack s unready) λ x has.
            let answer = open_record c x.opener bytes in
            take_answer-By x has answer.0 now Ack envelope.frame_type answer.1
              λ ack going. (x, has, going, ack)

    exchanged-By :
        (r : Outcome (List TunnelAction) × ClientEngine)
        → Post (λ a t. Exchanged s t) (λ t. Exchanged s t) r
        → Post Q E r
    exchanged-By r h =
        Post-weaken Q E (λ a t. Exchanged s t) (λ t. Exchanged s t) r h
          (λ a t q. still Ack t (ap is_ready q.state_same ∙ unready))
          λ t q. still Ack t (ap is_ready q.state_same ∙ unready)

    dispatch-By : (envelope : WireFrame) → Post Q E (dispatch c envelope bytes now s)
    unfolding dispatch
    dispatch-By envelope = elim (Bool-cases (same_type envelope.frame_type hello_retry)) [
      | inl retry ↦ rw retry (
          exchanged-By (handle_hello_retry c envelope now s)
            (handle_hello_retry-Exchanged c s g envelope now))
      | inr other ↦ elim (Bool-cases (same_type envelope.frame_type server_hello)) [
        | inl hello ↦
            rw (other, hello)
              (exchanged-By (handle_server_hello c envelope now s)
                (handle_server_hello-Exchanged c s g envelope now))
        | inr other1 ↦ rw (other, other1) (handle_record-By envelope)
      ]
    ]

    handle_tunnel-By :
        Post
          (λ a t. By ((peer ≡ s.server_peer) × Ack) t)
          (λ t. By ((peer ≡ s.server_peer) × Ack) t)
          (handle_tunnel c peer bytes now s)
    unfolding handle_tunnel
    handle_tunnel-By =
        let Both = (peer ≡ s.server_peer) × Ack in
        let Q2 : List TunnelAction → ClientEngine → Type 0 = λ a t. By Both t in
        let E2 : ClientEngine → Type 0 = λ t. By Both t in
        Post-require Q2 E2 (peer == s.server_peer) _ _ s (still Both s unready) λ known.
          Post-lift Q2 E2 EngineError.frame (decode bytes) _ s (still Both s unready)
            λ envelope read.
              let k = (==_iff peer s.server_peer).0 known in
              Post-weaken Q2 E2 Q E (dispatch c envelope bytes now s) (dispatch-By envelope)
                (λ a t q r. (k, q r)) λ t q r. (k, q r)

-- The event that establishes a session.
abbrev pub Establishes : Primitives → ClientEngine → TunnelEvent → Type 0
Establishes c s (tunnel_frame peer bytes) = (peer ≡ s.server_peer) × Acknowledges c s bytes
Establishes c s _ = ⊥

-- From a state with the invariant that is not ready, `handle` comes to a ready state only by a tunnel
-- frame from the server's peer, while an exchange is under way, whose bytes the opener of the session
-- opens to an acknowledgement of the handshake.
pub handle-Establishes :
    (c : Primitives) (s : ClientEngine) (e : TunnelEvent) (now : ℕ)
    → IsGood s
    → is_ready s.state ≡ false
    → is_ready (handle c e now s).1.state ≡ true
    → Establishes c s e
unfolding handle
handle-Establishes c s start_event now g unready =
    Post-state (By c s g unready ⊥) (start now s) (start-By c s g unready now)
handle-Establishes c s reconnect_event now g unready =
    Post-state (By c s g unready ⊥) (reconnect now s) (reconnect-By c s g unready now)
handle-Establishes c s (client_datagram peer payload) now g unready =
    Post-state (By c s g unready ⊥) (handle_local c peer payload now s)
      (handle_local-By c s g unready peer payload now)
handle-Establishes c s (server_datagram session_id id payload) now g unready = λ is. absurd cc
handle-Establishes c s (tunnel_frame peer bytes) now g unready =
    Post-state (By c s g unready ((peer ≡ s.server_peer) × Acknowledges c s bytes))
      (handle_tunnel c peer bytes now s) (handle_tunnel-By c s g unready peer bytes now)
handle-Establishes c s (time_advanced at) now g unready =
    λ is. let over = expire-not_ready at s unready in absurd cc
handle-Establishes c s (close_conversation session_id id) now g unready =
    elim (Bool-cases (names_session session_id (session_id_of s.session))) [
      | inl named ↦ rw named (close-By c s g unready id)
      | inr other ↦ rw other (λ is. absurd cc)
    ]
