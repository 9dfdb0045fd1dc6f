-- ===== src/Engine/Client/Frames.antt =====
-- The invariant where `ClientEngine` of crates/udp2raw-ng-core/src/engine.rs takes frames from the
-- server.
use udp2raw_ng.Prelude.{
  ℕ, ◌≡◌, refl, inl, inr, Bool, true, false, not, ◌&&◌, Option, some, List, [], ◌∷◌, arith,
  Option-cases,
}
use udp2raw_ng.Prelude.Maps.{lookup}
use udp2raw_ng.Crypto.{Primitives}
use udp2raw_ng.Protocol.{resume_conversation}
use udp2raw_ng.Handshake.Messages.{ResumptionCredential}
use udp2raw_ng.Record.{AuthenticatedFrame}
use udp2raw_ng.Engine.Handles.{id_for}
use udp2raw_ng.Engine.Handles.Laws.{Allocated, new_handles-Allocated}
use udp2raw_ng.Engine.Events.{
  SessionState, idle, handshaking, ready, reconnecting, closed, TunnelAction,
}
use udp2raw_ng.Engine.Monad.{Outcome}
use udp2raw_ng.Engine.Rules.{Post, Post-bind, Post-weaken, Post-or_raise}
use udp2raw_ng.Engine.Client.{ClientEngine, ClientHandshake, ClientSession}
use udp2raw_ng.Engine.Client.Begin.{ready_session_is_stale}
use udp2raw_ng.Engine.Client.Local.{send_record, flush_queued_datagrams}
use udp2raw_ng.Engine.Client.Tunnel.{
  attempted_resumption, acknowledged, forget_unless, to_credential, with_credential, touched,
  addressee, take_credential, take_data, resume_all, to_resume, take_ack,
}
use udp2raw_ng.Engine.Client.Invariant.{InPhase, IsGood, Linked-none}
use udp2raw_ng.Engine.Client.Steps.{Calm, Calm-refl, received}
use udp2raw_ng.Engine.Client.Sends.{IsGood-update, Calm-then, send_record-Calm}
use udp2raw_ng.Engine.Client.Flush.{IsFresh, IsFresh-Calm, Flushed, flush_queued_datagrams-Flushed}
use udp2raw_ng.Engine.Client.Replies.{Exchanged}

-- The invariant, whatever is answered.
abbrev pub Keeps : {A : Type 0} → Outcome A × ClientEngine → Type 0
Keeps r = Post (λ a t. IsGood t) (λ t. IsGood t) r

touched-IsGood :
    (peer now : ℕ) (s : ClientEngine)
    → IsGood s
    → IsGood (touched (lookup s.by_peer peer) peer now s)
touched-IsGood peer now s g = elim (Option-cases (lookup s.by_peer peer)) [
  | inl e ↦ rw e g
  | inr (x, e) ↦ rw e (IsGood-update s peer x (record x { last_activity = now }) g e refl)
]

with_credential-IsGood :
    (peer session_id : ℕ) (credential : ResumptionCredential) (now : ℕ) (s : ClientEngine)
    → IsGood s
    → IsGood (with_credential (lookup s.by_peer peer) peer session_id credential now s)
with_credential-IsGood peer session_id credential now s g =
    elim (Option-cases (lookup s.by_peer peer)) [
      | inl e ↦ rw e g
      | inr (x, e) ↦ rw e (
          IsGood-update s peer x
            (record x { resumption = some (session_id, credential); last_activity = now }) g e refl)
    ]

addressee-Keeps :
    (handle : Option ℕ) (session : ClientSession) (s : ClientEngine)
    → IsGood s
    → Keeps (addressee handle session s)
unfolding addressee
addressee-Keeps handle session s g =
    let Q : ℕ → ClientEngine → Type 0 = λ a t. IsGood t in
    let E : ClientEngine → Type 0 = λ t. IsGood t in
    Post-or_raise Q E handle _ _ s g λ h e.
      Post-or_raise Q E (id_for session.handles h) _ _ s g λ id e1.
        elim (Option-cases (lookup s.by_id id)) [ inl e2 ↦ rw e2 g | inr (peer, e2) ↦ rw e2 g ]

module _ (frame : AuthenticatedFrame) (session : ClientSession) (now : ℕ) (s : ClientEngine)
    (g : IsGood s) where
  abbrev Q : List TunnelAction → ClientEngine → Type 0
  Q a t = IsGood t

  abbrev E : ClientEngine → Type 0
  E t = IsGood t

  pub take_credential-Keeps : Keeps (take_credential frame session now s)
  unfolding take_credential
  take_credential-Keeps =
      Post-bind Q E (λ a t. IsGood t) (addressee frame.conversation_handle session s) _
        (addressee-Keeps frame.conversation_handle session s g)
        λ peer t k.
          Post-or_raise Q E (to_credential frame.plaintext) _ _ t k
            λ credential e. with_credential-IsGood peer session.id credential now t k

  pub take_data-Keeps : Keeps (take_data frame session now s)
  unfolding take_data
  take_data-Keeps =
      Post-bind Q E (λ a t. IsGood t) (addressee frame.conversation_handle session s) _
        (addressee-Keeps frame.conversation_handle session s g)
        λ peer t k. touched-IsGood peer now t k

IsGood-acknowledged :
    (x : ClientSession) (now : ℕ) (s : ClientEngine)
    → IsGood s
    → Allocated x.handles
    → IsGood (acknowledged x now s)
IsGood-acknowledged x now s g a = record {
  valid = g.valid;
  phase = (refl, (_, refl));
  allocated = a;
  room = g.room;
  waiting = g.waiting;
  linked = g.linked;
}

IsFresh-acknowledged :
    (x : ClientSession) (now : ℕ) (s : ClientEngine)
    → IsGood s
    → Allocated x.handles
    → IsFresh now (acknowledged x now s)
unfolding ready_session_is_stale
IsFresh-acknowledged x now s g a = record {
  good = IsGood-acknowledged x now s g a;
  is_in = refl;
  fresh = ground (arith, g.valid.session);
}

-- Another session in the state that is ready.
ready_phase :
    (st : SessionState) (h : Option ClientHandshake) (x : Option ClientSession) (y : ClientSession)
    → st ≡ ready
    → InPhase st h x
    → InPhase st h (some y)
ready_phase idle h x y e p = absurd cc
ready_phase handshaking h x y e p = absurd cc
ready_phase ready h x y e p = (p.0, (y, refl))
ready_phase reconnecting h x y e p = absurd cc
ready_phase closed h x y e p = absurd cc

forget_unless-IsFresh :
    (test : Bool) (x : ClientSession) (now : ℕ) (s : ClientEngine)
    → IsFresh now s
    → x.last_received_at ≡ now
    → Post (λ a t. IsFresh now t) (λ t. ⊥) (forget_unless test x s)
unfolding forget_unless ready_session_is_stale
forget_unless-IsFresh true x now s f e = f
forget_unless-IsFresh false x now s f e = record {
  good = record {
    valid = f.good.valid;
    phase = ready_phase s.state s.handshake s.session _ f.is_in f.good.phase;
    allocated = new_handles-Allocated;
    room = omega arith;
    waiting = f.good.waiting;
    linked = Linked-none;
  };
  is_in = f.is_in;
  fresh = ground (arith, e, f.good.valid.session);
}

pub exchanged-Keeps :
    (s : ClientEngine) (r : Outcome (List TunnelAction) × ClientEngine)
    → Post (λ a t. Exchanged s t) (λ t. Exchanged s t) r
    → Keeps r
exchanged-Keeps s r h =
    Post-weaken (λ a t. IsGood t) (λ t. IsGood t) (λ a t. Exchanged s t) (λ t. Exchanged s t) r h
      (λ a t q. q.good) (λ t q. q.good)

module _ (c : Primitives) where
  resume_all-Calm :
      (l : List (ℕ × ResumptionCredential)) (s : ClientEngine)
      → IsGood s
      → Post (λ a t. Calm s t) (λ t. Calm s t) (resume_all c l s)
  unfolding resume_all
  resume_all-Calm [] s g = Calm-refl s g
  resume_all-Calm ((id, credential) ∷ rest) s g =
      let Q : List TunnelAction → ClientEngine → Type 0 = λ a t. Calm s t in
      let E : ClientEngine → Type 0 = λ t. Calm s t in
      Post-bind Q E (λ b t. Calm s t) (send_record c resume_conversation id credential s) _
        (send_record-Calm c resume_conversation id credential s g)
        λ b t calm.
          Post-bind Q E (λ a u. Calm s u) (resume_all c rest t) _
            (Calm-then s t (resume_all c rest t) calm (resume_all-Calm rest t calm.good)) λ a u q. q

  pub take_ack-Keeps :
      (x : ClientSession) (now : ℕ) (s : ClientEngine)
      → IsGood s
      → Allocated x.handles
      → Keeps (take_ack c x now s)
  unfolding take_ack
  take_ack-Keeps x now s g a =
      let Q : List TunnelAction → ClientEngine → Type 0 = λ b t. IsGood t in
      let E : ClientEngine → Type 0 = λ t. IsGood t in
      let s1 = acknowledged x now s in
      let f1 = IsFresh-acknowledged x now s g a in
      let x1 : ClientSession = record x { last_received_at = now } in
      let forgets = forget_unless (not (attempted_resumption s.handshake && not x.resumed)) x1 s1 in
      Post-bind Q E (λ b t. IsFresh now t) forgets _
        (Post-weaken (λ b t. IsFresh now t) E (λ b t. IsFresh now t) (λ t. ⊥) forgets
          (forget_unless-IsFresh _ x1 now s1 f1 refl) (λ b t f. f) λ t bad. absurd bad)
        λ b t f.
          let resumes = resume_all c (to_resume x.resumed x.resumption_source t.by_peer) t in
          Post-bind Q E (λ d u. Calm t u) resumes _
            (Post-weaken (λ d u. Calm t u) E (λ d u. Calm t u) (λ u. Calm t u) resumes
              (resume_all-Calm _ t f.good) (λ d u q. q) λ u q. q.good)
            λ d u calm.
              let flushes = flush_queued_datagrams c now u in
              Post-bind Q E (λ k v. Flushed c now (received u.session) v) flushes _
                (Post-weaken _ E (λ k v. Flushed c now (received u.session) v) (λ v. ⊥) flushes
                  (flush_queued_datagrams-Flushed c now u (IsFresh-Calm now t u f calm))
                  (λ k v q. q) λ v bad. absurd bad)
                λ k v q. q.still.good
