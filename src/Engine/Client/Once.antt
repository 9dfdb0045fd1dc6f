-- ===== src/Engine/Client/Once.antt =====
-- A record that comes again to `ClientEngine` of crates/udp2raw-ng-core/src/engine.rs.
use udp2raw_ng.Prelude.{
  ℕ, ◌≡◌, refl, ◌∙◌, ap, inl, inr, ◌⊎◌, true, false, Option, none, some, List, [], Bool-cases,
  Option-cases, ok, err,
}
use udp2raw_ng.Prelude.Maps.{lookup}
use udp2raw_ng.Errors.{EngineError, RecordError, duplicate}
use udp2raw_ng.Crypto.{Primitives}
use udp2raw_ng.Protocol.{WireFrame, handshake_ack, resumption_credential, data_frame}
use udp2raw_ng.Replay.Refinement.{Represents}
use udp2raw_ng.Record.{AuthenticatedFrame, RecordOpener, open_record}
use udp2raw_ng.Record.Delivery.{open_record_twice}
use udp2raw_ng.Handshake.Messages.{ResumptionCredential, same_type}
use udp2raw_ng.Engine.Handles.{id_for}
use udp2raw_ng.Engine.Events.{
  SessionState, idle, handshaking, ready, reconnecting, closed, TunnelAction, is_ready,
  is_handshaking_state,
}
use udp2raw_ng.Engine.Monad.{Outcome, returns, raises}
use udp2raw_ng.Engine.Rules.{Post, Post-bind, Post-or_raise, Post-state}
use udp2raw_ng.Engine.Client.{ClientEngine, ClientConversation, ClientSession}
use udp2raw_ng.Engine.Client.Local.{with_session}
use udp2raw_ng.Engine.Client.Tunnel.{
  to_credential, with_credential, touched, addressee, take_credential, take_data, take_frame,
  take_answer, handle_record,
}

-- A session that is ready and has the opener.
abbrev Opens : RecordOpener → ClientEngine → Type 0
Opens o s = (y : ClientSession) × (s.session ≡ some y) × (y.opener ≡ o) × (is_ready s.state ≡ true)

not_handshaking : (st : SessionState) → is_ready st ≡ true → is_handshaking_state st ≡ false
not_handshaking idle e = absurd cc
not_handshaking handshaking e = absurd cc
not_handshaking ready e = refl
not_handshaking reconnecting e = absurd cc
not_handshaking closed e = absurd cc

module _ (o : RecordOpener) where
  touched-Opens :
      (x : Option ClientConversation) (peer now : ℕ) (s : ClientEngine)
      → Opens o s
      → Opens o (touched x peer now s)
  touched-Opens none peer now s h = h
  touched-Opens (some x) peer now s h = h

  with_credential-Opens :
      (x : Option ClientConversation) (peer id : ℕ) (credential : ResumptionCredential) (now : ℕ)
      (s : ClientEngine)
      → Opens o s
      → Opens o (with_credential x peer id credential now s)
  with_credential-Opens none peer id credential now s h = h
  with_credential-Opens (some x) peer id credential now s h = h

  addressee-Opens :
      (handle : Option ℕ) (x : ClientSession) (s : ClientEngine)
      → Opens o s
      → Post (λ a t. Opens o t) (Opens o) (addressee handle x s)
  unfolding addressee
  addressee-Opens handle x s h =
      Post-or_raise (λ a t. Opens o t) (Opens o) handle _ _ s h
        λ k named.
          Post-or_raise (λ a t. Opens o t) (Opens o) (id_for x.handles k) _ _ s h
            λ id bound. elim (Option-cases (lookup s.by_id id)) [
              | inl e ↦ rw e h
              | inr (peer, e) ↦ rw e h
            ]

  module _ (c : Primitives) (frame : AuthenticatedFrame) (x : ClientSession) (now : ℕ)
      (s : ClientEngine) where
    take_data-Opens : Opens o s → Post (λ a t. Opens o t) (Opens o) (take_data frame x now s)
    unfolding take_data
    take_data-Opens h =
        Post-bind (λ a t. Opens o t) (Opens o) (λ a t. Opens o t)
          (addressee frame.conversation_handle x s) _
          (addressee-Opens frame.conversation_handle x s h)
          λ peer t k. touched-Opens (lookup t.by_peer peer) peer now t k

    take_credential-Opens :
        Opens o s → Post (λ a t. Opens o t) (Opens o) (take_credential frame x now s)
    unfolding take_credential
    take_credential-Opens h =
        Post-bind (λ a t. Opens o t) (Opens o) (λ a t. Opens o t)
          (addressee frame.conversation_handle x s) _
          (addressee-Opens frame.conversation_handle x s h)
          λ peer t k.
            Post-or_raise (λ a t. Opens o t) (Opens o) (to_credential frame.plaintext) _ _ t k
              λ credential whole.
                with_credential-Opens (lookup t.by_peer peer) peer x.id credential now t k

  take_frame-Opens :
      (c : Primitives) (frame : AuthenticatedFrame) (x : ClientSession) (now : ℕ) (s : ClientEngine)
      → s.session ≡ some x
      → x.opener ≡ o
      → is_ready s.state ≡ true
      → Post (λ a t. Opens o t) (Opens o) (take_frame c frame x now s)
  unfolding take_frame
  take_frame-Opens c frame x now s has own is =
      let h : Opens o s = (x, has, own, is) in
      let y : ClientSession = record x { last_received_at = now } in
      let s1 = with_session y s in
      let h1 : Opens o s1 = (y, refl, own, is) in
      let over = not_handshaking s.state is in
      elim (Bool-cases (same_type frame.frame_type handshake_ack)) [
        | inl ack ↦ rw (ack, over) h
        | inr other ↦ elim (Bool-cases (same_type frame.frame_type resumption_credential)) [
          | inl granted ↦ rw (other, is, granted) (take_credential-Opens c frame y now s1 h1)
          | inr other1 ↦ elim (Bool-cases (same_type frame.frame_type data_frame)) [
            | inl is_data ↦ rw (other, is, other1, is_data) (take_data-Opens c frame y now s1 h1)
            | inr other2 ↦ rw (other, is, other1, other2) h1
          ]
        ]
      ]

-- The answers that deliver nothing.
abbrev pub IsRefused : Outcome (List TunnelAction) → Type 0
IsRefused answer =
    (answer ≡ returns [])
    ⊎ (answer ≡ raises (EngineError.record_error (RecordError.replay duplicate)))

module _ (c : Primitives) (envelope : WireFrame) (bytes : List ℕ) where
  handle_record-Opens :
      (now : ℕ) (s : ClientEngine) (x : ClientSession) (frame : AuthenticatedFrame)
      → s.session ≡ some x
      → is_ready s.state ≡ true
      → (open_record c x.opener bytes).1 ≡ ok frame
      → Opens (open_record c x.opener bytes).0 (handle_record c envelope bytes now s).1
  unfolding handle_record take_answer
  handle_record-Opens now s x frame has is opens =
      let opened = open_record c x.opener bytes in
      let y : ClientSession = record x { opener = opened.0 } in
      rw (handle_record, is, has, opens)
        (Post-state (Opens opened.0) (take_frame c frame y now (with_session y s))
          (take_frame-Opens opened.0 c frame y now (with_session y s) refl refl is))

  refused :
      (later : ℕ) (t : ClientEngine) (o : RecordOpener)
      → Opens o t
      → (open_record c o bytes).1 ≡ err (RecordError.replay duplicate)
      → IsRefused (handle_record c envelope bytes later t).0
  unfolding handle_record take_answer
  refused later t o (y, has, own, is) again =
      let same = ap (λ (z : RecordOpener). (open_record c z bytes).1) own ∙ again in
      elim (Bool-cases (same_type envelope.frame_type handshake_ack)) [
        | inl ack ↦ inl (rw (handle_record, is, has, same, ack, is))
        | inr other ↦ inr (rw (handle_record, is, has, same, other))
      ]

  -- On a ready session whose replay window stands for a set of accepted numbers, bytes that the
  -- session's opener opens are handled once: whatever `handle_record` answers to them, it answers to the
  -- same bytes, when they come again next, with no actions or with the error for a duplicate.
  pub handle_record_twice :
      (now later : ℕ) (s : ClientEngine) (x : ClientSession) (accepted : List ℕ)
      (frame : AuthenticatedFrame)
      → s.session ≡ some x
      → is_ready s.state ≡ true
      → Represents x.opener.replay accepted
      → (open_record c x.opener bytes).1 ≡ ok frame
      → IsRefused (handle_record c envelope bytes later (handle_record c envelope bytes now s).1).0
  handle_record_twice now later s x accepted frame has is window opens =
      refused later (handle_record c envelope bytes now s).1 (open_record c x.opener bytes).0
        (handle_record-Opens now s x frame has is opens)
        (open_record_twice c x.opener bytes accepted frame window opens)
