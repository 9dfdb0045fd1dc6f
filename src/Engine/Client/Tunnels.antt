-- ===== src/Engine/Client/Tunnels.antt =====
-- The invariant where `ClientEngine` of crates/udp2raw-ng-core/src/engine.rs dispatches frames
-- from the server.
use udp2raw_ng.Prelude.{
  ℕ, ◌≡◌, refl, ap, inl, inr, ◌&&◌, ◌||◌, some, List, Bool-cases, is_some, Result, ok, err, ◌==◌,
}
use udp2raw_ng.Errors.{EngineError, RecordError}
use udp2raw_ng.Crypto.{Primitives}
use udp2raw_ng.Protocol.{
  FrameType, WireFrame, decode, hello_retry, server_hello, handshake_ack, resumption_credential,
  data_frame,
}
use udp2raw_ng.Handshake.Messages.{same_type}
use udp2raw_ng.Record.{AuthenticatedFrame, open_record}
use udp2raw_ng.Engine.Events.{is_ready, TunnelAction}
use udp2raw_ng.Engine.Rules.{Post-require, Post-or_raise, Post-lift}
use udp2raw_ng.Engine.Client.{ClientEngine, ClientSession, is_handshaking}
use udp2raw_ng.Engine.Client.Local.{with_session}
use udp2raw_ng.Engine.Client.Hello.{handle_hello_retry, handle_server_hello}
use udp2raw_ng.Engine.Client.Tunnel.{
  take_frame, is_duplicate, take_answer, handle_record, dispatch, handle_tunnel,
}
use udp2raw_ng.Engine.Client.Invariant.{IsGood}
use udp2raw_ng.Engine.Client.Steps.{IsGood-session, SessionAllocated-some}
use udp2raw_ng.Engine.Client.Replies.{handle_hello_retry-Exchanged, handle_server_hello-Exchanged}
use udp2raw_ng.Engine.Client.Frames.{
  Keeps, take_credential-Keeps, take_data-Keeps, exchanged-Keeps, take_ack-Keeps,
}

module _ (c : Primitives) where
  take_frame-Keeps :
      (frame : AuthenticatedFrame) (x : ClientSession) (now : ℕ) (s : ClientEngine)
      → IsGood s
      → s.session ≡ some x
      → Keeps (take_frame c frame x now s)
  unfolding take_frame
  take_frame-Keeps frame x now s g has =
      let Q : List TunnelAction → ClientEngine → Type 0 = λ b t. IsGood t in
      let E : ClientEngine → Type 0 = λ t. IsGood t in
      let a = SessionAllocated-some s.session x g.allocated has in
      elim (Bool-cases (same_type frame.frame_type handshake_ack)) [
        | inl ack ↦ elim (Bool-cases (is_handshaking s)) [
          | inl going ↦ rw (ack, going) (take_ack-Keeps c x now s g a)
          | inr over ↦ rw (ack, over) g
        ]
        | inr other ↦
            let y : ClientSession = record x { last_received_at = now } in
            let g1 = IsGood-session s (some y) g a (ap is_some has) in
            rw other (
              Post-require Q E (is_ready s.state) _ _ s g λ is.
                elim (Bool-cases (same_type frame.frame_type resumption_credential)) [
                  | inl granted ↦
                      rw granted (take_credential-Keeps frame y now (with_session y s) g1)
                  | inr other1 ↦ elim (Bool-cases (same_type frame.frame_type data_frame)) [
                    | inl is_data ↦
                        rw (other1, is_data) (take_data-Keeps frame y now (with_session y s) g1)
                    | inr other2 ↦ rw (other1, other2) g1
                  ]
                ])
      ]

  take_answer-Keeps :
      (t : FrameType) (r : Result RecordError AuthenticatedFrame) (x : ClientSession) (now : ℕ)
      (s : ClientEngine)
      → IsGood s
      → s.session ≡ some x
      → Keeps (take_answer c t r x now s)
  unfolding take_answer
  take_answer-Keeps t (ok frame) x now s g has = take_frame-Keeps frame x now s g has
  take_answer-Keeps t (err e) x now s g has =
      elim (Bool-cases (is_duplicate e && (same_type t handshake_ack && is_ready s.state))) [
        | inl again ↦ rw again g
        | inr other ↦ rw other g
      ]

  handle_record-Keeps :
      (envelope : WireFrame) (bytes : List ℕ) (now : ℕ) (s : ClientEngine)
      → IsGood s
      → Keeps (handle_record c envelope bytes now s)
  unfolding handle_record
  handle_record-Keeps envelope bytes now s g =
      let Q : List TunnelAction → ClientEngine → Type 0 = λ b t. IsGood t in
      let E : ClientEngine → Type 0 = λ t. IsGood t in
      Post-require Q E (is_ready s.state || is_handshaking s) _ _ s g λ in_session.
        Post-or_raise Q E s.session _ _ s g λ x has.
          let opened = open_record c x.opener bytes in
          let y : ClientSession = record x { opener = opened.0 } in
          let a = SessionAllocated-some s.session x g.allocated has in
          take_answer-Keeps envelope.frame_type opened.1 y now (with_session y s)
            (IsGood-session s (some y) g a (ap is_some has)) refl

  dispatch-Keeps :
      (envelope : WireFrame) (bytes : List ℕ) (now : ℕ) (s : ClientEngine)
      → IsGood s
      → Keeps (dispatch c envelope bytes now s)
  unfolding dispatch
  dispatch-Keeps envelope bytes now s g =
      elim (Bool-cases (same_type envelope.frame_type hello_retry)) [
        | inl retry ↦ rw retry (
            exchanged-Keeps s (handle_hello_retry c envelope now s)
              (handle_hello_retry-Exchanged c s g envelope now))
        | inr other ↦ elim (Bool-cases (same_type envelope.frame_type server_hello)) [
          | inl hello ↦
              rw (other, hello)
                (exchanged-Keeps s (handle_server_hello c envelope now s)
                  (handle_server_hello-Exchanged c s g envelope now))
          | inr other1 ↦ rw (other, other1) (handle_record-Keeps envelope bytes now s g)
        ]
      ]

  pub handle_tunnel-Keeps :
      (peer : ℕ) (bytes : List ℕ) (now : ℕ) (s : ClientEngine)
      → IsGood s
      → Keeps (handle_tunnel c peer bytes now s)
  unfolding handle_tunnel
  handle_tunnel-Keeps peer bytes now s g =
      let Q : List TunnelAction → ClientEngine → Type 0 = λ b t. IsGood t in
      let E : ClientEngine → Type 0 = λ t. IsGood t in
      Post-require Q E (peer == s.server_peer) _ _ s g λ known.
        Post-lift Q E EngineError.frame (decode bytes) _ s g
          λ envelope read. dispatch-Keeps envelope bytes now s g
