-- ===== src/Engine/Server/Takes.antt =====
-- The invariant where `ServerEngine` of crates/udp2raw-ng-core/src/engine.rs takes records and
-- upstream datagrams and closes conversations.
use udp2raw_ng.Prelude.{
  ℕ, ◌-◌, inl, inr, not, ◌&&◌, some, List, ltb, ◌==◌, is_some, length, Bool-cases,
}
use udp2raw_ng.Prelude.Maps.{lookup}
use udp2raw_ng.Errors.{EngineError}
use udp2raw_ng.Crypto.{Primitives}
use udp2raw_ng.Protocol.{data_frame, resume_conversation}
use udp2raw_ng.Record.{AuthenticatedFrame, seal, open_record}
use udp2raw_ng.Handshake.Messages.{same_type}
use udp2raw_ng.Handshake.Auth.{verify_resumption_credential, millis}
use udp2raw_ng.Engine.Handles.{handle_for, insert_both}
use udp2raw_ng.Engine.Events.{TunnelAction}
use udp2raw_ng.Engine.Ends.{Ends, Ends-bind, Ends-require, Ends-or_raise, Ends-lift}
use udp2raw_ng.Engine.Client.Tunnel.{same_source, to_credential}
use udp2raw_ng.Engine.Server.{ServerEngine, ServerSession, put_session, now_ms, origin_or}
use udp2raw_ng.Engine.Server.Records.{
  active, conversation_for, grant, take_datagram, take_resumption, take_record, handle_record,
  handle_upstream, without, close_in,
}
use udp2raw_ng.Engine.Server.Fits.{Fits-bound, Fits-released, bind_cases}
use udp2raw_ng.Engine.Server.Invariant.{IsGood, FitsIn, Carries, Carries-put, Carries-found}
use udp2raw_ng.Engine.Server.Sessions.{conversation_for-Carries, found_of, grant-Carries}

module _ (c : Primitives) where
  take_datagram-Keeps :
      (frame : AuthenticatedFrame) (id : ℕ) (x : ServerSession) (now at : ℕ) (s : ServerEngine)
      → Carries id x s
      → Ends (λ r t. IsGood t) IsGood (take_datagram c frame id x now at s)
  unfolding take_datagram
  take_datagram-Keeps frame id x now at s k =
      let Q : List TunnelAction → ServerEngine → Type 0 = λ r t. IsGood t in
      Ends-or_raise Q IsGood frame.conversation_handle _ _ s k.holds.good λ handle named.
        Ends-bind Q IsGood (λ r t. Carries id r.1.1 t) (conversation_for id handle x now s) _
          (conversation_for-Carries id handle x now s k)
          λ found t k1.
            Ends-bind Q IsGood (λ r u. Carries id r.1 u)
              (grant c id found.1.0 handle found.0 found.1.1 now at t) _
              (grant-Carries c id found.1.0 handle found.0 found.1.1 now at t k1)
              λ granted u k2. k2.holds.good

  take_resumption-Keeps :
      (frame : AuthenticatedFrame) (id : ℕ) (x : ServerSession) (at : ℕ) (s : ServerEngine)
      → Carries id x s
      → Ends (λ r t. IsGood t) IsGood (take_resumption c frame id x at s)
  unfolding take_resumption
  take_resumption-Keeps frame id x at s k =
      let Q : List TunnelAction → ServerEngine → Type 0 = λ r t. IsGood t in
      Ends-or_raise Q IsGood (to_credential frame.plaintext) _ _ s k.holds.good λ credential whole.
        Ends-lift Q IsGood EngineError.handshake
          (verify_resumption_credential c s.cookie_secret credential at) _ s k.holds.good
          λ claim valid.
            Ends-require Q IsGood
              (same_source x.resumed_from claim.0 && is_some (lookup x.conversations claim.1)) _ _ s
              k.holds.good
              λ known.
                Ends-or_raise Q IsGood frame.conversation_handle _ _ s k.holds.good λ handle named.
                  elim (bind_cases x.handles handle claim.1) [
                    | inl failed ↦ rw failed (Carries-put id x s k.holds k.fits).holds.good
                    | inr (bound, fresh_k, fresh_c) ↦
                        let y : ServerSession = record x {
                          handles = insert_both x.handles handle claim.1;
                        } in
                        let (last, there) =
                          found_of (same_source x.resumed_from claim.0)
                            (lookup x.conversations claim.1) known in
                        let f =
                          Fits-bound s.config x.conversations x.handles handle claim.1 last k.fits
                            there fresh_k fresh_c in
                        rw bound (Carries-put id y s k.holds f).holds.good
                  ]

  take_record-Keeps :
      (frame : AuthenticatedFrame) (id : ℕ) (x : ServerSession) (now at : ℕ) (s : ServerEngine)
      → Carries id x s
      → Ends (λ r t. IsGood t) IsGood (take_record c frame id x now at s)
  unfolding take_record
  take_record-Keeps frame id x now at s k =
      elim (Bool-cases (same_type frame.frame_type resume_conversation)) [
        | inl resumes ↦ rw resumes (take_resumption-Keeps frame id x at s k)
        | inr other ↦ elim (Bool-cases (same_type frame.frame_type data_frame)) [
          | inl is_data ↦ rw (other, is_data) (take_datagram-Keeps frame id x now at s k)
          | inr other1 ↦ rw (other, other1) k.holds.good
        ]
      ]

  pub handle_record-Keeps :
      (peer_id id : ℕ) (bytes : List ℕ) (now : ℕ) (s : ServerEngine)
      → IsGood s
      → Ends (λ r t. IsGood t) IsGood (handle_record c peer_id id bytes now s)
  unfolding handle_record now_ms
  handle_record-Keeps peer_id id bytes now s g =
      let Q : List TunnelAction → ServerEngine → Type 0 = λ r t. IsGood t in
      let s1 : ServerEngine = record s { clock_origin = some (origin_or now s.clock_origin) } in
      Ends-or_raise Q IsGood (lookup s.sessions id) _ _ s1 g λ x has.
        Ends-require Q IsGood (x.peer_id == peer_id) _ _ s1 g λ own.
          let opened = open_record c x.opener bytes in
          let y : ServerSession = record x { opener = opened.0 } in
          let s2 = put_session id y s1 in
          let k = Carries-found id x s1 g has in
          let k2 = Carries-put id y s1 k.holds k.fits in
          Ends-lift Q IsGood EngineError.record_error opened.1 _ s2 k2.holds.good λ frame read.
            let z = active s.config now y in
            take_record-Keeps frame id z now (millis (now - origin_or now s.clock_origin))
              (put_session id z s2) (Carries-put id z s2 k2.holds k2.fits)

  pub handle_upstream-Keeps :
      (id conversation_id : ℕ) (payload : List ℕ) (now : ℕ) (s : ServerEngine)
      → IsGood s
      → Ends (λ r t. IsGood t) IsGood (handle_upstream c id conversation_id payload now s)
  unfolding handle_upstream
  handle_upstream-Keeps id conversation_id payload now s g =
      let Q : List TunnelAction → ServerEngine → Type 0 = λ r t. IsGood t in
      Ends-require Q IsGood (not (ltb s.config.max_frame_payload (length payload))) _ _ s g λ fits.
        Ends-or_raise Q IsGood (lookup s.sessions id) _ _ s g λ x has.
          Ends-or_raise Q IsGood (handle_for x.handles conversation_id) _ _ s g λ handle bound.
            let k = Carries-found id x s g has in
            let y = active s.config now x in
            let k1 = Carries-put id y s k.holds k.fits in
            let s1 = put_session id y s in
            Ends-lift Q IsGood EngineError.record_error
              (seal c y.sealer data_frame (some handle) payload) _ s1 k1.holds.good
              λ sealed done.
                (Carries-put id (record y { sealer = sealed.1 }) s1 k1.holds k1.fits).holds.good

pub FitsIn-without :
    (s : ServerEngine) (conversation_id : ℕ) (x : ServerSession)
    → FitsIn s.config x
    → FitsIn s.config (without conversation_id x)
FitsIn-without s conversation_id x f =
    Fits-released s.config x.conversations x.handles conversation_id f

pub close_in-Keeps :
    (id conversation_id : ℕ) (s : ServerEngine)
    → IsGood s
    → Ends (λ r t. IsGood t) IsGood (close_in id conversation_id s)
unfolding close_in
close_in-Keeps id conversation_id s g =
    let Q : List TunnelAction → ServerEngine → Type 0 = λ r t. IsGood t in
    Ends-or_raise Q IsGood (lookup s.sessions id) _ _ s g λ x has.
      Ends-require Q IsGood (is_some (lookup x.conversations conversation_id)) _ _ s g λ there.
        let k = Carries-found id x s g has in
        (Carries-put id (without conversation_id x) s k.holds
          (FitsIn-without s conversation_id x k.fits)).holds.good
