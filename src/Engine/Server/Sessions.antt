-- ===== src/Engine/Server/Sessions.antt =====
-- The invariant where `ServerEngine` of crates/udp2raw-ng-core/src/engine.rs takes records and
-- upstream datagrams and closes conversations.
use udp2raw_ng.Prelude.{
  ℕ, ◌+◌, ◌-◌, ◌^◌, min, ◌≡◌, refl, inl, inr, Bool, true, false, not, ◌&&◌, Option, none, some,
  List, [], ◌∷◌, leb, is_some, length, Bool-cases, Option-cases,
}
use udp2raw_ng.Prelude.Maps.{lookup}
use udp2raw_ng.Errors.{EngineError}
use udp2raw_ng.Crypto.{Primitives}
use udp2raw_ng.Entropy.{generate_conversation}
use udp2raw_ng.Protocol.{resumption_credential}
use udp2raw_ng.Record.{seal}
use udp2raw_ng.Handshake.Messages.{ResumptionCredential}
use udp2raw_ng.Handshake.Auth.{issue_resumption_credential, millis}
use udp2raw_ng.Engine.Handles.{id_for, handle_for, insert_both}
use udp2raw_ng.Engine.Events.{TunnelAction}
use udp2raw_ng.Engine.Ends.{Ends, Ends-bind, Ends-require, Ends-or_panic, Ends-lift, Ends-last}
use udp2raw_ng.Engine.Server.{ServerEngine, ServerSession, put_session}
use udp2raw_ng.Engine.Server.Records.{
  draw_id, at_work, open_conversation, conversation_for, should_refresh, ids_of, draw_credential,
  send_credential, grant_all, refresh_credentials, grant,
}
use udp2raw_ng.Engine.Server.Fits.{Fits-used, Fits-opened, bind_cases}
use udp2raw_ng.Engine.Server.Invariant.{
  IsGood, Carries, Carries-put, Carries-put_twice, Carries-entropy,
}

open_conversation-Carries :
    (id handle : ℕ) (x : ServerSession) (now : ℕ) (s : ServerEngine)
    → Carries id x s
    → lookup x.handles.by_handle handle ≡ none
    → Ends (λ r t. Carries id r.1 t) IsGood (open_conversation id handle x now s)
unfolding open_conversation draw_id
open_conversation-Carries id handle x now s k fresh =
    let Q : ℕ × ServerSession → ServerEngine → Type 0 = λ r t. Carries id r.1 t in
    let drawn = generate_conversation s.entropy in
    let s1 : ServerEngine = record s { entropy = drawn.1 } in
    let k1 = Carries-entropy id x s drawn.1 k in
    Ends-require Q IsGood (not (leb s.config.max_conversations (length x.conversations))) _ _ s
      k.holds.good
      λ space.
        Ends-lift Q IsGood (λ e. e) drawn.0 _ s1 k1.holds.good
          λ c given. elim (bind_cases x.handles handle c) [
            | inl failed ↦ rw failed (Carries-put id x s1 k1.holds k1.fits).holds.good
            | inr (bound, fresh_k, fresh_c) ↦
                let y : ServerSession = record x { handles = insert_both x.handles handle c } in
                let z = at_work c now y in
                let f =
                  Fits-opened s.config x.conversations x.handles handle c now k.fits space fresh_k
                    fresh_c in
                rw bound (Carries-put_twice id y z s1 k1.holds f)
          ]

pub conversation_for-Carries :
    (id handle : ℕ) (x : ServerSession) (now : ℕ) (s : ServerEngine)
    → Carries id x s
    → Ends (λ r t. Carries id r.1.1 t) IsGood (conversation_for id handle x now s)
unfolding conversation_for
conversation_for-Carries id handle x now s k =
    let Q : Bool × (ℕ × ServerSession) → ServerEngine → Type 0 = λ r t. Carries id r.1.1 t in
    elim (Option-cases (id_for x.handles handle)) [
      | inr (c, e) ↦
          rw (conversation_for, e)
            (Carries-put id (at_work c now x) s k.holds
              (Fits-used s.config x.conversations x.handles handle c now k.fits e))
      | inl e ↦
          rw (conversation_for, e)
            (Ends-bind Q IsGood (λ r t. Carries id r.1 t) (open_conversation id handle x now s) _
              (open_conversation-Carries id handle x now s k e) λ r t q. q)
    ]

pub found_of :
    {A : Type 0} (test : Bool) (o : Option A) → (test && is_some o) ≡ true → (a : A) × (o ≡ some a)
found_of true none e = absurd cc
found_of true (some a) e = (a, refl)
found_of false o e = absurd cc

module _ (c : Primitives) where
  draw_credential-Carries :
      (id conversation_id at : ℕ) (x : ServerSession) (s : ServerEngine)
      → Carries id x s
      → Ends (λ r t. Carries id x t) IsGood (draw_credential c id conversation_id at s)
  unfolding draw_credential
  draw_credential-Carries id conversation_id at x s k =
      let drawn =
        issue_resumption_credential c s.cookie_secret id conversation_id at
          (min (at + millis s.config.resumption_lifetime) (2 ^ 64 - 1)) s.entropy in
      let k1 = Carries-entropy id x s drawn.1 k in
      Ends-last (λ r t. Carries id x t) IsGood EngineError.crypto drawn.0
        (record s { entropy = drawn.1 }) k1.holds.good λ credential given. k1

  send_credential-Carries :
      (id : ℕ) (credential : ResumptionCredential) (handle : ℕ) (x : ServerSession)
      (s : ServerEngine)
      → Carries id x s
      → Ends (λ r t. Carries id r.1 t) IsGood (send_credential c id credential handle x s)
  unfolding send_credential
  send_credential-Carries id credential handle x s k =
      Ends-lift (λ r t. Carries id r.1 t) IsGood EngineError.record_error
        (seal c x.sealer resumption_credential (some handle) credential) _ s k.holds.good
        λ sealed done. Carries-put id (record x { sealer = sealed.1 }) s k.holds k.fits

  grant_all-Carries :
      (id at : ℕ) (l : List ℕ) (x : ServerSession) (s : ServerEngine)
      → Carries id x s
      → Ends (λ r t. Carries id r.1 t) IsGood (grant_all c id at l x s)
  unfolding grant_all
  grant_all-Carries id at [] x s k = k
  grant_all-Carries id at (conversation_id ∷ rest) x s k =
      let Q : List TunnelAction × ServerSession → ServerEngine → Type 0 = λ r t. Carries id r.1 t in
      Ends-bind Q IsGood (λ r t. Carries id x t) (draw_credential c id conversation_id at s) _
        (draw_credential-Carries id conversation_id at x s k)
        λ credential t k1.
          Ends-or_panic Q IsGood (handle_for x.handles conversation_id) _ t k1.holds.good
            λ handle found.
              Ends-bind Q IsGood (λ r u. Carries id r.1 u)
                (send_credential c id credential handle x t) _
                (send_credential-Carries id credential handle x t k1)
                λ sent u k2.
                  Ends-bind Q IsGood (λ r v. Carries id r.1 v) (grant_all c id at rest sent.1 u) _
                    (grant_all-Carries id at rest sent.1 u k2) λ r v q. q

  refresh_credentials-Carries :
      (id conversation_id : ℕ) (x : ServerSession) (now at : ℕ) (s : ServerEngine)
      → Carries id x s
      → Ends (λ r t. Carries id r.1 t) IsGood (refresh_credentials c id conversation_id x now at s)
  unfolding refresh_credentials
  refresh_credentials-Carries id conversation_id x now at s k =
      let Q : List TunnelAction × ServerSession → ServerEngine → Type 0 = λ r t. Carries id r.1 t in
      Ends-bind Q IsGood (λ r t. Carries id x t) (draw_credential c id conversation_id at s) _
        (draw_credential-Carries id conversation_id at x s k)
        λ credential t k1.
          let fresh : ServerSession = record x {
            resumption_credential = some (credential, now + s.config.resumption_lifetime);
          } in
          grant_all-Carries id at (ids_of fresh.conversations) fresh (put_session id fresh t)
            (Carries-put id fresh t k1.holds k1.fits)

  pub grant-Carries :
      (id conversation_id handle : ℕ) (is_new : Bool) (x : ServerSession) (now at : ℕ)
      (s : ServerEngine)
      → Carries id x s
      → Ends (λ r t. Carries id r.1 t) IsGood (grant c id conversation_id handle is_new x now at s)
  unfolding grant
  grant-Carries id conversation_id handle is_new x now at s k =
      let Q : List TunnelAction × ServerSession → ServerEngine → Type 0 = λ r t. Carries id r.1 t in
      elim (Bool-cases (should_refresh s.config now x.resumption_credential)) [
        | inl due ↦ rw due (refresh_credentials-Carries id conversation_id x now at s k)
        | inr not_due ↦ elim (Bool-cases is_new) [
          | inr old ↦ rw (not_due, old) k
          | inl new ↦
              rw (not_due, new)
                (Ends-bind Q IsGood (λ r t. Carries id x t)
                  (draw_credential c id conversation_id at s) _
                  (draw_credential-Carries id conversation_id at x s k)
                  λ credential t k1.
                    Ends-bind Q IsGood (λ r u. Carries id r.1 u)
                      (send_credential c id credential handle x t) _
                      (send_credential-Carries id credential handle x t k1) λ sent u k2. k2)
        ]
      ]
