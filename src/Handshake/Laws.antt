-- ===== src/Handshake/Laws.antt =====
-- The checks that each end of crates/udp2raw-ng-core/src/handshake.rs makes of the other end's
-- tags.
use udp2raw_ng.Prelude.{
  ℕ, ◌≡◌, ◌↔◌, refl, sym, ap, ◌∙◌, Bool, true, false, List, ==_iff, eq_self, ◌=bytes◌, =bytes_refl,
  =bytes_sound, ok, map_err, >>=-eq-ok, guard->>-ok, map_err-eq-ok, ok-injective,
}
use mathlib.Core.Path.{subst}
use udp2raw_ng.Errors.{CryptoError, HandshakeError, EngineError}
use udp2raw_ng.Config.{CipherSuite, wire_id, Psk}
use udp2raw_ng.Config.Laws.{from_wire_id_iff}
use udp2raw_ng.Crypto.{Primitives, PrimitiveLaws, handshake_tag, verify_handshake_tag-ok_iff}
use udp2raw_ng.Handshake.Messages.{ClientHello, ServerHello, ClientFinish, server_hello_unsigned}
use udp2raw_ng.Handshake.Auth.{
  server_auth_transcript, full_transcript, same_suite, same_flag, sign_server_hello,
  verify_server_hello, create_client_finish, verify_client_finish, unsigned_server_hello,
}

same_suite_sound : (a b : CipherSuite) → same_suite a b ≡ true → a ≡ b
same_suite_sound a b h =
    let numbers : wire_id a ≡ wire_id b = (==_iff _ _).0 h in
    ok-injective
      (sym ((from_wire_id_iff (wire_id a) a).1 refl) ∙ (from_wire_id_iff (wire_id a) b).1 numbers)

pub same_flag_refl : (b : Bool) → same_flag b b ≡ true
same_flag_refl true = refl
same_flag_refl false = refl

module _ (c : Primitives) (laws : PrimitiveLaws c) where
  -- With primitives that keep their laws, a server hello passes exactly if it names the client's
  -- handshake, nonce and suite, and carries the tag that the shared key makes over the client's
  -- hello, the session and the server's part.
  pub verify_server_hello-ok_iff :
      (server : ServerHello) (psk : Psk) (hello : ClientHello) (session_id : ℕ)
      → (verify_server_hello c server psk hello session_id ≡ ok tt)
        ↔ (server.handshake_id ≡ hello.handshake_id)
          × (server.client_nonce ≡ hello.client_nonce)
          × (server.suite ≡ hello.suite)
          × (handshake_tag c psk server.handshake_id server.client_nonce
                (server_auth_transcript hello session_id server)
              ≡ ok server.auth_tag)
  unfolding verify_server_hello
  verify_server_hello-ok_iff server psk hello session_id =
      let transcript = server_auth_transcript hello session_id server in
      let tag_iff =
        verify_handshake_tag-ok_iff c laws psk server.handshake_id server.client_nonce transcript
          server.auth_tag in
      (
        λ e.
            let (id, e1) = guard->>-ok (server.handshake_id =bytes hello.handshake_id) _ _ e in
            let (nonce, e2) = guard->>-ok (server.client_nonce =bytes hello.client_nonce) _ _ e1 in
            let (suite, e3) = guard->>-ok (same_suite server.suite hello.suite) _ _ e2 in
            (
              =bytes_sound _ _ id,
              =bytes_sound _ _ nonce,
              same_suite_sound _ _ suite,
              tag_iff.0
                  (map_err-eq-ok (λ (_ : CryptoError). HandshakeError.authentication_failed) _ e3),
            ),
        λ v.
            let id : (server.handshake_id =bytes hello.handshake_id) ≡ true =
              ap (λ (x : List ℕ). server.handshake_id =bytes x) (sym v.0)
              ∙ =bytes_refl server.handshake_id in
            let nonce : (server.client_nonce =bytes hello.client_nonce) ≡ true =
              ap (λ (x : List ℕ). server.client_nonce =bytes x) (sym v.1)
              ∙ =bytes_refl server.client_nonce in
            let suite : same_suite server.suite hello.suite ≡ true =
              ap (λ (x : CipherSuite). same_suite server.suite x) (sym v.2)
              ∙ eq_self (wire_id server.suite) in
            rw (id, nonce, suite, tag_iff.1 v.3),
      )

  -- With primitives that keep their laws, the server hello that was signed for a client's hello
  -- and a session passes the client's check for them, and says whether the session is resumed.
  pub verify_server_hello-sign :
      (psk : Psk) (hello : ClientHello) (session_id : ℕ) (resumed : Bool) (nonce salt : List ℕ)
      (server : ServerHello)
      → sign_server_hello c psk hello session_id resumed nonce salt ≡ ok server
      → (verify_server_hello c server psk hello session_id ≡ ok tt) × (server.resumed ≡ resumed)
  unfolding sign_server_hello
  verify_server_hello-sign psk hello session_id resumed nonce salt server e =
      let unsigned = unsigned_server_hello c hello resumed nonce salt in
      let (tag, made, e1) =
        >>=-eq-ok
          (map_err EngineError.crypto (
            handshake_tag c psk hello.handshake_id hello.client_nonce
              (server_auth_transcript hello session_id unsigned)))
          _ e in
      let same : record unsigned { auth_tag = tag } ≡ server = ok-injective e1 in
      rw (← same) (
        (verify_server_hello-ok_iff (record unsigned { auth_tag = tag }) psk hello session_id).1 (
          refl,
          refl,
          refl,
          unfold server_auth_transcript server_hello_unsigned in
              map_err-eq-ok EngineError.crypto _ made,
        ),
        refl,
      )

  -- With primitives that keep their laws, the finish that a client created passes the server's
  -- check for the same hellos and session.
  pub verify_client_finish-create :
      (psk : Psk) (hello : ClientHello) (server : ServerHello) (session_id : ℕ)
      (finish : ClientFinish)
      → create_client_finish c psk hello server session_id ≡ ok finish
      → verify_client_finish c finish psk hello server session_id ≡ ok tt
  unfolding create_client_finish verify_client_finish
  verify_client_finish-create psk hello server session_id finish e =
      let transcript = full_transcript hello session_id server in
      let (tag, made, e1) =
        >>=-eq-ok (handshake_tag c psk hello.handshake_id hello.client_nonce transcript) _ e in
      let same = ok-injective e1 in
      let checked =
        (verify_handshake_tag-ok_iff c laws psk hello.handshake_id hello.client_nonce transcript
            tag).1
          made in
      subst (λ (f : ClientFinish). verify_client_finish c f psk hello server session_id ≡ ok tt)
        same (rw (=bytes_refl hello.handshake_id, checked))
