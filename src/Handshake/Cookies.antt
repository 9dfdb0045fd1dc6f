-- ===== src/Handshake/Cookies.antt =====
-- The stateless retry of crates/udp2raw-ng-core/src/handshake.rs and the cookie in it.
use mathlib.Core.Path.{subst}
use udp2raw_ng.Prelude.{
  ℕ, ◌-◌, ◌≤◌, ◌≡◌, ◌↔◌, refl, true, not, some, List, ltb, eq_self, =bytes_refl, is_some, ok,
  >>=-eq-ok, guard->>-ok, map_err-eq-ok, ok-injective, not_ltb→le, le→not_ltb,
}
use udp2raw_ng.Errors.{CryptoError, invalid_cookie}
use udp2raw_ng.Config.{wire_id, Psk}
use udp2raw_ng.Crypto.{
  Primitives, PrimitiveLaws, verify_hmac-ok_iff, handshake_tag, verify_handshake_tag-ok_iff,
}
use udp2raw_ng.Handshake.Messages.{ClientHello, HelloRetry, HandshakeCookie, retry_unsigned}
use udp2raw_ng.Handshake.Auth.{
  retry_auth_transcript, cookie_transcript, millis, cookie_tag, unsigned_retry, create_retry,
  verify_and_apply, verify_cookie,
}
use udp2raw_ng.Handshake.Laws.{same_flag_refl}

module _ (c : Primitives) (laws : PrimitiveLaws c) where
  -- With primitives that keep their laws, the cookie that a hello carries is accepted exactly if
  -- it is not from the future, not older than the lifetime in milliseconds, and is the tag of the
  -- server's secret over the peer, the time and the hello.
  pub verify_cookie-ok_iff :
      (secret : List ℕ) (hello : ClientHello) (peer_id now_ms lifetime : ℕ)
      (cookie : HandshakeCookie)
      → hello.cookie ≡ some cookie
      → (verify_cookie c secret hello peer_id now_ms lifetime ≡ ok tt)
        ↔ (cookie.issued_at_ms ≤ now_ms)
          × (now_ms - cookie.issued_at_ms ≤ millis lifetime)
          × (cookie_tag c secret hello peer_id cookie.issued_at_ms ≡ ok cookie.tag)
  unfolding verify_cookie cookie_tag cookie_transcript
  verify_cookie-ok_iff secret hello peer_id now_ms lifetime cookie has =
      let issued = cookie.issued_at_ms in
      let tag_iff =
        verify_hmac-ok_iff c laws secret (cookie_transcript hello peer_id issued) cookie.tag in
      rw (has, verify_cookie)
        (
          λ e.
              let (begun, e1) = guard->>-ok (not (ltb now_ms issued)) _ _ e in
              let (lasts, e2) =
                guard->>-ok (not (ltb (millis lifetime) (now_ms - issued))) _ _ e1 in
              (
                not_ltb→le now_ms issued begun,
                not_ltb→le (millis lifetime) (now_ms - issued) lasts,
                tag_iff.0 (map_err-eq-ok (λ (_ : CryptoError). invalid_cookie) _ e2),
              ),
          λ v.
              let begun : not (ltb now_ms issued) ≡ true = le→not_ltb now_ms issued v.0 in
              let lasts : not (ltb (millis lifetime) (now_ms - issued)) ≡ true =
                le→not_ltb (millis lifetime) (now_ms - issued) v.1 in
              rw (begun, lasts, tag_iff.1 v.2),
        )

  -- With primitives that keep their laws, a retry that the server created for a hello is accepted
  -- by the client that sent the hello, and the hello that the client then sends, which differs in
  -- the cookie only, carries a cookie which the server accepts from the same peer as long as its
  -- lifetime lasts.
  pub verify_and_apply-create :
      (psk : Psk) (secret : List ℕ) (hello : ClientHello) (peer_id issued now_ms lifetime : ℕ)
      (retry : HelloRetry)
      → create_retry c psk secret hello peer_id issued ≡ ok retry
      → issued ≤ now_ms
      → now_ms - issued ≤ millis lifetime
      → (next : ClientHello) × (verify_and_apply c retry psk hello ≡ ok next)
        × (next ≡ record hello { cookie = some retry.cookie })
        × (verify_cookie c secret next peer_id now_ms lifetime ≡ ok tt)
  unfolding create_retry verify_and_apply
  verify_and_apply-create psk secret hello peer_id issued now_ms lifetime retry e begun lasts =
      let (tag, made, e1) = >>=-eq-ok (cookie_tag c secret hello peer_id issued) _ e in
      let unsigned = unsigned_retry c hello issued tag in
      let (auth_tag, signed, e2) =
        >>=-eq-ok
          (handshake_tag c psk hello.handshake_id hello.client_nonce
            (retry_auth_transcript unsigned))
          _ e1 in
      let full : HelloRetry = record unsigned { auth_tag = auth_tag } in
      let same : full ≡ retry = ok-injective e2 in
      let next : ClientHello = record hello { cookie = some full.cookie } in
      let checked =
        (verify_handshake_tag-ok_iff c laws psk hello.handshake_id hello.client_nonce
            (retry_auth_transcript full) auth_tag).1
          (unfold retry_auth_transcript retry_unsigned in signed) in
      let applied : verify_and_apply c full psk hello ≡ ok next = rw (
        =bytes_refl hello.handshake_id,
        =bytes_refl hello.client_nonce,
        eq_self (wire_id hello.suite),
        same_flag_refl (is_some hello.resumption),
        checked,
      ) in
      let accepted =
        (verify_cookie-ok_iff secret next peer_id now_ms lifetime full.cookie refl).1
          (begun, lasts, unfold cookie_tag cookie_transcript in made) in
      subst
        (λ (r : HelloRetry).
          (next : ClientHello) × (verify_and_apply c r psk hello ≡ ok next)
          × (next ≡ record hello { cookie = some r.cookie })
          × (verify_cookie c secret next peer_id now_ms lifetime ≡ ok tt))
        same (next, applied, refl, accepted)
