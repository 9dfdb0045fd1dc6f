-- ===== src/Handshake/Auth.antt =====
-- The transcripts of crates/udp2raw-ng-core/src/handshake.rs, and the functions that make and
-- check tags over them: retries and their cookies, server hellos, client finishes, the session's
-- keys, and resumption credentials.
use udp2raw_ng.Prelude.{
  ℕ, ◌-◌, ◌/◌, ◌^◌, Bool, true, false, not, none, some, List, ◌∷◌, ◌++◌, ltb, ◌==◌, ◌=bytes◌,
  is_some, Result, ok, err, ◌>>=◌, ◌>>◌, guard, ok_or, map_err, take, drop, min, replicate,
}
use udp2raw_ng.Prelude.Bytes.{be_bytes, from_be, codes}
use udp2raw_ng.Errors.{
  CryptoError, HandshakeError, EngineError, key_derivation_failed, invalid_cookie,
  invalid_resumption_credential,
}
use udp2raw_ng.Config.{CipherSuite, wire_id, Psk}
use udp2raw_ng.Entropy.{Entropy, getrandom}
use udp2raw_ng.Crypto.{
  Primitives, SessionKeys, hmac_tag, verify_hmac, handshake_tag, verify_handshake_tag,
  derive_session_keys,
}
use udp2raw_ng.Prelude.Slices.{slice}
use udp2raw_ng.Handshake.Messages.{
  ClientHello, HelloRetry, ServerHello, ClientFinish, ResumptionCredential, client_hello_payload,
  resumption_part, retry_unsigned, server_hello_unsigned, server_hello_payload,
}

unfoldable pub server_auth_transcript : ClientHello → ℕ → ServerHello → List ℕ
server_auth_transcript hello session_id server =
    codes "udp2raw-ng/v4/server-auth"
    ++ (client_hello_payload hello ++ (be_bytes 8 session_id ++ server_hello_unsigned server))

unfoldable pub full_transcript : ClientHello → ℕ → ServerHello → List ℕ
full_transcript hello session_id server =
    codes "udp2raw-ng/v4/full-transcript"
    ++ (client_hello_payload hello ++ (be_bytes 8 session_id ++ server_hello_payload server))

unfoldable pub retry_auth_transcript : HelloRetry → List ℕ
retry_auth_transcript retry = codes "udp2raw-ng/v4/hello-retry-auth" ++ retry_unsigned retry

unfoldable pub cookie_transcript : ClientHello → ℕ → ℕ → List ℕ
cookie_transcript hello peer_id issued_at_ms =
    codes "udp2raw-ng/v4/handshake-cookie"
    ++ (be_bytes 8 peer_id
        ++ (be_bytes 8 issued_at_ms
            ++ (hello.handshake_id
                ++ (hello.client_nonce
                    ++ (wire_id hello.suite ∷ resumption_part hello.resumption)))))

unfoldable pub resumption_transcript : List ℕ → List ℕ
resumption_transcript unsigned = codes "udp2raw-ng/v4/resumption-credential" ++ unsigned

-- `u64::try_from(duration.as_millis()).unwrap_or(u64::MAX)`
abbrev pub millis : ℕ → ℕ
millis duration = min (duration / 1_000_000) (2 ^ 64 - 1)

-- Two suites are one if their numbers are.
abbrev pub same_suite : CipherSuite → CipherSuite → Bool
same_suite a b = wire_id a == wire_id b

abbrev pub same_flag : Bool → Bool → Bool
same_flag true b = b
same_flag false b = not b

module _ (c : Primitives) where
  unfoldable pub cookie_tag : List ℕ → ClientHello → ℕ → ℕ → Result CryptoError (List ℕ)
  cookie_tag cookie_secret hello peer_id issued_at_ms =
      hmac_tag c cookie_secret (cookie_transcript hello peer_id issued_at_ms)

  -- The retry that `HelloRetry::create` signs.
  abbrev pub unsigned_retry : ClientHello → ℕ → List ℕ → HelloRetry
  unsigned_retry hello issued_at_ms tag = record {
    handshake_id = hello.handshake_id;
    client_nonce = hello.client_nonce;
    suite = hello.suite;
    cookie = record { issued_at_ms = issued_at_ms; tag = tag };
    has_resumption = is_some hello.resumption;
    auth_tag = replicate 32 0;
  }

  -- `HelloRetry::create`; the tag of zeros that it starts with is in no transcript.
  unfoldable pub create_retry : Psk → List ℕ → ClientHello → ℕ → ℕ → Result CryptoError HelloRetry
  create_retry psk cookie_secret hello peer_id issued_at_ms = do
    tag ← cookie_tag cookie_secret hello peer_id issued_at_ms
    let retry = unsigned_retry hello issued_at_ms tag
    auth_tag ←
        handshake_tag c psk retry.handshake_id retry.client_nonce (retry_auth_transcript retry)
    ok (record retry { auth_tag = auth_tag })

  -- `HelloRetry::verify_and_apply`
  unfoldable pub verify_and_apply :
      HelloRetry → Psk → ClientHello → Result HandshakeError ClientHello
  verify_and_apply retry psk hello = do
    guard (retry.handshake_id =bytes hello.handshake_id) HandshakeError.handshake_id_mismatch
    guard (retry.client_nonce =bytes hello.client_nonce) HandshakeError.handshake_id_mismatch
    guard (same_suite retry.suite hello.suite) HandshakeError.cipher_suite_mismatch
    guard (same_flag retry.has_resumption (is_some hello.resumption))
        HandshakeError.authentication_failed
    map_err (λ _. HandshakeError.authentication_failed)
        (verify_handshake_tag c psk retry.handshake_id retry.client_nonce
          (retry_auth_transcript retry) retry.auth_tag)
    ok (record hello { cookie = some retry.cookie })

  unfoldable pub verify_cookie : List ℕ → ClientHello → ℕ → ℕ → ℕ → Result HandshakeError (Unit {0})
  verify_cookie cookie_secret hello peer_id now_ms lifetime = do
    cookie ← ok_or hello.cookie invalid_cookie
    guard (not (ltb now_ms cookie.issued_at_ms)) invalid_cookie
    guard (not (ltb (millis lifetime) (now_ms - cookie.issued_at_ms))) invalid_cookie
    map_err (λ _. invalid_cookie)
        (verify_hmac c cookie_secret (cookie_transcript hello peer_id cookie.issued_at_ms)
          cookie.tag)

  abbrev pub unsigned_server_hello : ClientHello → Bool → List ℕ → List ℕ → ServerHello
  unsigned_server_hello hello resumed server_nonce session_salt = record {
    handshake_id = hello.handshake_id;
    client_nonce = hello.client_nonce;
    server_nonce = server_nonce;
    session_salt = session_salt;
    suite = hello.suite;
    resumed = resumed;
    auth_tag = replicate 32 0;
  }

  -- `ServerHello::create` after its two draws.
  unfoldable pub sign_server_hello :
      Psk → ClientHello → ℕ → Bool → List ℕ → List ℕ → Result EngineError ServerHello
  sign_server_hello psk hello session_id resumed server_nonce session_salt =
      let server = unsigned_server_hello hello resumed server_nonce session_salt in
      do
        auth_tag ← map_err EngineError.crypto (
            handshake_tag c psk server.handshake_id server.client_nonce
              (server_auth_transcript hello session_id server))
        ok (record server { auth_tag = auth_tag })

  unfoldable pub create_server_hello :
      Psk → ClientHello → ℕ → Bool → Entropy → Result EngineError ServerHello × Entropy
  create_server_hello psk hello session_id resumed entropy =
      let (nonce, entropy') = getrandom entropy in
      elim nonce [
        | none ↦ (err EngineError.randomness_unavailable, entropy')
        | some server_nonce ↦
            let (salt, entropy'') = getrandom entropy' in
            elim salt [
              | none ↦ (err EngineError.randomness_unavailable, entropy'')
              | some session_salt ↦ (
                sign_server_hello psk hello session_id resumed server_nonce session_salt,
                entropy'',
              )
            ]
      ]

  -- `ServerHello::verify`
  unfoldable pub verify_server_hello :
      ServerHello → Psk → ClientHello → ℕ → Result HandshakeError (Unit {0})
  verify_server_hello server psk hello session_id = do
    guard (server.handshake_id =bytes hello.handshake_id) HandshakeError.handshake_id_mismatch
    guard (server.client_nonce =bytes hello.client_nonce) HandshakeError.authentication_failed
    guard (same_suite server.suite hello.suite) HandshakeError.cipher_suite_mismatch
    map_err (λ _. HandshakeError.authentication_failed)
        (verify_handshake_tag c psk server.handshake_id server.client_nonce
          (server_auth_transcript hello session_id server) server.auth_tag)

  -- `ClientFinish::create`
  unfoldable pub create_client_finish :
      Psk → ClientHello → ServerHello → ℕ → Result CryptoError ClientFinish
  create_client_finish psk hello server session_id = do
    auth_tag ←
        handshake_tag c psk hello.handshake_id hello.client_nonce
          (full_transcript hello session_id server)
    ok (record { handshake_id = hello.handshake_id; auth_tag = auth_tag })

  -- `ClientFinish::verify`
  unfoldable pub verify_client_finish :
      ClientFinish → Psk → ClientHello → ServerHello → ℕ → Result HandshakeError (Unit {0})
  verify_client_finish finish psk hello server session_id = do
    guard (finish.handshake_id =bytes hello.handshake_id) HandshakeError.handshake_id_mismatch
    map_err (λ _. HandshakeError.authentication_failed)
        (verify_handshake_tag c psk finish.handshake_id hello.client_nonce
          (full_transcript hello session_id server) finish.auth_tag)

  unfoldable pub session_keys : Psk → ClientHello → ServerHello → ℕ → Result CryptoError SessionKeys
  session_keys psk hello server session_id =
      derive_session_keys c psk hello.suite session_id hello.client_nonce server.server_nonce
        server.session_salt (full_transcript hello session_id server)

  -- The first 60 bytes of a credential, after 32 random ones.
  abbrev pub unsigned_credential : List ℕ → ℕ → ℕ → ℕ → ℕ → List ℕ
  unsigned_credential random session_id conversation_id issued_at_ms expires_at_ms =
      random
      ++ (be_bytes 8 session_id
          ++ (be_bytes 4 conversation_id ++ (be_bytes 8 issued_at_ms ++ be_bytes 8 expires_at_ms)))

  unfoldable pub sign_credential : List ℕ → List ℕ → Result CryptoError ResumptionCredential
  sign_credential secret unsigned = do
    tag ← hmac_tag c secret (resumption_transcript unsigned)
    ok (unsigned ++ tag)

  unfoldable pub issue_resumption_credential :
      List ℕ → ℕ → ℕ → ℕ → ℕ → Entropy → Result CryptoError ResumptionCredential × Entropy
  issue_resumption_credential secret session_id conversation_id issued_at_ms expires_at_ms entropy =
      let (draw, entropy') = getrandom entropy in
      elim draw [
        | none ↦ (err key_derivation_failed, entropy')
        | some random ↦ (
          sign_credential secret
              (unsigned_credential random session_id conversation_id issued_at_ms expires_at_ms),
          entropy',
        )
      ]

  unfoldable pub verify_resumption_credential :
      List ℕ → ResumptionCredential → ℕ → Result HandshakeError (ℕ × ℕ)
  verify_resumption_credential secret bytes now_ms = do
    let issued_at_ms = from_be (slice 44 52 bytes)
    let expires_at_ms = from_be (slice 52 60 bytes)
    guard (not (ltb now_ms issued_at_ms)) invalid_resumption_credential
    guard (not (ltb expires_at_ms issued_at_ms)) invalid_resumption_credential
    guard (not (ltb expires_at_ms now_ms)) invalid_resumption_credential
    map_err (λ _. invalid_resumption_credential)
        (verify_hmac c secret (resumption_transcript (take 60 bytes)) (drop 60 bytes))
    guard (not (from_be (slice 40 44 bytes) == 0)) invalid_resumption_credential
    ok (from_be (slice 32 40 bytes), from_be (slice 40 44 bytes))
