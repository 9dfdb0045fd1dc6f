-- ===== src/Handshake/Examples.antt =====
-- A handshake with the checksums of `Crypto.Examples`, and the theorems on its messages.
use udp2raw_ng.Prelude.{
  ℕ, ◌-◌, ◌≤◌, ◌≡◌, ◌≢◌, ◌↔◌, refl, arith, true, false, none, some, List, [], ◌++◌, Result, ok, err,
  replicate, take, drop,
}
use udp2raw_ng.Prelude.Bytes.{be_bytes, from_be}
use udp2raw_ng.Prelude.Slices.{slice}
use udp2raw_ng.Config.{aes128_gcm, wire_id, Psk}
use udp2raw_ng.Crypto.{hmac_tag, handshake_key, handshake_tag}
use udp2raw_ng.Crypto.Examples.{toy, toy_laws, checksum, sum_from}
use udp2raw_ng.Handshake.Messages.{
  ClientHello, HelloRetry, ServerHello, ClientFinish, client_hello_payload, client_hello_frame,
  decode_client_hello, cookie_part, resumption_part, retry_unsigned, retry_frame, decode_retry,
  server_hello_unsigned, server_hello_payload, server_hello_frame, decode_server_hello,
  client_finish_frame, decode_client_finish,
}
use udp2raw_ng.Handshake.Auth.{
  server_auth_transcript, full_transcript, retry_auth_transcript, cookie_transcript,
  resumption_transcript, millis, cookie_tag, create_retry, verify_and_apply, verify_cookie,
  sign_server_hello, verify_server_hello, create_client_finish, verify_client_finish,
  unsigned_credential, sign_credential, verify_resumption_credential,
}
use udp2raw_ng.Handshake.RoundTrip.{
  IsFinish, IsServerHello, decode_client_finish-frame, decode_server_hello-frame,
}
use udp2raw_ng.Handshake.Hellos.{IsHello, IsRetry, decode_retry-frame, decode_client_hello-frame}
use udp2raw_ng.Handshake.Laws.{
  verify_server_hello-ok_iff, verify_server_hello-sign, verify_client_finish-create,
}
use udp2raw_ng.Handshake.Credentials.{
  verify_resumption_credential-ok_iff, verify_resumption_credential-sign,
}
use udp2raw_ng.Handshake.Cookies.{verify_cookie-ok_iff, verify_and_apply-create}

abbrev psk : Psk
psk = record { bytes = replicate 32 7 }

abbrev secret : List ℕ
secret = replicate 32 9

abbrev hello : ClientHello
hello = record {
  handshake_id = replicate 16 1;
  client_nonce = replicate 32 2;
  suite = aes128_gcm;
  cookie = none;
  resumption = none;
}

-- With both optional parts.
abbrev full_hello : ClientHello
full_hello = record hello {
  cookie = some (record { issued_at_ms = 1000; tag = replicate 32 3 });
  resumption = some (replicate 92 4);
}

full_hello-IsHello : IsHello full_hello
full_hello-IsHello = record {
  id_size = refl;
  nonce_size = refl;
  cookie_size = (omega arith, refl);
  resumption_size = refl;
}

decode_client_hello-frame_example :
    decode_client_hello (client_hello_frame full_hello) ≡ ok full_hello
decode_client_hello-frame_example = decode_client_hello-frame full_hello full_hello-IsHello

abbrev tag_of : {E : Type 0} → Result E (List ℕ) → List ℕ
tag_of (ok tag) = tag
tag_of (err e) = []

cookie_mac : List ℕ
unfolding cookie_tag cookie_transcript hmac_tag checksum sum_from be_bytes resumption_part wire_id
cookie_mac = tag_of (cookie_tag toy secret hello 44 1000)

abbrev retry_with : List ℕ → HelloRetry
retry_with auth_tag = record {
  handshake_id = hello.handshake_id;
  client_nonce = hello.client_nonce;
  suite = aes128_gcm;
  cookie = record { issued_at_ms = 1000; tag = cookie_mac };
  has_resumption = false;
  auth_tag = auth_tag;
}

retry_mac : List ℕ
unfolding cookie_mac retry_auth_transcript retry_unsigned handshake_tag handshake_key hmac_tag
    checksum sum_from be_bytes wire_id
retry_mac = tag_of (
    handshake_tag toy psk hello.handshake_id hello.client_nonce
      (retry_auth_transcript (retry_with [])))

created : create_retry toy psk secret hello 44 1000 ≡ ok (retry_with retry_mac)
unfolding create_retry cookie_mac retry_mac retry_auth_transcript retry_unsigned handshake_tag
    handshake_key cookie_tag cookie_transcript hmac_tag checksum sum_from be_bytes resumption_part
    wire_id
created = refl

verify_and_apply-create_example :
    (next : ClientHello) × (verify_and_apply toy (retry_with retry_mac) psk hello ≡ ok next)
    × (next ≡ record hello { cookie = some (retry_with retry_mac).cookie })
    × (verify_cookie toy secret next 44 1500 1_000_000_000 ≡ ok tt)
verify_and_apply-create_example =
    verify_and_apply-create toy toy_laws psk secret hello 44 1000 1500 1_000_000_000
      (retry_with retry_mac) created (omega arith) (omega arith)

abbrev retry : HelloRetry
retry = record {
  handshake_id = replicate 16 1;
  client_nonce = replicate 32 2;
  suite = aes128_gcm;
  cookie = record { issued_at_ms = 1000; tag = replicate 32 3 };
  has_resumption = true;
  auth_tag = replicate 32 5;
}

retry-IsRetry : IsRetry retry
retry-IsRetry = record {
  id_size = refl;
  nonce_size = refl;
  time_size = omega arith;
  cookie_size = refl;
  tag_size = refl;
}

decode_retry-frame_example : decode_retry (retry_frame retry) ≡ ok retry
decode_retry-frame_example = decode_retry-frame retry retry-IsRetry

verify_cookie-ok_iff_example :
    (verify_cookie toy secret full_hello 44 1500 1_000_000_000 ≡ ok tt)
    ↔ (1000 ≤ 1500)
      × (1500 - 1000 ≤ millis 1_000_000_000)
      × (cookie_tag toy secret full_hello 44 1000 ≡ ok (replicate 32 3))
verify_cookie-ok_iff_example =
    verify_cookie-ok_iff toy toy_laws secret full_hello 44 1500 1_000_000_000
      (record { issued_at_ms = 1000; tag = replicate 32 3 }) refl

abbrev server_with : List ℕ → ServerHello
server_with auth_tag = record {
  handshake_id = replicate 16 1;
  client_nonce = replicate 32 2;
  server_nonce = replicate 32 6;
  session_salt = replicate 32 8;
  suite = aes128_gcm;
  resumed = true;
  auth_tag = auth_tag;
}

server-IsServerHello : IsServerHello (server_with (replicate 32 5))
server-IsServerHello = record {
  id_size = refl;
  client_size = refl;
  server_size = refl;
  salt_size = refl;
  tag_size = refl;
}

nonzero_77 : ◌≢◌ {A = ℕ} 77 0
nonzero_77 e = absurd (omega arith)

decode_server_hello-frame_example :
    decode_server_hello (server_hello_frame (server_with (replicate 32 5)) 77)
    ≡ ok (server_with (replicate 32 5))
decode_server_hello-frame_example =
    decode_server_hello-frame (server_with (replicate 32 5)) 77 server-IsServerHello nonzero_77

server_mac : List ℕ
unfolding server_auth_transcript server_hello_unsigned client_hello_payload cookie_part
    handshake_tag handshake_key hmac_tag checksum sum_from be_bytes resumption_part wire_id
server_mac = tag_of (
    handshake_tag toy psk hello.handshake_id hello.client_nonce
      (server_auth_transcript hello 77 (server_with [])))

signed :
    sign_server_hello toy psk hello 77 true (replicate 32 6) (replicate 32 8)
    ≡ ok (server_with server_mac)
unfolding sign_server_hello server_mac server_auth_transcript server_hello_unsigned
    client_hello_payload cookie_part handshake_tag handshake_key hmac_tag checksum sum_from be_bytes
    resumption_part wire_id
signed = refl

verify_server_hello-sign_example :
    (verify_server_hello toy (server_with server_mac) psk hello 77 ≡ ok tt)
    × ((server_with server_mac).resumed ≡ true)
verify_server_hello-sign_example =
    verify_server_hello-sign toy toy_laws psk hello 77 true (replicate 32 6) (replicate 32 8)
      (server_with server_mac) signed

verify_server_hello-ok_iff_example :
    (verify_server_hello toy (server_with server_mac) psk hello 77 ≡ ok tt)
    ↔ ((server_with server_mac).handshake_id ≡ hello.handshake_id)
      × ((server_with server_mac).client_nonce ≡ hello.client_nonce)
      × ((server_with server_mac).suite ≡ hello.suite)
      × (handshake_tag toy psk
            (server_with server_mac).handshake_id
            (server_with server_mac).client_nonce
            (server_auth_transcript hello 77 (server_with server_mac))
          ≡ ok (server_with server_mac).auth_tag)
verify_server_hello-ok_iff_example =
    verify_server_hello-ok_iff toy toy_laws (server_with server_mac) psk hello 77

abbrev finish_with : List ℕ → ClientFinish
finish_with auth_tag = record { handshake_id = replicate 16 1; auth_tag = auth_tag }

finish_with-IsFinish : IsFinish (finish_with (replicate 32 5))
finish_with-IsFinish = record { id_size = refl; tag_size = refl }

decode_client_finish-frame_example :
    decode_client_finish (client_finish_frame (finish_with (replicate 32 5)) 77)
    ≡ ok (finish_with (replicate 32 5))
decode_client_finish-frame_example =
    decode_client_finish-frame (finish_with (replicate 32 5)) 77 finish_with-IsFinish nonzero_77

finish_mac : List ℕ
unfolding full_transcript server_hello_payload server_hello_unsigned client_hello_payload
    cookie_part handshake_tag handshake_key hmac_tag checksum sum_from be_bytes resumption_part
    wire_id
finish_mac = tag_of (
    handshake_tag toy psk hello.handshake_id hello.client_nonce
      (full_transcript hello 77 (server_with (replicate 32 5))))

finished :
    create_client_finish toy psk hello (server_with (replicate 32 5)) 77
    ≡ ok (finish_with finish_mac)
unfolding create_client_finish finish_mac full_transcript server_hello_payload server_hello_unsigned
    client_hello_payload cookie_part handshake_tag handshake_key hmac_tag checksum sum_from be_bytes
    resumption_part wire_id
finished = refl

verify_client_finish-create_example :
    verify_client_finish toy (finish_with finish_mac) psk hello (server_with (replicate 32 5)) 77
    ≡ ok tt
verify_client_finish-create_example =
    verify_client_finish-create toy toy_laws psk hello (server_with (replicate 32 5)) 77
      (finish_with finish_mac) finished

abbrev unsigned : List ℕ
unsigned = unsigned_credential toy (replicate 32 6) 77 70 1000 9000

credential_mac : List ℕ
unfolding resumption_transcript hmac_tag checksum sum_from be_bytes
credential_mac = tag_of (hmac_tag toy secret (resumption_transcript unsigned))

issued : sign_credential toy secret unsigned ≡ ok (unsigned ++ credential_mac)
unfolding sign_credential credential_mac resumption_transcript hmac_tag checksum sum_from be_bytes
issued = refl

verify_resumption_credential-sign_example :
    verify_resumption_credential toy secret (unsigned ++ credential_mac) 1500 ≡ ok (77, 70)
verify_resumption_credential-sign_example =
    verify_resumption_credential-sign toy toy_laws secret (replicate 32 6)
      (unsigned ++ credential_mac) 77 70 1000 9000 1500 refl
      (omega arith, omega arith, omega arith, omega arith) (omega arith) (omega arith) (omega arith)
      issued

verify_resumption_credential-ok_iff_example :
    (verify_resumption_credential toy secret (unsigned ++ credential_mac) 1500 ≡ ok (77, 70))
    ↔ (from_be (slice 44 52 (unsigned ++ credential_mac)) ≤ 1500)
      × (from_be (slice 44 52 (unsigned ++ credential_mac))
          ≤ from_be (slice 52 60 (unsigned ++ credential_mac)))
      × (1500 ≤ from_be (slice 52 60 (unsigned ++ credential_mac)))
      × (hmac_tag toy secret (resumption_transcript (take 60 (unsigned ++ credential_mac)))
          ≡ ok (drop 60 (unsigned ++ credential_mac)))
      × (◌≢◌ {A = ℕ} 70 0)
      × (77 ≡ from_be (slice 32 40 (unsigned ++ credential_mac)))
      × (70 ≡ from_be (slice 40 44 (unsigned ++ credential_mac)))
verify_resumption_credential-ok_iff_example =
    verify_resumption_credential-ok_iff toy toy_laws secret (unsigned ++ credential_mac) 1500 77 70
