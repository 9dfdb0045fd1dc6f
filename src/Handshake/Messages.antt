-- ===== src/Handshake/Messages.antt =====
-- The four messages of crates/udp2raw-ng-core/src/handshake.rs and their payloads. A Rust array
-- `[u8; n]` is a list; its length is part of the predicates in `RoundTrip` and `Hellos`.
use udp2raw_ng.Prelude.{
  ℕ, ◌+◌, Bool, true, false, not, ◌&&◌, ◌||◌, Option, none, some, List, [], ◌∷◌, ◌++◌, leb, ◌==◌,
  if◌then◌else◌, is_some, Result, ok, err, ◌>>=◌, ◌>>◌, guard, map_err, length, get_or, take, drop,
}
use udp2raw_ng.Prelude.Bytes.{be_bytes, from_be}
use udp2raw_ng.Prelude.Slices.{slice}
use udp2raw_ng.Errors.{HandshakeError, EngineError, malformed}
use udp2raw_ng.Config.{CipherSuite, wire_id, from_wire_id}
use udp2raw_ng.Entropy.{Entropy, getrandom}
use udp2raw_ng.Protocol.{
  FrameType, frame_type_id, WireFrame, client_hello, server_hello, client_finish, hello_retry,
}

abbrev pub credential_length : ℕ
credential_length = 92

abbrev pub hello_base_length : ℕ
hello_base_length = 51

abbrev pub hello_cookie_length : ℕ
hello_cookie_length = hello_base_length + 40

abbrev pub hello_resumption_length : ℕ
hello_resumption_length = hello_base_length + credential_length

abbrev pub hello_cookie_resumption_length : ℕ
hello_cookie_resumption_length = hello_cookie_length + credential_length

abbrev pub retry_length : ℕ
retry_length = 122

abbrev pub server_hello_length : ℕ
server_hello_length = 146

abbrev pub client_finish_length : ℕ
client_finish_length = 48

-- 92 bytes.
abbrev pub ResumptionCredential : Type 0
ResumptionCredential = List ℕ

pub record HandshakeCookie : Type 0 where
  pub issued_at_ms : ℕ
  pub tag : List ℕ

pub record ClientHello : Type 0 where
  pub handshake_id : List ℕ
  pub client_nonce : List ℕ
  pub suite : CipherSuite
  pub cookie : Option HandshakeCookie
  pub resumption : Option ResumptionCredential

pub record HelloRetry : Type 0 where
  pub handshake_id : List ℕ
  pub client_nonce : List ℕ
  pub suite : CipherSuite
  pub cookie : HandshakeCookie
  pub has_resumption : Bool
  pub auth_tag : List ℕ

pub record ServerHello : Type 0 where
  pub handshake_id : List ℕ
  pub client_nonce : List ℕ
  pub server_nonce : List ℕ
  pub session_salt : List ℕ
  pub suite : CipherSuite
  pub resumed : Bool
  pub auth_tag : List ℕ

pub record ClientFinish : Type 0 where
  pub handshake_id : List ℕ
  pub auth_tag : List ℕ

-- `u8::from(flag)`
abbrev pub flag_byte : Bool → ℕ
flag_byte false = 0
flag_byte true = 1

-- A byte that has to be 0 or 1.
abbrev pub read_flag : ℕ → Result HandshakeError Bool
read_flag b = if b == 0 then ok false else (if b == 1 then ok true else err malformed)

-- A frame of the handshake: packet number and epoch are 0, and no conversation is named.
abbrev pub handshake_frame : ℕ → FrameType → List ℕ → WireFrame
handshake_frame session_id frame_type payload = record {
  session_id = session_id;
  packet_number = 0;
  epoch = 0;
  frame_type = frame_type;
  conversation_handle = none;
  payload = payload;
}

abbrev read_suite : ℕ → Result HandshakeError CipherSuite
read_suite b = map_err (λ _. malformed) (from_wire_id b)

-- `frame.frame_type != FrameType::ClientHello` and the like. No two types have one number.
abbrev pub same_type : FrameType → FrameType → Bool
same_type a b = frame_type_id a == frame_type_id b

-- `ClientHello::generate`
unfoldable pub generate_client_hello :
    CipherSuite → Option ResumptionCredential → Entropy → Result EngineError ClientHello × Entropy
generate_client_hello suite resumption entropy =
    let (id, entropy') = getrandom entropy in
    elim id [
      | none ↦ (err EngineError.randomness_unavailable, entropy')
      | some handshake_id ↦
          let (nonce, entropy'') = getrandom entropy' in
          elim nonce [
            | none ↦ (err EngineError.randomness_unavailable, entropy'')
            | some client_nonce ↦ (
              ok (record {
                handshake_id = handshake_id;
                client_nonce = client_nonce;
                suite = suite;
                cookie = none;
                resumption = resumption;
              }),
              entropy'',
            )
          ]
    ]

unfoldable pub cookie_part : Option HandshakeCookie → List ℕ
cookie_part none = 0 ∷ []
cookie_part (some cookie) = 1 ∷ (be_bytes 8 cookie.issued_at_ms ++ cookie.tag)

unfoldable pub resumption_part : Option ResumptionCredential → List ℕ
resumption_part none = 0 ∷ []
resumption_part (some credential) = 1 ∷ credential

-- `ClientHello::encode_payload`
unfoldable pub client_hello_payload : ClientHello → List ℕ
client_hello_payload hello =
    hello.handshake_id
    ++ (hello.client_nonce
        ++ (wire_id hello.suite ∷ (cookie_part hello.cookie ++ resumption_part hello.resumption)))

unfoldable pub client_hello_frame : ClientHello → WireFrame
client_hello_frame hello = handshake_frame 0 client_hello (client_hello_payload hello)

unfoldable pub decode_cookie : List ℕ → Result HandshakeError (Option HandshakeCookie)
decode_cookie payload =
    let marker = get_or payload 49 0 in
    if marker == 0
    then ok none
    else (if marker == 1 && leb hello_cookie_length (length payload)
        then ok (
            some
              (record { issued_at_ms = from_be (slice 50 58 payload); tag = slice 58 90 payload }))
        else err malformed)

unfoldable pub decode_resumption : List ℕ → ℕ → Result HandshakeError (Option ResumptionCredential)
decode_resumption payload offset =
    let marker = get_or payload offset 0 in
    if marker == 0 && length payload == offset + 1
    then ok none
    else (if marker == 1 && length payload == offset + 1 + credential_length
        then ok (some (drop (offset + 1) payload))
        else err malformed)

abbrev hello_length : ℕ → Bool
hello_length n =
    n == hello_base_length
    || (n == hello_cookie_length
        || (n == hello_resumption_length || n == hello_cookie_resumption_length))

-- `ClientHello::decode`
unfoldable pub decode_client_hello : WireFrame → Result HandshakeError ClientHello
decode_client_hello frame = do
  guard (same_type frame.frame_type client_hello) malformed
  guard (frame.session_id == 0) malformed
  guard (frame.packet_number == 0) malformed
  guard (frame.epoch == 0) malformed
  guard (hello_length (length frame.payload)) malformed
  suite ← read_suite (get_or frame.payload 48 0)
  cookie ← decode_cookie frame.payload
  let offset = if is_some cookie then 90 else 50
  resumption ← decode_resumption frame.payload offset
  ok (record {
    handshake_id = take 16 frame.payload;
    client_nonce = slice 16 48 frame.payload;
    suite = suite;
    cookie = cookie;
    resumption = resumption;
  })

-- `HelloRetry::encode_unsigned_payload`, `frame` and `decode`
unfoldable pub retry_unsigned : HelloRetry → List ℕ
retry_unsigned retry =
    retry.handshake_id
    ++ (retry.client_nonce
        ++ (wire_id retry.suite
            ∷ (be_bytes 8 retry.cookie.issued_at_ms
                ++ (retry.cookie.tag ++ (flag_byte retry.has_resumption ∷ [])))))

unfoldable pub retry_frame : HelloRetry → WireFrame
retry_frame retry = handshake_frame 0 hello_retry (retry_unsigned retry ++ retry.auth_tag)

unfoldable pub decode_retry : WireFrame → Result HandshakeError HelloRetry
decode_retry frame = do
  guard (same_type frame.frame_type hello_retry) malformed
  guard (frame.session_id == 0) malformed
  guard (frame.packet_number == 0) malformed
  guard (frame.epoch == 0) malformed
  guard (length frame.payload == retry_length) malformed
  suite ← read_suite (get_or frame.payload 48 0)
  has_resumption ← read_flag (get_or frame.payload 89 0)
  ok (record {
    handshake_id = take 16 frame.payload;
    client_nonce = slice 16 48 frame.payload;
    suite = suite;
    cookie = record {
      issued_at_ms = from_be (slice 49 57 frame.payload);
      tag = slice 57 89 frame.payload;
    };
    has_resumption = has_resumption;
    auth_tag = slice 90 122 frame.payload;
  })

-- `ServerHello::encode_unsigned_payload`, `encode_payload`, `frame` and `decode`
unfoldable pub server_hello_unsigned : ServerHello → List ℕ
server_hello_unsigned hello =
    hello.handshake_id
    ++ (hello.client_nonce
        ++ (hello.server_nonce
            ++ (hello.session_salt ++ (wire_id hello.suite ∷ flag_byte hello.resumed ∷ []))))

unfoldable pub server_hello_payload : ServerHello → List ℕ
server_hello_payload hello = server_hello_unsigned hello ++ hello.auth_tag

unfoldable pub server_hello_frame : ServerHello → ℕ → WireFrame
server_hello_frame hello session_id =
    handshake_frame session_id server_hello (server_hello_payload hello)

unfoldable pub decode_server_hello : WireFrame → Result HandshakeError ServerHello
decode_server_hello frame = do
  guard (same_type frame.frame_type server_hello) malformed
  guard (not (frame.session_id == 0)) malformed
  guard (frame.packet_number == 0) malformed
  guard (frame.epoch == 0) malformed
  guard (length frame.payload == server_hello_length) malformed
  suite ← read_suite (get_or frame.payload 112 0)
  resumed ← read_flag (get_or frame.payload 113 0)
  ok (record {
    handshake_id = take 16 frame.payload;
    client_nonce = slice 16 48 frame.payload;
    server_nonce = slice 48 80 frame.payload;
    session_salt = slice 80 112 frame.payload;
    suite = suite;
    resumed = resumed;
    auth_tag = slice 114 146 frame.payload;
  })

-- `ClientFinish::frame` and `decode`
unfoldable pub client_finish_frame : ClientFinish → ℕ → WireFrame
client_finish_frame finish session_id =
    handshake_frame session_id client_finish (finish.handshake_id ++ finish.auth_tag)

unfoldable pub decode_client_finish : WireFrame → Result HandshakeError ClientFinish
decode_client_finish frame = do
  guard (same_type frame.frame_type client_finish) malformed
  guard (not (frame.session_id == 0)) malformed
  guard (frame.packet_number == 0) malformed
  guard (frame.epoch == 0) malformed
  guard (length frame.payload == client_finish_length) malformed
  ok (record { handshake_id = take 16 frame.payload; auth_tag = slice 16 48 frame.payload })
