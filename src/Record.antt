-- ===== src/Record.antt =====
-- Protected records: crates/udp2raw-ng-core/src/record.rs. `seal` and `open_record` are the
-- methods `RecordSealer::seal` and `RecordOpener::open`.
pub mod Laws
pub mod Delivery
pub mod Later
pub mod Examples
use udp2raw_ng.Prelude.{
  ℕ, ◌+◌, ◌-◌, ◌^◌, ◌<◌, ◌≡◌, Bool, true, false, not, Option, none, some, List, [], ◌∷◌, ◌++◌, ltb,
  leb, ◌==◌, if◌then◌else◌, Result, ok, err, ◌>>=◌, ◌>>◌, guard, ok_or, map_err, length, take, drop,
}
use udp2raw_ng.Prelude.Bytes.{be_bytes}
use udp2raw_ng.Errors.{FrameError, CryptoError, RecordError}
use udp2raw_ng.Config.{
  CipherSuite, wire_id, max_frame_payload_limit, cha_cha20_poly1305, x_cha_cha20_poly1305,
  aes128_gcm, aes256_gcm, none_authenticated,
}
use udp2raw_ng.Crypto.{Primitives, Direction, direction_id, DirectionKeys, hmac_tag, verify_hmac}
use udp2raw_ng.Protocol.{FrameType, is_protected, WireFrame, encoded_header, encode, decode}
use udp2raw_ng.Replay.{ReplayWindow, accept}

pub record AuthenticatedFrame : Type 0 where
  pub frame_type : FrameType
  pub conversation_handle : Option ℕ
  pub plaintext : List ℕ

pub record RecordSealer : Type 0 where
  pub suite : CipherSuite
  pub direction : Direction
  pub session_id : ℕ
  pub next_packet_number : ℕ
  pub keys : DirectionKeys

pub record RecordOpener : Type 0 where
  pub suite : CipherSuite
  pub direction : Direction
  pub session_id : ℕ
  pub keys : DirectionKeys
  pub replay : ReplayWindow

unfoldable pub new_sealer : CipherSuite → Direction → ℕ → DirectionKeys → RecordSealer
new_sealer suite direction session_id keys = record {
  suite = suite;
  direction = direction;
  session_id = session_id;
  next_packet_number = 0;
  keys = keys;
}

-- The replay window is the argument: its constructor fails on a width of zero only.
unfoldable pub new_opener :
    CipherSuite → Direction → ℕ → DirectionKeys → ReplayWindow → RecordOpener
new_opener suite direction session_id keys replay = record {
  suite = suite;
  direction = direction;
  session_id = session_id;
  keys = keys;
  replay = replay;
}

unfoldable pub tag_length : CipherSuite → ℕ
tag_length none_authenticated = 32
tag_length _ = 16

unfoldable pub nonce_12 : DirectionKeys → ℕ → Result CryptoError (List ℕ)
nonce_12 keys packet_number = do
  guard (length keys.nonce_prefix == 4) CryptoError.key_derivation_failed
  ok (keys.nonce_prefix ++ be_bytes 8 packet_number)

unfoldable pub nonce_24 : DirectionKeys → ℕ → Result CryptoError (List ℕ)
nonce_24 keys packet_number = do
  guard (length keys.nonce_prefix == 16) CryptoError.key_derivation_failed
  ok (keys.nonce_prefix ++ be_bytes 8 packet_number)

unfoldable pub aad_of : Direction → CipherSuite → WireFrame → Result FrameError (List ℕ)
aad_of direction suite frame = do
  header ← encoded_header frame
  ok (header ++ (direction_id direction ∷ wire_id suite ∷ []))

module _ (c : Primitives) where
  -- One arm of the `match` of `seal` on an AEAD suite: the body and its tag.
  unfoldable pub encrypt_body :
      CipherSuite
      → DirectionKeys
      → Result CryptoError (List ℕ)
      → List ℕ
      → List ℕ
      → Result CryptoError (List ℕ)
  encrypt_body suite keys nonce aad plaintext = do
    guard (c.cipher_new suite keys.record_key) CryptoError.key_derivation_failed
    bytes ← nonce
    (body, tag) ←
        ok_or (c.encrypt suite keys.record_key bytes aad plaintext)
          CryptoError.authentication_failed
    ok (body ++ tag)

  unfoldable pub seal_body :
      CipherSuite → DirectionKeys → ℕ → List ℕ → List ℕ → Result CryptoError (List ℕ)
  unfolding encrypt_body
  seal_body cha_cha20_poly1305 keys n aad plaintext =
      encrypt_body cha_cha20_poly1305 keys (nonce_12 keys n) aad plaintext
  seal_body x_cha_cha20_poly1305 keys n aad plaintext =
      encrypt_body x_cha_cha20_poly1305 keys (nonce_24 keys n) aad plaintext
  seal_body aes128_gcm keys n aad plaintext =
      encrypt_body aes128_gcm keys (nonce_12 keys n) aad plaintext
  seal_body aes256_gcm keys n aad plaintext =
      encrypt_body aes256_gcm keys (nonce_12 keys n) aad plaintext
  seal_body none_authenticated keys n aad plaintext = do
    tag ← hmac_tag c keys.record_key (aad ++ plaintext)
    ok (plaintext ++ tag)

  -- The frame that `seal` fills.
  abbrev pub sealed_frame : RecordSealer → FrameType → Option ℕ → List ℕ → WireFrame
  sealed_frame s frame_type conversation_handle payload = record {
    session_id = s.session_id;
    packet_number = s.next_packet_number;
    epoch = 0;
    frame_type = frame_type;
    conversation_handle = conversation_handle;
    payload = payload;
  }

  -- The sealer changes in the last line only, so an error leaves it as it was.
  unfoldable pub seal :
      RecordSealer → FrameType → Option ℕ → List ℕ → Result RecordError (List ℕ × RecordSealer)
  seal s frame_type conversation_handle plaintext = do
    guard (is_protected frame_type) RecordError.invalid_record_type
    let next = s.next_packet_number + 1
    guard (ltb next (2 ^ 64)) RecordError.packet_number_exhausted
    guard (ltb (length plaintext + tag_length s.suite) (2 ^ 64))
        (RecordError.frame FrameError.payload_too_large)
    aad ←
        map_err RecordError.frame
          (aad_of s.direction s.suite (sealed_frame s frame_type conversation_handle []))
    body ← map_err RecordError.crypto (seal_body s.suite s.keys s.next_packet_number aad plaintext)
    encoded ←
        map_err RecordError.frame (encode (sealed_frame s frame_type conversation_handle body))
    ok (encoded, record s { next_packet_number = next })

  unfoldable pub decrypt_body :
      CipherSuite
      → DirectionKeys
      → Result CryptoError (List ℕ)
      → List ℕ
      → List ℕ
      → List ℕ
      → Result CryptoError (List ℕ)
  decrypt_body suite keys nonce aad body tag = do
    guard (c.cipher_new suite keys.record_key) CryptoError.key_derivation_failed
    bytes ← nonce
    ok_or (c.decrypt suite keys.record_key bytes aad body tag) CryptoError.authentication_failed

  unfoldable pub open_body :
      CipherSuite → DirectionKeys → ℕ → List ℕ → List ℕ → List ℕ → Result CryptoError (List ℕ)
  unfolding decrypt_body
  open_body cha_cha20_poly1305 keys n aad body tag =
      decrypt_body cha_cha20_poly1305 keys (nonce_12 keys n) aad body tag
  open_body x_cha_cha20_poly1305 keys n aad body tag =
      decrypt_body x_cha_cha20_poly1305 keys (nonce_24 keys n) aad body tag
  open_body aes128_gcm keys n aad body tag =
      decrypt_body aes128_gcm keys (nonce_12 keys n) aad body tag
  open_body aes256_gcm keys n aad body tag =
      decrypt_body aes256_gcm keys (nonce_12 keys n) aad body tag
  open_body none_authenticated keys n aad body tag = do
    verify_hmac c keys.record_key (aad ++ body) tag
    ok body

  -- `open` up to the replay filter: the packet number with what is to be delivered.
  unfoldable pub authenticate : RecordOpener → List ℕ → Result RecordError (ℕ × AuthenticatedFrame)
  authenticate o bytes = do
    frame ← map_err RecordError.frame (decode bytes)
    guard (frame.session_id == o.session_id) RecordError.session_mismatch
    guard (frame.epoch == 0) RecordError.unsupported_epoch
    guard (is_protected frame.frame_type) RecordError.invalid_record_type
    guard (not (ltb (length frame.payload) (tag_length o.suite))) RecordError.truncated_tag
    aad ← map_err RecordError.frame (aad_of o.direction o.suite frame)
    let split = length frame.payload - tag_length o.suite
    plaintext ← map_err RecordError.crypto (
        open_body o.suite o.keys frame.packet_number aad (take split frame.payload)
          (drop split frame.payload))
    guard (not (ltb max_frame_payload_limit (length plaintext)))
        (RecordError.frame FrameError.payload_too_large)
    ok (
      frame.packet_number,
      record {
        frame_type = frame.frame_type;
        conversation_handle = frame.conversation_handle;
        plaintext = plaintext;
      },
    )

  -- The replay filter is asked last, and only for a record that is authentic.
  admit :
      RecordOpener
      → Result RecordError (ℕ × AuthenticatedFrame)
      → RecordOpener × Result RecordError AuthenticatedFrame
  admit o (err e) = (o, err e)
  admit o (ok (packet_number, frame)) =
      let (window, answer) = accept o.replay packet_number in
      (record o { replay = window }, map_err RecordError.replay answer >> ok frame)

  unfoldable pub open_record :
      RecordOpener → List ℕ → RecordOpener × Result RecordError AuthenticatedFrame
  unfolding admit
  open_record o bytes = admit o (authenticate o bytes)
