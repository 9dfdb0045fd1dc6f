-- ===== src/Record/Laws.antt =====
-- Sealing and then opening with crates/udp2raw-ng-core/src/record.rs.
use udp2raw_ng.Prelude.{
  ℕ, ◌+◌, ◌-◌, ◌^◌, ◌≤◌, ◌<◌, ◌≡◌, refl, sym, ap, ◌∙◌, true, false, not, Option, some, List, [],
  ◌++◌, arith, ltb, Result, ok, ok_or, map_err, >>=-eq-ok, guard->>-ok, ok-injective, eq_self,
  ok_or-eq-ok, map_err-eq-ok, length, length-append, take, drop, take-append_eq, drop-append_eq,
  All-append, contains,
}
use mathlib.Core.Path.{subst}
use udp2raw_ng.Prelude.Bytes.{IsByte, AreBytes}
use udp2raw_ng.Errors.{FrameError, CryptoError, RecordError}
use udp2raw_ng.Config.{
  CipherSuite, max_frame_payload_limit, cha_cha20_poly1305, x_cha_cha20_poly1305, aes128_gcm,
  aes256_gcm, none_authenticated,
}
use udp2raw_ng.Crypto.{Primitives, PrimitiveLaws, DirectionKeys, hmac_tag, verify_hmac-ok_iff}
use udp2raw_ng.Protocol.{FrameType, is_protected, WireFrame, encoded_header, encode, decode}
use udp2raw_ng.Protocol.Laws.{IsTyped, IsHandle}
use udp2raw_ng.Protocol.RoundTrip.{decode-encode}
use udp2raw_ng.Replay.{ReplayWindow}
use udp2raw_ng.Replay.Refinement.{Represents, top}
use udp2raw_ng.Replay.Runs.{accept-ok_iff}
use udp2raw_ng.Record.{
  RecordSealer, RecordOpener, tag_length, nonce_12, nonce_24, aad_of, encrypt_body, seal_body,
  sealed_frame, seal, decrypt_body, open_body, authenticate, open_record,
}

module _ (c : Primitives) (laws : PrimitiveLaws c) where
  -- A body with its tag, taken apart again.
  abbrev Opens : CipherSuite → DirectionKeys → ℕ → List ℕ → List ℕ → List ℕ → Type 0
  Opens suite keys n aad plaintext body =
      (length body ≡ length plaintext + tag_length suite)
      × AreBytes body
      × (open_body c suite keys n aad (take (length plaintext) body) (drop (length plaintext) body)
          ≡ ok plaintext)

  decrypt_body-encrypt_body :
      (suite : CipherSuite) (keys : DirectionKeys) (nonce : Result CryptoError (List ℕ))
      (aad plaintext body : List ℕ)
      → AreBytes plaintext
      → encrypt_body c suite keys nonce aad plaintext ≡ ok body
      → (length body ≡ length plaintext + 16)
        × AreBytes body
        × (decrypt_body c suite keys nonce aad
              (take (length plaintext) body)
              (drop (length plaintext) body)
            ≡ ok plaintext)
  unfolding encrypt_body decrypt_body
  decrypt_body-encrypt_body suite keys nonce aad plaintext body b e =
      let key = c.cipher_new suite keys.record_key in
      let (known, e1) = guard->>-ok key CryptoError.key_derivation_failed _ e in
      let (bytes, made, e2) = >>=-eq-ok nonce _ e1 in
      let ((out, tag), locked, e3) =
        >>=-eq-ok
          (ok_or (c.encrypt suite keys.record_key bytes aad plaintext)
            CryptoError.authentication_failed)
          _ e2 in
      let parts = ok_or-eq-ok (c.encrypt suite keys.record_key bytes aad plaintext) _ locked in
      let same : out ++ tag ≡ body = ok-injective e3 in
      let (long, tag_long, out_bytes, tag_bytes) =
        laws.encrypt_shape suite keys.record_key bytes aad plaintext out tag b parts in
      let back = laws.decrypt_encrypt suite keys.record_key bytes aad plaintext out tag parts in
      (
        omega (arith, ap length same, length-append out tag, long, tag_long),
        subst AreBytes same (All-append IsByte out tag out_bytes tag_bytes),
        rw (
          ← same,
          take-append_eq (length plaintext) out tag long,
          drop-append_eq (length plaintext) out tag long,
          known,
          made,
          back,
        ),
      )

  hmac_tag_shape :
      (key text tag : List ℕ) → hmac_tag c key text ≡ ok tag → (length tag ≡ 32) × AreBytes tag
  unfolding hmac_tag
  hmac_tag_shape key text tag e =
      laws.hmac_tag_shape key text tag
        (ok_or-eq-ok (c.hmac key text) CryptoError.key_derivation_failed e)

  open_body-seal_body :
      (suite : CipherSuite) (keys : DirectionKeys) (n : ℕ) (aad plaintext body : List ℕ)
      → AreBytes plaintext
      → seal_body c suite keys n aad plaintext ≡ ok body
      → Opens suite keys n aad plaintext body
  unfolding seal_body open_body tag_length
  open_body-seal_body cha_cha20_poly1305 keys n aad plaintext body b e =
      decrypt_body-encrypt_body cha_cha20_poly1305 keys (nonce_12 keys n) aad plaintext body b e
  open_body-seal_body x_cha_cha20_poly1305 keys n aad plaintext body b e =
      decrypt_body-encrypt_body x_cha_cha20_poly1305 keys (nonce_24 keys n) aad plaintext body b e
  open_body-seal_body aes128_gcm keys n aad plaintext body b e =
      decrypt_body-encrypt_body aes128_gcm keys (nonce_12 keys n) aad plaintext body b e
  open_body-seal_body aes256_gcm keys n aad plaintext body b e =
      decrypt_body-encrypt_body aes256_gcm keys (nonce_12 keys n) aad plaintext body b e
  open_body-seal_body none_authenticated keys n aad plaintext body b e =
      let (tag, made, e1) = >>=-eq-ok (hmac_tag c keys.record_key (aad ++ plaintext)) _ e in
      let same : plaintext ++ tag ≡ body = ok-injective e1 in
      let (tag_long, tag_bytes) = hmac_tag_shape keys.record_key (aad ++ plaintext) tag made in
      let accepted = (verify_hmac-ok_iff c laws keys.record_key (aad ++ plaintext) tag).1 made in
      (
        omega (arith, ap length same, length-append plaintext tag, tag_long),
        subst AreBytes same (All-append IsByte plaintext tag b tag_bytes),
        rw (
          ← same,
          take-append_eq (length plaintext) plaintext tag refl,
          drop-append_eq (length plaintext) plaintext tag refl,
          accepted,
        ),
      )

-- What a successful `seal` has done.
module _ (c : Primitives) where
  pub record Sealed (s : RecordSealer) (t : FrameType) (h : Option ℕ) (plaintext bytes : List ℕ)
      (s' : RecordSealer) : Type 0 where
    pub protected : is_protected t ≡ true
    pub room : s.next_packet_number + 1 < 2 ^ 64
    pub next : s' ≡ record s { next_packet_number = s.next_packet_number + 1 }
    pub aad : List ℕ
    pub aad_is : aad_of s.direction s.suite (sealed_frame c s t h []) ≡ ok aad
    pub body : List ℕ
    pub body_is : seal_body c s.suite s.keys s.next_packet_number aad plaintext ≡ ok body
    pub written : encode (sealed_frame c s t h body) ≡ ok bytes

  pub seal-Sealed :
      (s : RecordSealer) (t : FrameType) (h : Option ℕ) (plaintext bytes : List ℕ)
      (s' : RecordSealer)
      → seal c s t h plaintext ≡ ok (bytes, s')
      → Sealed s t h plaintext bytes s'
  unfolding seal
  seal-Sealed s t h plaintext bytes s' e =
      let (protected, e1) = guard->>-ok (is_protected t) RecordError.invalid_record_type _ e in
      let (room, e2) =
        guard->>-ok (ltb (s.next_packet_number + 1) (2 ^ 64)) RecordError.packet_number_exhausted _
          e1 in
      let (fits, e3) =
        guard->>-ok (ltb (length plaintext + tag_length s.suite) (2 ^ 64))
          (RecordError.frame FrameError.payload_too_large) _ e2 in
      let (aad, aad_is, e4) =
        >>=-eq-ok (map_err RecordError.frame (aad_of s.direction s.suite (sealed_frame c s t h [])))
          _ e3 in
      let (body, body_is, e5) =
        >>=-eq-ok
          (map_err RecordError.crypto
            (seal_body c s.suite s.keys s.next_packet_number aad plaintext))
          _ e4 in
      let (out, written, e6) =
        >>=-eq-ok (map_err RecordError.frame (encode (sealed_frame c s t h body))) _ e5 in
      let pair = ok-injective e6 in
      record {
        protected = protected;
        room = ground (arith, room);
        next = sym (ap (λ (p : List ℕ × RecordSealer). p.1) pair);
        aad = aad;
        aad_is = map_err-eq-ok RecordError.frame _ aad_is;
        body = body;
        body_is = map_err-eq-ok RecordError.crypto _ body_is;
        written =
            map_err-eq-ok RecordError.frame _ written
            ∙ ap (λ (p : List ℕ × RecordSealer). ok (p.0)) pair;
      }

-- The opener of the other end: it has the sealer's suite, direction, session and keys.
abbrev pub paired : RecordSealer → ReplayWindow → RecordOpener
paired s window = record {
  suite = s.suite;
  direction = s.direction;
  session_id = s.session_id;
  keys = s.keys;
  replay = window;
}

module _ (c : Primitives) (laws : PrimitiveLaws c) where
  sealed-IsTyped :
      (s : RecordSealer) (t : FrameType) (h : Option ℕ) (body : List ℕ)
      → s.session_id < 2 ^ 64
      → s.next_packet_number + 1 < 2 ^ 64
      → IsHandle h
      → AreBytes body
      → IsTyped (sealed_frame c s t h body)
  sealed-IsTyped s t h body id room handle bytes = record {
    session_fits = id;
    number_fits = omega arith;
    handle_fits = handle;
    payload_bytes = bytes;
  }

  -- With primitives that keep their laws, the bytes that `seal` returns are those of a frame with
  -- the sealer's session and its next packet number. The number then goes up by one, remains below
  -- 2^64, and nothing else of the sealer changes.
  pub seal_number :
      (s : RecordSealer) (t : FrameType) (h : Option ℕ) (plaintext bytes : List ℕ)
      (s' : RecordSealer)
      → s.session_id < 2 ^ 64
      → IsHandle h
      → AreBytes plaintext
      → seal c s t h plaintext ≡ ok (bytes, s')
      → ((f : WireFrame) × (decode bytes ≡ ok f)
          × (f.session_id ≡ s.session_id)
          × (f.packet_number ≡ s.next_packet_number))
        × (s' ≡ record s { next_packet_number = s.next_packet_number + 1 })
        × (s'.next_packet_number < 2 ^ 64)
  seal_number s t h plaintext bytes s' id handle b e =
      let done = seal-Sealed c s t h plaintext bytes s' e in
      let (long, body_bytes, back) =
        open_body-seal_body c laws s.suite s.keys s.next_packet_number done.aad plaintext done.body
          b done.body_is in
      let typed = sealed-IsTyped s t h done.body id done.room handle body_bytes in
      (
        (sealed_frame c s t h done.body, decode-encode _ bytes typed done.written, refl, refl),
        done.next,
        rw done.next (omega (arith, done.room)),
      )

  aad_of_body :
      (s : RecordSealer) (t : FrameType) (h : Option ℕ) (body : List ℕ)
      → aad_of s.direction s.suite (sealed_frame c s t h body)
        ≡ aad_of s.direction s.suite (sealed_frame c s t h [])
  unfolding aad_of encoded_header
  aad_of_body s t h body = refl

  -- What `seal` wrote is authentic to the opener of the other end.
  pub authenticate-seal :
      (s : RecordSealer) (window : ReplayWindow) (t : FrameType) (h : Option ℕ)
      (plaintext bytes : List ℕ) (s' : RecordSealer)
      → s.session_id < 2 ^ 64
      → IsHandle h
      → AreBytes plaintext
      → length plaintext ≤ max_frame_payload_limit
      → seal c s t h plaintext ≡ ok (bytes, s')
      → authenticate c (paired s window) bytes
        ≡ ok (
          s.next_packet_number,
          record { frame_type = t; conversation_handle = h; plaintext = plaintext },
        )
  unfolding authenticate
  authenticate-seal s window t h plaintext bytes s' id handle b short e =
      let done = seal-Sealed c s t h plaintext bytes s' e in
      let (long, body_bytes, back) =
        open_body-seal_body c laws s.suite s.keys s.next_packet_number done.aad plaintext done.body
          b done.body_is in
      let typed = sealed-IsTyped s t h done.body id done.room handle body_bytes in
      let read = decode-encode _ bytes typed done.written in
      let tagged : not (ltb (length done.body) (tag_length s.suite)) ≡ true =
        ground (arith, long) in
      let split : length done.body - tag_length s.suite ≡ length plaintext = omega (arith, long) in
      let fits : not (ltb max_frame_payload_limit (length plaintext)) ≡ true = ground arith in
      rw (
        read,
        eq_self s.session_id,
        done.protected,
        tagged,
        aad_of_body s t h done.body,
        done.aad_is,
        split,
        back,
        fits,
      )

  -- With primitives that keep their laws, what a sealer returned for at most 1150 bytes is opened,
  -- by an opener with the same suite, direction, session and keys, to the type, handle and bytes
  -- that were sealed, provided that the packet number was not accepted before and is not below the
  -- replay window.
  pub open_record-seal :
      (s : RecordSealer) (window : ReplayWindow) (seen : List ℕ) (t : FrameType) (h : Option ℕ)
      (plaintext bytes : List ℕ) (s' : RecordSealer)
      → s.session_id < 2 ^ 64
      → IsHandle h
      → AreBytes plaintext
      → length plaintext ≤ max_frame_payload_limit
      → Represents window seen
      → contains s.next_packet_number seen ≡ false
      → ((g : ℕ) → top seen ≡ some g → g < s.next_packet_number + window.width)
      → seal c s t h plaintext ≡ ok (bytes, s')
      → (open_record c (paired s window) bytes).1
        ≡ ok (record { frame_type = t; conversation_handle = h; plaintext = plaintext })
  unfolding open_record
  open_record-seal s window seen t h plaintext bytes s' id handle b short r fresh near e =
      let authentic = authenticate-seal s window t h plaintext bytes s' id handle b short e in
      let accepted = (accept-ok_iff window seen s.next_packet_number r).1 (fresh, near) in
      rw (authentic, accepted)
