-- ===== src/Handshake/Credentials.antt =====
-- The resumption credentials of crates/udp2raw-ng-core/src/handshake.rs, by their parts.
use mathlib.Core.List.{append_assoc}
use mathlib.Core.Path.{subst}
use udp2raw_ng.Prelude.{
  ℕ, ◌^◌, ◌≤◌, ◌<◌, ◌≡◌, ◌≢◌, ◌↔◌, sym, ap, ◌∙◌, true, not, List, ◌++◌, arith, ltb, ◌==◌, ok,
  map_err, >>=-eq-ok, guard->>-ok, map_err-eq-ok, ok-injective, not_ltb→le, le→not_ltb, nonzero→ne,
  ne→nonzero, length, length-append, take, drop, take-append_eq, drop-append_eq,
}
use udp2raw_ng.Prelude.Bytes.{be_bytes, from_be, length-be_bytes, from_be-be_bytes}
use udp2raw_ng.Prelude.Slices.{slice, slice_skip, slice_here}
use udp2raw_ng.Errors.{CryptoError, invalid_resumption_credential}
use udp2raw_ng.Crypto.{Primitives, PrimitiveLaws, hmac_tag, verify_hmac, verify_hmac-ok_iff}
use udp2raw_ng.Handshake.Auth.{
  resumption_transcript, unsigned_credential, sign_credential, verify_resumption_credential,
}

-- The parts of a credential from its first byte on.
module _ (random s cid t u tag : List ℕ) (lr : length random ≡ 32) (ls : length s ≡ 8)
    (lc : length cid ≡ 4) (lt : length t ≡ 8) (lu : length u ≡ 8) where
  flat : (random ++ (s ++ (cid ++ (t ++ u)))) ++ tag ≡ random ++ (s ++ (cid ++ (t ++ (u ++ tag))))
  flat = simp append_assoc

  session_part : slice 32 40 ((random ++ (s ++ (cid ++ (t ++ u)))) ++ tag) ≡ s
  session_part =
      ap (slice 32 40) flat
      ∙ slice_skip 32 32 40 random (s ++ (cid ++ (t ++ (u ++ tag)))) lr (omega arith)
      ∙ slice_here 8 s (cid ++ (t ++ (u ++ tag))) ls

  conversation_part : slice 40 44 ((random ++ (s ++ (cid ++ (t ++ u)))) ++ tag) ≡ cid
  conversation_part =
      ap (slice 40 44) flat
      ∙ slice_skip 32 40 44 random (s ++ (cid ++ (t ++ (u ++ tag)))) lr (omega arith)
      ∙ slice_skip 8 8 12 s (cid ++ (t ++ (u ++ tag))) ls (omega arith)
      ∙ slice_here 4 cid (t ++ (u ++ tag)) lc

  issued_part : slice 44 52 ((random ++ (s ++ (cid ++ (t ++ u)))) ++ tag) ≡ t
  issued_part =
      ap (slice 44 52) flat
      ∙ slice_skip 32 44 52 random (s ++ (cid ++ (t ++ (u ++ tag)))) lr (omega arith)
      ∙ slice_skip 8 12 20 s (cid ++ (t ++ (u ++ tag))) ls (omega arith)
      ∙ slice_skip 4 4 12 cid (t ++ (u ++ tag)) lc (omega arith)
      ∙ slice_here 8 t (u ++ tag) lt

  expires_part : slice 52 60 ((random ++ (s ++ (cid ++ (t ++ u)))) ++ tag) ≡ u
  expires_part =
      ap (slice 52 60) flat
      ∙ slice_skip 32 52 60 random (s ++ (cid ++ (t ++ (u ++ tag)))) lr (omega arith)
      ∙ slice_skip 8 20 28 s (cid ++ (t ++ (u ++ tag))) ls (omega arith)
      ∙ slice_skip 4 12 20 cid (t ++ (u ++ tag)) lc (omega arith)
      ∙ slice_skip 8 8 16 t (u ++ tag) lt (omega arith)
      ∙ slice_here 8 u tag lu

  length-unsigned : length (random ++ (s ++ (cid ++ (t ++ u)))) ≡ 60
  length-unsigned = omega (
    arith,
    length-append random (s ++ (cid ++ (t ++ u))),
    length-append s (cid ++ (t ++ u)),
    length-append cid (t ++ u),
    length-append t u,
    lr,
    ls,
    lc,
    lt,
    lu,
  )

abbrev Parts : ℕ → ℕ → ℕ → ℕ → List ℕ → List ℕ → Type 0
Parts s cid t u unsigned tag =
    (from_be (slice 44 52 (unsigned ++ tag)) ≡ t)
    × (from_be (slice 52 60 (unsigned ++ tag)) ≡ u)
    × (take 60 (unsigned ++ tag) ≡ unsigned)
    × (drop 60 (unsigned ++ tag) ≡ tag)
    × (from_be (slice 32 40 (unsigned ++ tag)) ≡ s)
    × (from_be (slice 40 44 (unsigned ++ tag)) ≡ cid)

-- What is read at each place of a credential.
credential_layout :
    (random : List ℕ) (s cid t u : ℕ) (tag : List ℕ)
    → length random ≡ 32
    → (s < 2 ^ 64) × (cid < 2 ^ 32) × (t < 2 ^ 64) × (u < 2 ^ 64)
    → Parts s cid t u
        (random ++ (be_bytes 8 s ++ (be_bytes 4 cid ++ (be_bytes 8 t ++ be_bytes 8 u))))
        tag
credential_layout random s cid t u tag lr fits =
    let ls = length-be_bytes 8 s in
    let lc = length-be_bytes 4 cid in
    let lt = length-be_bytes 8 t in
    let lu = length-be_bytes 8 u in
    let whole = length-unsigned random _ _ _ _ tag lr ls lc lt lu in
    (
      ap from_be (issued_part random _ _ _ _ tag lr ls lc lt lu) ∙ from_be-be_bytes 8 t fits.2,
      ap from_be (expires_part random _ _ _ _ tag lr ls lc lt lu) ∙ from_be-be_bytes 8 u fits.3,
      take-append_eq 60 _ tag whole,
      drop-append_eq 60 _ tag whole,
      ap from_be (session_part random _ _ _ _ tag lr ls lc lt lu) ∙ from_be-be_bytes 8 s fits.0,
      ap from_be (conversation_part random _ _ _ _ tag lr ls lc lt lu)
          ∙ from_be-be_bytes 4 cid fits.1,
    )

module _ (c : Primitives) (laws : PrimitiveLaws c) where
  -- With primitives that keep their laws, a credential is accepted for a session and a
  -- conversation exactly if the time is between its two times, its tag is the secret's, it names
  -- that session and that conversation, and the conversation is not zero.
  pub verify_resumption_credential-ok_iff :
      (secret bytes : List ℕ) (now_ms session_id conversation_id : ℕ)
      → (verify_resumption_credential c secret bytes now_ms ≡ ok (session_id, conversation_id))
        ↔ (from_be (slice 44 52 bytes) ≤ now_ms)
          × (from_be (slice 44 52 bytes) ≤ from_be (slice 52 60 bytes))
          × (now_ms ≤ from_be (slice 52 60 bytes))
          × (hmac_tag c secret (resumption_transcript (take 60 bytes)) ≡ ok (drop 60 bytes))
          × (conversation_id ≢ 0)
          × (session_id ≡ from_be (slice 32 40 bytes))
          × (conversation_id ≡ from_be (slice 40 44 bytes))
  unfolding verify_resumption_credential
  verify_resumption_credential-ok_iff secret bytes now_ms session_id conversation_id =
      let tag_iff =
        verify_hmac-ok_iff c laws secret (resumption_transcript (take 60 bytes)) (drop 60 bytes) in
      let issued = from_be (slice 44 52 bytes) in
      let expires = from_be (slice 52 60 bytes) in
      (
        λ e.
            let (begun, e1) = guard->>-ok (not (ltb now_ms issued)) _ _ e in
            let (ordered, e2) = guard->>-ok (not (ltb expires issued)) _ _ e1 in
            let (lasts, e3) = guard->>-ok (not (ltb expires now_ms)) _ _ e2 in
            let (u, signed, e4) =
              >>=-eq-ok
                (map_err (λ (_ : CryptoError). invalid_resumption_credential)
                  (verify_hmac c secret (resumption_transcript (take 60 bytes)) (drop 60 bytes)))
                _ e3 in
            let (named, e5) = guard->>-ok (not (from_be (slice 40 44 bytes) == 0)) _ _ e4 in
            let pair = ok-injective e5 in
            let conversation = ap (λ (p : ℕ × ℕ). p.1) (sym pair) in
            (
              not_ltb→le now_ms issued begun,
              not_ltb→le expires issued ordered,
              not_ltb→le expires now_ms lasts,
              tag_iff.0
                  (map_err-eq-ok (λ (_ : CryptoError). invalid_resumption_credential) _ signed),
              subst (λ (n : ℕ). n ≢ 0) (sym conversation) (nonzero→ne _ named),
              ap (λ (p : ℕ × ℕ). p.0) (sym pair),
              conversation,
            ),
        λ v.
            let begun : not (ltb now_ms issued) ≡ true = le→not_ltb now_ms issued v.0 in
            let ordered : not (ltb expires issued) ≡ true = le→not_ltb expires issued v.1 in
            let lasts : not (ltb expires now_ms) ≡ true = le→not_ltb expires now_ms v.2 in
            let named : not (from_be (slice 40 44 bytes) == 0) ≡ true =
              ne→nonzero _ (subst (λ (n : ℕ). n ≢ 0) v.6 v.4) in
            rw (begun, ordered, lasts, tag_iff.1 v.3, named, v.5, v.6),
      )

  -- With primitives that keep their laws, a credential that was signed for a session and a
  -- conversation other than zero, with 32 random bytes and times in range, is accepted for them
  -- from the time of its issue until it expires.
  pub verify_resumption_credential-sign :
      (secret random credential : List ℕ) (session_id conversation_id issued expires now_ms : ℕ)
      → length random ≡ 32
      → (session_id < 2 ^ 64) × (conversation_id < 2 ^ 32) × (issued < 2 ^ 64) × (expires < 2 ^ 64)
      → 0 < conversation_id
      → issued ≤ now_ms
      → now_ms ≤ expires
      → sign_credential c secret
          (unsigned_credential c random session_id conversation_id issued expires)
        ≡ ok credential
      → verify_resumption_credential c secret credential now_ms ≡ ok (session_id, conversation_id)
  unfolding sign_credential
  verify_resumption_credential-sign secret random credential s cid t u now_ms lr fits named begun
        lasts e =
      let unsigned = unsigned_credential c random s cid t u in
      let (tag, made, e1) = >>=-eq-ok (hmac_tag c secret (resumption_transcript unsigned)) _ e in
      let same : unsigned ++ tag ≡ credential = ok-injective e1 in
      let parts : Parts s cid t u unsigned tag = credential_layout random s cid t u tag lr fits in
      subst (λ (bytes : List ℕ). verify_resumption_credential c secret bytes now_ms ≡ ok (s, cid))
        same
        ((verify_resumption_credential-ok_iff secret (unsigned ++ tag) now_ms s cid).1 (
          omega (arith, parts.0),
          omega (arith, parts.0, parts.1),
          omega (arith, parts.1),
          rw (parts.2, parts.3) made,
          ground arith,
          sym parts.4,
          sym parts.5,
        ))
