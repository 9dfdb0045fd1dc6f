-- ===== src/Crypto.antt =====
-- Key derivation and tags: crates/udp2raw-ng-core/src/crypto.rs. The crates `hmac`, `sha2`,
-- `hkdf`, `aes_gcm` and `chacha20poly1305` are not part of the repository: `Primitives` holds the
-- calls that the source makes of them, and `PrimitiveLaws` what is documented of those calls.
pub mod Examples
use udp2raw_ng.Prelude.{
  ℕ, ◌+◌, ◌≤◌, ◌<◌, ◌≡◌, ◌↔◌, Bool, true, false, Option, none, some, List, [], ◌∷◌, ◌++◌, ◌==◌,
  if◌then◌else◌, Result, ok, err, ◌>>=◌, ◌>>◌, guard, ok_or, length, Result-cases, inl, inr,
}
use udp2raw_ng.Prelude.Bytes.{be_bytes, AreBytes, codes}
use udp2raw_ng.Config.{
  CipherSuite, wire_id, Psk, cha_cha20_poly1305, x_cha_cha20_poly1305, aes128_gcm, aes256_gcm,
  none_authenticated,
}
use native.Mathlib.Omega.{arith}
use udp2raw_ng.Errors.{CryptoError, authentication_failed, key_derivation_failed}

-- Each answer `none` is the crate's `Err`.
pub record Primitives : Type 0 where
  -- `Hmac::<Sha256>::new_from_slice(key)`, `update(data)`, `finalize`.
  pub hmac : List ℕ → List ℕ → Option (List ℕ)
  -- The same with `verify_slice(tag)`: `none` where the key is refused.
  pub hmac_verify : List ℕ → List ℕ → List ℕ → Option Bool
  pub sha256 : List ℕ → List ℕ
  -- `Hkdf::<Sha256>::new(Some(salt), ikm).expand(info, okm)`, with the length of `okm`.
  pub hkdf_expand : List ℕ → List ℕ → List ℕ → ℕ → Option (List ℕ)
  -- `new_from_slice(key)` of the suite's cipher.
  pub cipher_new : CipherSuite → List ℕ → Bool
  -- `encrypt_in_place_detached(nonce, aad, body)`: the body that is left, and the tag.
  pub encrypt : CipherSuite → List ℕ → List ℕ → List ℕ → List ℕ → Option (List ℕ × List ℕ)
  -- `decrypt_in_place_detached(nonce, aad, body, tag)`: the body that is left.
  pub decrypt : CipherSuite → List ℕ → List ℕ → List ℕ → List ℕ → List ℕ → Option (List ℕ)

pub record PrimitiveLaws (c : Primitives) : Type 0 where
  pub hmac_tag_shape :
      (key text tag : List ℕ) → c.hmac key text ≡ some tag → (length tag ≡ 32) × AreBytes tag
  pub verify_iff :
      (key text tag : List ℕ)
      → (c.hmac_verify key text tag ≡ some true) ↔ (c.hmac key text ≡ some tag)
  pub encrypt_shape :
      (s : CipherSuite) (key nonce aad body out tag : List ℕ)
      → AreBytes body
      → c.encrypt s key nonce aad body ≡ some (out, tag)
      → (length out ≡ length body) × (length tag ≡ 16) × AreBytes out × AreBytes tag
  pub decrypt_encrypt :
      (s : CipherSuite) (key nonce aad body out tag : List ℕ)
      → c.encrypt s key nonce aad body ≡ some (out, tag)
      → c.decrypt s key nonce aad out tag ≡ some body

abbrev protocol_domain : List ℕ
protocol_domain = codes "udp2raw-ng/v4"

pub data Direction : Type 0 where
  client_to_server : Direction
  server_to_client : Direction

unfoldable pub label : Direction → List ℕ
label client_to_server = codes "client-to-server"
label server_to_client = codes "server-to-client"

unfoldable pub direction_id : Direction → ℕ
direction_id client_to_server = 1
direction_id server_to_client = 2

pub record DirectionKeys : Type 0 where
  pub record_key : List ℕ
  pub nonce_prefix : List ℕ

pub record SessionKeys : Type 0 where
  pub to_server : DirectionKeys
  pub to_client : DirectionKeys

key_len : CipherSuite → ℕ
key_len aes128_gcm = 16
key_len _ = 32

nonce_len : CipherSuite → ℕ
nonce_len x_cha_cha20_poly1305 = 16
nonce_len none_authenticated = 0
nonce_len _ = 4

module _ (c : Primitives) where
  open c use {hmac, hmac_verify, sha256, hkdf_expand}

  unfoldable pub hmac_tag : List ℕ → List ℕ → Result CryptoError (List ℕ)
  hmac_tag key text = ok_or (hmac key text) key_derivation_failed

  unfoldable pub verify_hmac : List ℕ → List ℕ → List ℕ → Result CryptoError (Unit {0})
  verify_hmac key text tag = do
    same ← ok_or (hmac_verify key text tag) key_derivation_failed
    guard same authentication_failed

  unfoldable pub handshake_key : Psk → List ℕ → List ℕ → Result CryptoError (List ℕ)
  handshake_key psk handshake_id client_nonce =
      ok_or
        (hkdf_expand client_nonce psk.bytes
          (protocol_domain ++ (codes "/handshake-auth/" ++ handshake_id)) 32)
        key_derivation_failed

  unfoldable pub handshake_tag : Psk → List ℕ → List ℕ → List ℕ → Result CryptoError (List ℕ)
  handshake_tag psk handshake_id client_nonce transcript = do
    key ← handshake_key psk handshake_id client_nonce
    hmac_tag key transcript

  unfoldable pub verify_handshake_tag :
      Psk → List ℕ → List ℕ → List ℕ → List ℕ → Result CryptoError (Unit {0})
  verify_handshake_tag psk handshake_id client_nonce transcript tag = do
    key ← handshake_key psk handshake_id client_nonce
    same ← ok_or (hmac_verify key transcript tag) key_derivation_failed
    guard same authentication_failed

  -- The bytes that the two expansions of a direction begin with.
  unfoldable pub common_info : CipherSuite → ℕ → List ℕ → List ℕ → List ℕ → Direction → List ℕ
  common_info suite session_id client_nonce server_nonce transcript direction =
      protocol_domain
      ++ (codes "/session/"
          ++ (be_bytes 8 session_id
              ++ (wire_id suite
                  ∷ (client_nonce
                      ++ (server_nonce ++ (sha256 transcript ++ (codes "/" ++ label direction)))))))

  -- The closure `derive` of `derive_session_keys`.
  unfoldable pub derive : Psk → CipherSuite → List ℕ → List ℕ → Result CryptoError DirectionKeys
  unfolding key_len nonce_len
  derive psk suite session_salt common = do
    record_key ←
        ok_or (hkdf_expand session_salt psk.bytes (common ++ codes "/record-key") (key_len suite))
          key_derivation_failed
    nonce_prefix ←
        (if nonce_len suite == 0
          then ok []
          else ok_or
              (hkdf_expand session_salt psk.bytes (common ++ codes "/nonce-prefix")
                (nonce_len suite))
              key_derivation_failed)
    ok (record { record_key = record_key; nonce_prefix = nonce_prefix })

  unfoldable pub derive_session_keys :
      Psk → CipherSuite → ℕ → List ℕ → List ℕ → List ℕ → List ℕ → Result CryptoError SessionKeys
  derive_session_keys psk suite session_id client_nonce server_nonce session_salt transcript =
      let common = common_info suite session_id client_nonce server_nonce transcript in
      do
        to_server ← derive psk suite session_salt (common client_to_server)
        to_client ← derive psk suite session_salt (common server_to_client)
        ok (record { to_server = to_server; to_client = to_client })

  pub verify_hmac-ok_iff :
      PrimitiveLaws c
      → (key text tag : List ℕ) → (verify_hmac key text tag ≡ ok tt) ↔ (hmac_tag key text ≡ ok tag)
  unfolding verify_hmac hmac_tag
  verify_hmac-ok_iff laws key text tag = (
    λ h. ground (arith, laws.verify_iff key text tag),
    λ h. ground (arith, laws.verify_iff key text tag),
  )

  -- With primitives that keep their laws, a handshake tag is accepted exactly if it is the one
  -- that `handshake_tag` makes.
  pub verify_handshake_tag-ok_iff :
      PrimitiveLaws c
      → (psk : Psk) (handshake_id client_nonce transcript tag : List ℕ)
      → (verify_handshake_tag psk handshake_id client_nonce transcript tag ≡ ok tt)
        ↔ (handshake_tag psk handshake_id client_nonce transcript ≡ ok tag)
  unfolding verify_handshake_tag handshake_tag verify_hmac
  verify_handshake_tag-ok_iff laws psk handshake_id client_nonce transcript tag =
      elim (Result-cases (handshake_key psk handshake_id client_nonce)) [
        | inl (key, e) ↦ rw e (verify_hmac-ok_iff laws key transcript tag)
        | inr (x, e) ↦ rw e (λ h. cc, λ h. cc)
      ]
