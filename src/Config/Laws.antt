-- ===== src/Config/Laws.antt =====
-- What crates/udp2raw-ng-core/src/config.rs and secret.rs accept.
use Prim.Native.String.{String}
use text.Mathlib.TextEquality.{eq_iff}
use udp2raw_ng.Prelude.{ℕ, ◌≤◌, ◌<◌, ◌≡◌, ◌↔◌, refl, List, arith, ok, length, true, not, leb, ◌==◌}
use udp2raw_ng.Config.{
  CipherSuite, wire_id, from_wire_id, to_string, from_str, EngineConfig, validate, client_config,
  server_config, Psk, new_psk, cha_cha20_poly1305, x_cha_cha20_poly1305, aes128_gcm, aes256_gcm,
  none_authenticated, max_frame_payload_limit,
}

-- The limits under which an engine may be built.
pub record IsValid (c : EngineConfig) : Type 0 where
  pub window : 0 < c.replay_window_size
  pub conversations : 0 < c.max_conversations
  pub payload_above : 0 < c.max_frame_payload
  pub payload_below : c.max_frame_payload ≤ max_frame_payload_limit
  pub conversation_idle : 0 < c.conversation_idle_timeout
  pub session : 0 < c.session_timeout
  pub session_idle : 0 < c.session_idle_timeout
  pub retry : 0 < c.handshake_retry_interval
  pub retry_in_time : c.handshake_retry_interval ≤ c.handshake_timeout
  pub attempts : 0 < c.handshake_max_attempts
  pub queue : 0 < c.reconnect_queue_capacity
  pub queue_time : 0 < c.reconnect_queue_timeout
  pub burst : 0 < c.handshake_rate_limit_burst
  pub refill : 0 < c.handshake_rate_refill_interval
  pub cookie : 0 < c.handshake_cookie_lifetime
  pub resumption : 0 < c.resumption_lifetime
  pub pending : 0 < c.max_pending_handshakes
  pub pending_per_peer : 0 < c.max_pending_handshakes_per_peer
  pub sessions : 0 < c.max_sessions

nonzero_pos : (n : ℕ) → 0 < n → not (n == 0) ≡ true
nonzero_pos n h = ground arith

leb_le : (a b : ℕ) → a ≤ b → leb a b ≡ true
leb_le a b h = ground arith

passes : (c : EngineConfig) → IsValid c → validate c ≡ ok tt
unfolding validate
passes c v = simp (
  nonzero_pos c.replay_window_size v.window,
  nonzero_pos c.max_conversations v.conversations,
  leb_le 1 c.max_frame_payload v.payload_above,
  leb_le c.max_frame_payload max_frame_payload_limit v.payload_below,
  nonzero_pos c.conversation_idle_timeout v.conversation_idle,
  nonzero_pos c.session_timeout v.session,
  nonzero_pos c.session_idle_timeout v.session_idle,
  nonzero_pos c.handshake_retry_interval v.retry,
  nonzero_pos c.handshake_timeout (omega (arith, v.retry, v.retry_in_time)),
  leb_le c.handshake_retry_interval c.handshake_timeout v.retry_in_time,
  nonzero_pos c.handshake_max_attempts v.attempts,
  nonzero_pos c.reconnect_queue_capacity v.queue,
  nonzero_pos c.reconnect_queue_timeout v.queue_time,
  nonzero_pos c.handshake_rate_limit_burst v.burst,
  nonzero_pos c.handshake_rate_refill_interval v.refill,
  nonzero_pos c.handshake_cookie_lifetime v.cookie,
  nonzero_pos c.resumption_lifetime v.resumption,
  nonzero_pos c.max_pending_handshakes v.pending,
  nonzero_pos c.max_pending_handshakes_per_peer v.pending_per_peer,
  nonzero_pos c.max_sessions v.sessions,
)

-- `validate` passes exactly the configurations with nonzero limits whose payload limit is at most
-- 1150 and whose retry interval is at most the handshake timeout.
pub validate-ok_iff : (c : EngineConfig) → (validate c ≡ ok tt) ↔ IsValid c
unfolding validate
validate-ok_iff c = (λ h. ground arith, passes c)

-- The default limits pass, for a client and for a server.
pub validate-default : (validate client_config ≡ ok tt) × (validate server_config ≡ ok tt)
unfolding validate client_config server_config
validate-default = (refl, refl)

-- A wire identifier is read back as the suite that wrote it, and no other number is read.
pub from_wire_id_iff : (n : ℕ) (s : CipherSuite) → (from_wire_id n ≡ ok s) ↔ (n ≡ wire_id s)
unfolding from_wire_id wire_id
from_wire_id_iff n s = (λ h. ground arith, λ e. ground arith)

shown : (s : CipherSuite) → from_str (to_string s) ≡ ok s
unfolding from_str to_string
shown cha_cha20_poly1305 = refl
shown x_cha_cha20_poly1305 = refl
shown aes128_gcm = refl
shown aes256_gcm = refl
shown none_authenticated = refl

-- A suite's name is read back as the suite, and no other text is read.
pub from_str_iff : (t : String) (s : CipherSuite) → (from_str t ≡ ok s) ↔ (t ≡ to_string s)
unfolding from_str to_string
from_str_iff t s =
    let read : from_str t ≡ ok s → t ≡ to_string s = ground (
      arith,
      eq_iff t "chacha20poly1305",
      eq_iff t "xchacha20poly1305",
      eq_iff t "aes128gcm",
      eq_iff t "aes256gcm",
      eq_iff t "none",
    ) in
    (read, λ e. rw e (shown s))

-- A key is accepted exactly when it has 32 to 1024 bytes, and is kept as it is.
pub new_psk-ok_iff :
    (bytes : List ℕ) (k : Psk)
    → (new_psk bytes ≡ ok k)
      ↔ (32 ≤ length bytes) × (length bytes ≤ 1024) × (k ≡ record { bytes = bytes })
unfolding new_psk
new_psk-ok_iff bytes k = (λ h. ground arith, λ v. ground arith)
