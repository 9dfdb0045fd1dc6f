-- ===== src/Config.antt =====
-- Roles, cipher suites and the limits of an engine: crates/udp2raw-ng-core/src/config.rs, and the
-- pre-shared key of crates/udp2raw-ng-core/src/secret.rs. A `Duration` is a number of nanoseconds.
pub mod Laws
pub mod Examples
use Prim.Native.String.{String, ◌++◌ as str_append}
use text.Mathlib.Text.{◌==◌ as str_eq}
use udp2raw_ng.Prelude.{
  ℕ, ◌+◌, ◌*◌, ◌/◌, ◌%◌, Bool, true, false, not, ◌&&◌, List, ltb, leb, ◌==◌, if◌then◌else◌, Result,
  ok, err, ◌>>=◌, ◌>>◌, guard, length,
}
use udp2raw_ng.Errors.{ConfigError}
use udp2raw_ng.Errors

pub data Role : Type 0 where
  client : Role
  server : Role

pub data CipherSuite : Type 0 where
  cha_cha20_poly1305 : CipherSuite
  x_cha_cha20_poly1305 : CipherSuite
  aes128_gcm : CipherSuite
  aes256_gcm : CipherSuite
  none_authenticated : CipherSuite

pub CipherSuite-discrete : Discrete CipherSuite
CipherSuite-discrete = hlevel

unfoldable pub wire_id : CipherSuite → ℕ
wire_id cha_cha20_poly1305 = 1
wire_id x_cha_cha20_poly1305 = 2
wire_id aes128_gcm = 3
wire_id aes256_gcm = 4
wire_id none_authenticated = 5

-- `{value}` of a `u8`.
digit : ℕ → String
digit d =
    if d == 0
    then "0"
    else (if d == 1
        then "1"
        else (if d == 2
            then "2"
            else (if d == 3
                then "3"
                else (if d == 4
                    then "4"
                    else (if d == 5
                        then "5"
                        else (if d == 6
                            then "6"
                            else (if d == 7 then "7" else (if d == 8 then "8" else "9"))))))))

decimal : ℕ → String
unfolding digit
decimal v =
    let tens = str_append (digit (v / 10 % 10)) (digit (v % 10)) in
    if ltb v 10 then digit v else (if ltb v 100 then tens else str_append (digit (v / 100)) tens)

unfoldable pub from_wire_id : ℕ → Result ConfigError CipherSuite
unfolding decimal
from_wire_id value =
    if value == 1
    then ok cha_cha20_poly1305
    else (if value == 2
        then ok x_cha_cha20_poly1305
        else (if value == 3
            then ok aes128_gcm
            else (if value == 4
                then ok aes256_gcm
                else (if value == 5
                    then ok none_authenticated
                    else err (
                        ConfigError.unsupported_cipher_suite
                          (str_append "wire id " (decimal value)))))))

-- `Display` and `FromStr`.
unfoldable pub to_string : CipherSuite → String
to_string cha_cha20_poly1305 = "chacha20poly1305"
to_string x_cha_cha20_poly1305 = "xchacha20poly1305"
to_string aes128_gcm = "aes128gcm"
to_string aes256_gcm = "aes256gcm"
to_string none_authenticated = "none"

unfoldable pub from_str : String → Result ConfigError CipherSuite
from_str value =
    if str_eq value "chacha20poly1305"
    then ok cha_cha20_poly1305
    else (if str_eq value "xchacha20poly1305"
        then ok x_cha_cha20_poly1305
        else (if str_eq value "aes128gcm"
            then ok aes128_gcm
            else (if str_eq value "aes256gcm"
                then ok aes256_gcm
                else (if str_eq value "none"
                    then ok none_authenticated
                    else err (ConfigError.unsupported_cipher_suite value)))))

-- The constant of protocol.rs that the configuration names.
abbrev pub max_frame_payload_limit : ℕ
max_frame_payload_limit = 1150

pub record EngineConfig : Type 0 where
  pub role : Role
  pub cipher_suite : CipherSuite
  pub replay_window_size : ℕ
  pub max_conversations : ℕ
  pub max_frame_payload : ℕ
  pub conversation_idle_timeout : ℕ
  pub session_timeout : ℕ
  pub session_idle_timeout : ℕ
  pub handshake_retry_interval : ℕ
  pub handshake_timeout : ℕ
  pub handshake_max_attempts : ℕ
  pub reconnect_queue_capacity : ℕ
  pub reconnect_queue_timeout : ℕ
  pub handshake_rate_limit_burst : ℕ
  pub handshake_rate_refill_interval : ℕ
  pub require_handshake_cookie : Bool
  pub handshake_cookie_lifetime : ℕ
  pub resumption_lifetime : ℕ
  pub max_pending_handshakes : ℕ
  pub max_pending_handshakes_per_peer : ℕ
  pub max_sessions : ℕ

abbrev from_millis : ℕ → ℕ
from_millis n = n * 1_000_000

abbrev from_secs : ℕ → ℕ
from_secs n = n * 1_000_000_000

unfoldable pub default : EngineConfig
default = record {
  role = client;
  cipher_suite = cha_cha20_poly1305;
  replay_window_size = 4096;
  max_conversations = 1024;
  max_frame_payload = max_frame_payload_limit;
  conversation_idle_timeout = from_secs 180;
  session_timeout = from_secs 10;
  session_idle_timeout = from_secs 300;
  handshake_retry_interval = from_millis 500;
  handshake_timeout = from_secs 10;
  handshake_max_attempts = 8;
  reconnect_queue_capacity = 256;
  reconnect_queue_timeout = from_secs 5;
  handshake_rate_limit_burst = 32;
  handshake_rate_refill_interval = from_millis 100;
  require_handshake_cookie = true;
  handshake_cookie_lifetime = from_secs 30;
  resumption_lifetime = from_secs 30;
  max_pending_handshakes = 1024;
  max_pending_handshakes_per_peer = 64;
  max_sessions = 4096;
}

unfoldable pub client_config : EngineConfig
unfolding default
client_config = record default { role = client }

unfoldable pub server_config : EngineConfig
unfolding default
server_config = record default { role = server }

abbrev nonzero : ℕ → Bool
nonzero n = not (n == 0)

-- The tests of `validate` in the order of the source.
unfoldable pub validate : EngineConfig → Result ConfigError (Unit {0})
validate c = do
  guard (nonzero c.replay_window_size) ConfigError.zero_replay_window
  guard (nonzero c.max_conversations) ConfigError.zero_conversation_limit
  guard (leb 1 c.max_frame_payload && leb c.max_frame_payload max_frame_payload_limit)
      (ConfigError.invalid_frame_payload_limit c.max_frame_payload max_frame_payload_limit)
  guard (nonzero c.conversation_idle_timeout) ConfigError.zero_conversation_idle_timeout
  guard (nonzero c.session_timeout) ConfigError.zero_session_timeout
  guard (nonzero c.session_idle_timeout) ConfigError.zero_session_idle_timeout
  guard (nonzero c.handshake_retry_interval) ConfigError.zero_handshake_retry_interval
  guard (nonzero c.handshake_timeout) ConfigError.zero_handshake_timeout
  guard (leb c.handshake_retry_interval c.handshake_timeout)
      ConfigError.handshake_retry_exceeds_timeout
  guard (nonzero c.handshake_max_attempts) ConfigError.zero_handshake_attempt_limit
  guard (nonzero c.reconnect_queue_capacity) ConfigError.zero_reconnect_queue_capacity
  guard (nonzero c.reconnect_queue_timeout) ConfigError.zero_reconnect_queue_timeout
  guard (nonzero c.handshake_rate_limit_burst) ConfigError.zero_handshake_rate_limit_burst
  guard (nonzero c.handshake_rate_refill_interval) ConfigError.zero_handshake_rate_refill_interval
  guard (nonzero c.handshake_cookie_lifetime) ConfigError.zero_handshake_cookie_lifetime
  guard (nonzero c.resumption_lifetime) ConfigError.zero_resumption_lifetime
  guard (nonzero c.max_pending_handshakes) ConfigError.zero_pending_handshake_limit
  guard (nonzero c.max_pending_handshakes_per_peer)
      ConfigError.zero_per_peer_pending_handshake_limit
  guard (nonzero c.max_sessions) ConfigError.zero_session_limit
  ok tt

abbrev min_psk_length : ℕ
min_psk_length = 32

abbrev max_psk_length : ℕ
max_psk_length = 1024

pub record Psk : Type 0 where
  pub bytes : List ℕ

unfoldable pub new_psk : List ℕ → Result ConfigError Psk
new_psk bytes = do
  guard (leb min_psk_length (length bytes))
      (ConfigError.psk_too_short min_psk_length (length bytes))
  guard (leb (length bytes) max_psk_length) (ConfigError.psk_too_long max_psk_length)
  ok (record { bytes = bytes })
