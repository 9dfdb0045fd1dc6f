-- ===== src/Errors.antt =====
-- The error types of crates/udp2raw-ng-core/src/error.rs, without their messages.
use udp2raw_ng.Prelude.{ℕ}
use Prim.Native.String.{String}

pub data ConfigError : Type 0 where
  zero_replay_window : ConfigError
  zero_conversation_limit : ConfigError
  zero_conversation_idle_timeout : ConfigError
  zero_session_timeout : ConfigError
  zero_session_idle_timeout : ConfigError
  zero_handshake_timeout : ConfigError
  zero_handshake_retry_interval : ConfigError
  handshake_retry_exceeds_timeout : ConfigError
  zero_handshake_attempt_limit : ConfigError
  zero_reconnect_queue_capacity : ConfigError
  zero_reconnect_queue_timeout : ConfigError
  zero_handshake_rate_limit_burst : ConfigError
  zero_handshake_rate_refill_interval : ConfigError
  zero_handshake_cookie_lifetime : ConfigError
  zero_resumption_lifetime : ConfigError
  zero_pending_handshake_limit : ConfigError
  zero_per_peer_pending_handshake_limit : ConfigError
  zero_session_limit : ConfigError
  -- The value, and the maximum.
  invalid_frame_payload_limit : ℕ → ℕ → ConfigError
  unsupported_cipher_suite : String → ConfigError
  -- The minimum, and the length given.
  psk_too_short : ℕ → ℕ → ConfigError
  psk_too_long : ℕ → ConfigError

pub data FrameError : Type 0 where
  truncated : FrameError
  invalid_magic : FrameError
  unsupported_version : ℕ → FrameError
  unknown_frame_type : ℕ → FrameError
  reserved_flags : FrameError
  invalid_payload_length : FrameError
  payload_too_large : FrameError
  invalid_frame_fields : FrameError

pub data ReplayError : Type 0 where
  duplicate : ReplayError
  too_old : ReplayError

pub data CryptoError : Type 0 where
  authentication_failed : CryptoError
  key_derivation_failed : CryptoError

pub data HandshakeError : Type 0 where
  unexpected_message : HandshakeError
  malformed : HandshakeError
  handshake_id_mismatch : HandshakeError
  cipher_suite_mismatch : HandshakeError
  authentication_failed : HandshakeError
  invalid_cookie : HandshakeError
  invalid_resumption_credential : HandshakeError
  unknown_pending_handshake : HandshakeError

pub data RecordError : Type 0 where
  frame : FrameError → RecordError
  crypto : CryptoError → RecordError
  replay : ReplayError → RecordError
  session_mismatch : RecordError
  unsupported_epoch : RecordError
  invalid_record_type : RecordError
  truncated_tag : RecordError
  packet_number_exhausted : RecordError

pub data EngineError : Type 0 where
  config : ConfigError → EngineError
  frame : FrameError → EngineError
  crypto : CryptoError → EngineError
  handshake : HandshakeError → EngineError
  record_error : RecordError → EngineError
  invalid_role : EngineError
  conversation_capacity : EngineError
  conversation_handle_exhausted : EngineError
  pending_handshake_capacity : EngineError
  per_peer_pending_handshake_capacity : EngineError
  handshake_rate_limited : EngineError
  session_capacity : EngineError
  unknown_conversation : EngineError
  payload_too_large : EngineError
  packet_number_exhausted : EngineError
  session_not_ready : EngineError
  unknown_session : EngineError
  unexpected_peer : EngineError
  randomness_unavailable : EngineError
