-- ===== src/Engine/Server.antt =====
-- `ServerEngine` of crates/udp2raw-ng-core/src/engine.rs: its state. The methods stand in the child
-- modules. The random source, which the code reaches through the operating system, is the last field.
-- A hash map is gone through in the order of its association list.
use udp2raw_ng.Prelude.{
  ℕ, ◌-◌, Bool, true, false, Option, none, some, List, [], ◌∷◌, Result, ok, err, ◌>>=◌, ◌>>◌, guard,
  map_err, is_some, if◌then◌else◌,
}
use udp2raw_ng.Prelude.Maps.{Map, lookup, insert}
use udp2raw_ng.Errors.{EngineError, invalid_role, randomness_unavailable}
use udp2raw_ng.Config.{EngineConfig, Psk, Role, client, server, validate}
use udp2raw_ng.Entropy.{Entropy, getrandom}
use udp2raw_ng.Handshake.Messages.{ClientHello, ServerHello, ResumptionCredential}
use udp2raw_ng.Handshake.Auth.{millis}
use udp2raw_ng.Record.{RecordSealer, RecordOpener}
use udp2raw_ng.Engine.Handles.{SessionConversationHandles}
use udp2raw_ng.Engine.Events.{SessionState, handshaking, ready}
use udp2raw_ng.Engine.Monad.{Action, returns}
pub mod Rate
pub mod Limits
pub mod Fits
pub mod Invariant
pub mod Keeps
pub mod Finishes
pub mod Sessions
pub mod Takes
pub mod Ages
pub mod Laws
pub mod Examples
pub mod Admit
pub mod Finish
pub mod Records
pub mod Expire
pub mod Handle

pub record PendingHandshake : Type 0 where
  pub peer_id : ℕ
  pub created_at : ℕ
  pub client_hello : ClientHello
  pub server_hello : ServerHello
  pub resume_from : Option ℕ

pub record HandshakeRateBucket : Type 0 where
  pub tokens : ℕ
  pub last_refill_at : ℕ

pub record ServerSession : Type 0 where
  pub peer_id : ℕ
  pub sealer : RecordSealer
  pub opener : RecordOpener
  pub handshake_ack : List ℕ
  pub client_finish : List ℕ
  pub conversations : Map ℕ
  pub handles : SessionConversationHandles
  pub resumed_from : Option ℕ
  pub resumption_credential : Option (ResumptionCredential × ℕ)
  pub last_activity : ℕ
  pub expires_at : ℕ

pub record ResumableSession : Type 0 where
  pub conversations : Map ℕ
  pub expires_at : ℕ

pub record ServerEngine : Type 0 where
  pub config : EngineConfig
  pub psk : Psk
  pub cookie_secret : List ℕ
  pub clock_origin : Option ℕ
  pub pending : Map PendingHandshake
  pub sessions : Map ServerSession
  pub resumable : Map ResumableSession
  pub handshake_rate_buckets : Map HandshakeRateBucket
  pub entropy : Entropy

abbrev pub is_server : Role → Bool
is_server client = false
is_server server = true

abbrev pub server_with : EngineConfig → Psk → List ℕ → Entropy → ServerEngine
server_with config psk cookie_secret entropy = record {
  config = config;
  psk = psk;
  cookie_secret = cookie_secret;
  clock_origin = none;
  pending = [];
  sessions = [];
  resumable = [];
  handshake_rate_buckets = [];
  entropy = entropy;
}

-- The end of `ServerEngine::new`, after its draw.
abbrev pub with_secret :
    EngineConfig → Psk → Option (List ℕ) × Entropy → Result EngineError ServerEngine
with_secret config psk (none, entropy) = err randomness_unavailable
with_secret config psk (some secret, entropy) = ok (server_with config psk secret entropy)

-- `ServerEngine::new`
unfoldable pub new_server : EngineConfig → Psk → Entropy → Result EngineError ServerEngine
new_server config psk entropy = do
  map_err EngineError.config (validate config)
  guard (is_server config.role) invalid_role
  with_secret config psk (getrandom entropy)

-- `session_state`
abbrev pub session_state : ServerEngine → ℕ → Option SessionState
session_state s session_id =
    if is_some (lookup s.sessions session_id)
    then some ready
    else (if is_some (lookup s.pending session_id) then some handshaking else none)

-- A method of the server engine.
abbrev pub Server : Type 0 → Type 0
Server A = Action ServerEngine A

abbrev pub put_session : ℕ → ServerSession → ServerEngine → ServerEngine
put_session session_id session s = record s { sessions = insert s.sessions session_id session }

abbrev pub origin_or : ℕ → Option ℕ → ℕ
origin_or now none = now
origin_or now (some origin) = origin

unfoldable pub now_ms : ℕ → Server ℕ
now_ms now s =
    let origin = origin_or now s.clock_origin in
    (returns (millis (now - origin)), record s { clock_origin = some origin })
