-- ===== src/Engine/Client.antt =====
-- `ClientEngine` of crates/udp2raw-ng-core/src/engine.rs: its state. The methods stand in the child
-- modules. The random source, which the code reaches through the operating system, is the last field.
-- A hash map is gone through in the order of its association list.
use udp2raw_ng.Prelude.{
  ℕ, Bool, true, false, Option, none, some, List, [], ◌∷◌, Result, ok, err, ◌>>=◌, ◌>>◌, guard,
  map_err,
}
use udp2raw_ng.Prelude.Maps.{Map}
use udp2raw_ng.Errors.{EngineError, invalid_role}
use udp2raw_ng.Config.{EngineConfig, Psk, Role, client, server, validate}
use udp2raw_ng.Entropy.{Entropy}
use udp2raw_ng.Handshake.Messages.{ClientHello, ServerHello, ResumptionCredential}
use udp2raw_ng.Record.{RecordSealer, RecordOpener}
use udp2raw_ng.Engine.Handles.{SessionConversationHandles}
use udp2raw_ng.Engine.Events.{SessionState, idle, is_handshaking_state}
use udp2raw_ng.Engine.Monad.{Action}
pub mod Queue
pub mod Invariant
pub mod Flush
pub mod Starts
pub mod Locals
pub mod Replies
pub mod Frames
pub mod Tunnels
pub mod Times
pub mod Laws
pub mod Timeout
pub mod Establish
pub mod Once
pub mod Examples
pub mod Steps
pub mod Sends
pub mod Begin
pub mod Local
pub mod Hello
pub mod Tunnel
pub mod Expire
pub mod Handle

pub record ClientConversation : Type 0 where
  pub id : ℕ
  pub last_activity : ℕ
  pub resumption : Option (ℕ × ResumptionCredential)

pub record QueuedClientDatagram : Type 0 where
  pub local_peer : ℕ
  pub payload : List ℕ
  pub queued_at : ℕ

pub data ClientHandshakePhase : Type 0 where
  awaiting_server_hello : ClientHandshakePhase
  -- the server hello and the bytes of the finish
  awaiting_server_ack : ServerHello → List ℕ → ClientHandshakePhase

pub record ClientHandshake : Type 0 where
  pub hello : ClientHello
  pub phase : ClientHandshakePhase
  pub started_at : ℕ
  pub last_sent_at : ℕ
  pub attempts : ℕ

pub record ClientSession : Type 0 where
  pub id : ℕ
  pub sealer : RecordSealer
  pub opener : RecordOpener
  pub last_received_at : ℕ
  pub resumed : Bool
  pub handles : SessionConversationHandles
  pub resumption_source : Option ℕ

pub record ClientEngine : Type 0 where
  pub config : EngineConfig
  pub psk : Psk
  pub server_peer : ℕ
  pub state : SessionState
  pub handshake : Option ClientHandshake
  pub session : Option ClientSession
  pub by_peer : Map ClientConversation
  pub by_id : Map ℕ
  pub queued_datagrams : List QueuedClientDatagram
  pub entropy : Entropy

abbrev pub is_client : Role → Bool
is_client client = true
is_client server = false

-- `ClientEngine::new`
unfoldable pub new_client : EngineConfig → Psk → ℕ → Entropy → Result EngineError ClientEngine
new_client config psk server_peer entropy = do
  map_err EngineError.config (validate config)
  guard (is_client config.role) invalid_role
  ok (record {
    config = config;
    psk = psk;
    server_peer = server_peer;
    state = idle;
    handshake = none;
    session = none;
    by_peer = [];
    by_id = [];
    queued_datagrams = [];
    entropy = entropy;
  })

-- `session_id`
abbrev pub session_id_of : Option ClientSession → Option ℕ
session_id_of none = none
session_id_of (some session) = some session.id

abbrev pub is_handshaking : ClientEngine → Bool
is_handshaking s = is_handshaking_state s.state

-- A method of the client engine.
abbrev pub Client : Type 0 → Type 0
Client A = Action ClientEngine A
