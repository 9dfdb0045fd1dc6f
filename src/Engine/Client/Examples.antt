-- ===== src/Engine/Client/Examples.antt =====
-- A client engine of crates/udp2raw-ng-core/src/engine.rs, and the theorems on it there.
use udp2raw_ng.Prelude.{
  ℕ, ◌^◌, ◌-◌, ◌≤◌, ◌≡◌, ◌≢◌, refl, true, false, none, some, List, [], ◌∷◌, arith, Result, ok, err,
  replicate,
}
use udp2raw_ng.Prelude.Bytes.{be_bytes, from_be}
use udp2raw_ng.Errors.{RecordError}
use udp2raw_ng.Config.{cha_cha20_poly1305, wire_id, Psk, client_config, default, validate}
use udp2raw_ng.Config.Laws.{IsValid, validate-ok_iff, validate-default}
use udp2raw_ng.Crypto.{client_to_server, server_to_client, direction_id}
use udp2raw_ng.Crypto.Examples.{toy, checksum}
use udp2raw_ng.Protocol.{
  is_protected, frame_type_id, try_from, validate_fields, encoded_header, encode, decode,
  handshake_ack,
}
use udp2raw_ng.Replay.{ReplayWindow, accept}
use udp2raw_ng.Record.{
  RecordSealer, tag_length, nonce_12, aad_of, encrypt_body, decrypt_body, open_body, seal_body,
  seal, authenticate, open_record,
}
use udp2raw_ng.Handshake.Messages.{ClientHello, ServerHello}
use udp2raw_ng.Engine.Handles.{new_handles}
use udp2raw_ng.Engine.Handles.Laws.{new_handles-Allocated}
use udp2raw_ng.Engine.Events.{idle, handshaking, ready, closed, is_ready, start_event, tunnel_frame}
use udp2raw_ng.Engine.Monad.{panics}
use udp2raw_ng.Engine.Rules.{Post}
use udp2raw_ng.Engine.Client.{
  ClientEngine, ClientHandshake, ClientSession, awaiting_server_hello, awaiting_server_ack,
  QueuedClientDatagram, new_client,
}
use udp2raw_ng.Engine.Client.Begin.{ready_session_is_stale}
use udp2raw_ng.Engine.Client.Local.{flush_loop, flush_queued_datagrams}
use udp2raw_ng.Engine.Client.Tunnel.{
  forget_unless, resume_all, take_ack, take_frame, take_answer, handle_record, dispatch,
  handle_tunnel,
}
use udp2raw_ng.Engine.Client.Expire.{expire}
use udp2raw_ng.Engine.Client.Handle.{handle}
use udp2raw_ng.Engine.Client.Invariant.{IsGood, Linked-none}
use udp2raw_ng.Engine.Client.Flush.{IsFresh, Flushed, flush_queued_datagrams-Flushed}
use udp2raw_ng.Replay.{new}
use udp2raw_ng.Protocol.{WireFrame, data_frame}
use udp2raw_ng.Replay.Refinement.{Represents, new-Represents}
use udp2raw_ng.Record.{AuthenticatedFrame}
use udp2raw_ng.Engine.Client.Once.{IsRefused, handle_record_twice}
use udp2raw_ng.Engine.Client.Laws.{is_new, handle-never_panics}
use udp2raw_ng.Engine.Client.Timeout.{expire-closes}
use udp2raw_ng.Engine.Client.Establish.{Establishes, handle-Establishes}

abbrev psk : Psk
psk = record { bytes = replicate 32 7 }

-- A new client of the server at peer 1.
abbrev fresh : ClientEngine
fresh = record {
  config = client_config;
  psk = psk;
  server_peer = 1;
  state = idle;
  handshake = none;
  session = none;
  by_peer = [];
  by_id = [];
  queued_datagrams = [];
  entropy = some (replicate 16 3) ∷ some (replicate 32 4) ∷ [];
}

fresh_made : new_client client_config psk 1 fresh.entropy ≡ ok fresh
unfolding new_client client_config default validate
fresh_made = refl

handle-never_panics_example :
    ((handle toy start_event 5 fresh).0 ≢ panics) × IsGood (handle toy start_event 5 fresh).1
handle-never_panics_example =
    handle-never_panics toy fresh start_event 5
      (is_new client_config psk 1 fresh.entropy fresh fresh_made)

abbrev hello : ClientHello
hello = record {
  handshake_id = replicate 16 3;
  client_nonce = replicate 32 4;
  suite = cha_cha20_poly1305;
  cookie = none;
  resumption = none;
}

abbrev answer : ServerHello
answer = record {
  handshake_id = replicate 16 3;
  client_nonce = replicate 32 4;
  server_nonce = replicate 32 5;
  session_salt = replicate 32 6;
  suite = cha_cha20_poly1305;
  resumed = false;
  auth_tag = replicate 32 0;
}

abbrev asked : ClientHandshake
asked = record {
  hello = hello;
  phase = awaiting_server_hello;
  started_at = 0;
  last_sent_at = 0;
  attempts = 1;
}

-- A handshake begun at 0.
abbrev waiting : ClientEngine
waiting = record fresh { state = handshaking; handshake = some asked }

long_after : client_config.handshake_timeout ≤ 10 ^ 12 - 0
unfolding client_config default
long_after = omega arith

expire-closes_example :
    ((expire (10 ^ 12) waiting).1.state ≡ closed)
    × ((expire (10 ^ 12) waiting).1.handshake ≡ none)
    × ((expire (10 ^ 12) waiting).1.session ≡ none)
    × ((expire (10 ^ 12) waiting).1.queued_datagrams ≡ [])
expire-closes_example = expire-closes (10 ^ 12) waiting asked refl refl long_after

abbrev window : ReplayWindow
window = record { width = 64; highest = none; words = 0 ∷ [] }

-- The server's end of session 5.
abbrev server_sealer : RecordSealer
server_sealer = record {
  suite = cha_cha20_poly1305;
  direction = server_to_client;
  session_id = 5;
  next_packet_number = 0;
  keys = record { record_key = replicate 32 1; nonce_prefix = 1 ∷ 2 ∷ 3 ∷ 4 ∷ [] };
}

abbrev session : ClientSession
session = record {
  id = 5;
  sealer = record server_sealer { direction = client_to_server };
  opener = record {
    suite = cha_cha20_poly1305;
    direction = server_to_client;
    session_id = 5;
    keys = server_sealer.keys;
    replay = window;
  };
  last_received_at = 0;
  resumed = false;
  handles = new_handles;
  resumption_source = none;
}

abbrev queued : QueuedClientDatagram
queued = record { local_peer = 8; payload = 104 ∷ []; queued_at = 0 }

-- The client has answered the server hello.
abbrev answered : ClientEngine
answered = record fresh {
  state = handshaking;
  handshake = some (record asked { phase = awaiting_server_ack answer [] });
  session = some session;
}

client_config-IsValid : IsValid client_config
client_config-IsValid = (validate-ok_iff client_config).0 validate-default.0

room_for_one : 1 ≤ client_config.reconnect_queue_capacity
unfolding client_config default
room_for_one = omega arith

answered-IsGood : IsGood answered
answered-IsGood = record {
  valid = client_config-IsValid;
  phase = (session, refl);
  allocated = new_handles-Allocated;
  room = omega arith;
  waiting = omega arith;
  linked = Linked-none;
}

-- The same client, with the session established and a datagram that waits.
abbrev established : ClientEngine
established = record answered { state = ready; handshake = none; queued_datagrams = queued ∷ [] }

established-IsFresh : IsFresh 9 established
unfolding ready_session_is_stale client_config default
established-IsFresh = record {
  good = record {
    valid = client_config-IsValid;
    phase = (refl, (session, refl));
    allocated = new_handles-Allocated;
    room = omega arith;
    waiting = room_for_one;
    linked = Linked-none;
  };
  is_in = refl;
  fresh = refl;
}

flush_queued_datagrams-Flushed_example :
    Post (λ actions t. Flushed toy 9 (some 0) t) (λ t. ⊥) (flush_queued_datagrams toy 9 established)
flush_queued_datagrams-Flushed_example =
    flush_queued_datagrams-Flushed toy 9 established established-IsFresh

abbrev bytes_of : Result RecordError (List ℕ × RecordSealer) → List ℕ
bytes_of (ok (bytes, s)) = bytes
bytes_of (err e) = []

-- The server's acknowledgement.
acknowledgement : List ℕ
unfolding seal seal_body tag_length nonce_12 aad_of encrypt_body encoded_header encode
    validate_fields
acknowledgement = bytes_of (seal toy server_sealer handshake_ack none [])

acknowledged : is_ready (handle toy (tunnel_frame 1 acknowledgement) 9 answered).1.state ≡ true
unfolding acknowledgement seal seal_body is_protected tag_length nonce_12 aad_of encoded_header
    encode validate_fields checksum be_bytes direction_id wire_id frame_type_id open_record
    authenticate decode try_from from_be encrypt_body decrypt_body open_body accept handle
    handle_tunnel dispatch handle_record take_answer take_frame take_ack forget_unless resume_all
    flush_queued_datagrams flush_loop client_config default
acknowledged = refl

handle-Establishes_example : Establishes toy answered (tunnel_frame 1 acknowledgement)
handle-Establishes_example =
    handle-Establishes toy answered (tunnel_frame 1 acknowledgement) 9 answered-IsGood refl
      acknowledged

-- A datagram from the server.
delivery : List ℕ
unfolding seal seal_body tag_length nonce_12 aad_of encrypt_body encoded_header encode
    validate_fields
delivery = bytes_of (seal toy server_sealer data_frame (some 1) (104 ∷ []))

abbrev envelope : WireFrame
envelope = record {
  session_id = 5;
  packet_number = 0;
  epoch = 0;
  frame_type = data_frame;
  conversation_handle = some 1;
  payload = [];
}

abbrev delivered : AuthenticatedFrame
delivered = record { frame_type = data_frame; conversation_handle = some 1; plaintext = 104 ∷ [] }

delivery_opens : (open_record toy session.opener delivery).1 ≡ ok delivered
unfolding delivery seal seal_body is_protected tag_length nonce_12 aad_of encoded_header encode
    validate_fields checksum be_bytes direction_id wire_id frame_type_id open_record authenticate
    decode try_from from_be encrypt_body decrypt_body open_body accept
delivery_opens = refl

window-Represents : Represents window []
unfolding new
window-Represents = new-Represents 64 window refl

handle_record_twice_example :
    IsRefused
      (handle_record toy envelope delivery 8
        (handle_record toy envelope delivery 7 established).1).0
handle_record_twice_example =
    handle_record_twice toy envelope delivery 7 8 established session [] delivered refl refl
      window-Represents delivery_opens
