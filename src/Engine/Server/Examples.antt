-- ===== src/Engine/Server/Examples.antt =====
-- A server engine of crates/udp2raw-ng-core/src/engine.rs, and the theorems on it there.
use udp2raw_ng.Prelude.{
  ℕ, List, none, Result, err, ◌-◌, ◌<◌, ◌≡◌, refl, some, [], ◌∷◌, arith, min, ok, replicate,
}
use udp2raw_ng.Entropy.{getrandom}
use udp2raw_ng.Config.{Psk, server_config, default, validate}
use udp2raw_ng.Config.Laws.{IsValid, validate-ok_iff, validate-default}
use udp2raw_ng.Engine.Rules.{Post}
use udp2raw_ng.Engine.Server.{ServerEngine, HandshakeRateBucket, new_server, server_with}
use udp2raw_ng.Engine.Server.Rate.{allow_handshake_attempt}
use udp2raw_ng.Crypto.Examples.{toy}
use udp2raw_ng.Config.{cha_cha20_poly1305}
use udp2raw_ng.Errors.{FrameError}
use udp2raw_ng.Protocol.{encode}
use udp2raw_ng.Handshake.Messages.{ClientHello, client_hello_frame}
use udp2raw_ng.Engine.Events.{tunnel_frame}
use udp2raw_ng.Engine.Server.Handle.{handle}
use udp2raw_ng.Engine.Server.Invariant.{IsGood}
use udp2raw_ng.Engine.Server.Laws.{is_new, handled, Reached-IsGood}
use udp2raw_ng.Crypto.{client_to_server, server_to_client, hmac_tag}
use udp2raw_ng.Replay.{ReplayWindow}
use udp2raw_ng.Record.{RecordSealer}
use udp2raw_ng.Handshake.Auth.{issue_resumption_credential, sign_credential}
use udp2raw_ng.Engine.Handles.{new_handles}
use udp2raw_ng.Engine.Monad.{panics}
use udp2raw_ng.Engine.Server.{ServerSession}
use udp2raw_ng.Engine.Server.Records.{draw_credential, grant_all, refresh_credentials}
use udp2raw_ng.Engine.Server.Limits.{
  IsLimited, Attempted, attempts, allow_handshake_attempt-Attempted, attempts_limited,
}

abbrev psk : Psk
psk = record { bytes = replicate 32 7 }

abbrev fresh : ServerEngine
fresh = server_with server_config psk (replicate 32 9) []

fresh_made : new_server server_config psk (some (replicate 32 9) ∷ []) ≡ ok fresh
unfolding new_server server_config default validate getrandom
fresh_made = refl

server_config-IsValid : IsValid server_config
server_config-IsValid = (validate-ok_iff server_config).0 validate-default.1

-- Peer 3 has two tokens left.
abbrev bucket : HandshakeRateBucket
bucket = record { tokens = 2; last_refill_at = 100 }

abbrev limited : ServerEngine
limited = record fresh { handshake_rate_buckets = (3, bucket) ∷ [] }

at_101 : 101 - 100 < server_config.handshake_rate_refill_interval
unfolding server_config default
at_101 = omega arith

at_102 : 102 - 100 < server_config.handshake_rate_refill_interval
unfolding server_config default
at_102 = omega arith

attempts_limited_example : (attempts 3 (101 ∷ 102 ∷ 102 ∷ []) limited).0 ≡ min 3 2
attempts_limited_example =
    attempts_limited 3 (101 ∷ 102 ∷ 102 ∷ []) bucket limited refl (at_101, (at_102, (at_102, tt)))

fresh-IsLimited : IsLimited server_config []
fresh-IsLimited = record { few = omega arith; full = tt }

allow_handshake_attempt-Attempted_example :
    Post (λ a t. Attempted fresh t) (λ t. ⊥) (allow_handshake_attempt 3 100 fresh)
allow_handshake_attempt-Attempted_example =
    allow_handshake_attempt-Attempted 3 100 fresh server_config-IsValid.refill fresh-IsLimited

abbrev hello : ClientHello
hello = record {
  handshake_id = replicate 16 3;
  client_nonce = replicate 32 4;
  suite = cha_cha20_poly1305;
  cookie = none;
  resumption = none;
}

abbrev bytes_of : Result FrameError (List ℕ) → List ℕ
bytes_of (ok bytes) = bytes
bytes_of (err e) = []

-- A fresh server that has taken a client hello of peer 3.
greeted : ServerEngine
greeted = (handle toy (tunnel_frame 3 (bytes_of (encode (client_hello_frame hello)))) 100 fresh).1

Reached-IsGood_example : IsGood greeted
unfolding greeted
Reached-IsGood_example = Reached-IsGood toy greeted (
    handled (tunnel_frame 3 (bytes_of (encode (client_hello_frame hello)))) 100 fresh
      (is_new server_config psk (some (replicate 32 9) ∷ []) fresh fresh_made))

abbrev sealer : RecordSealer
sealer = record {
  suite = cha_cha20_poly1305;
  direction = server_to_client;
  session_id = 5;
  next_packet_number = 1;
  keys = record { record_key = replicate 32 1; nonce_prefix = 1 ∷ 2 ∷ 3 ∷ 4 ∷ [] };
}

abbrev window : ReplayWindow
window = record { width = 64; highest = none; words = 0 ∷ [] }

-- A resumed session that has taken over conversation 70, which no handle stands for yet.
abbrev resumed : ServerSession
resumed = record {
  peer_id = 3;
  sealer = sealer;
  opener = record {
    suite = cha_cha20_poly1305;
    direction = client_to_server;
    session_id = 5;
    keys = sealer.keys;
    replay = window;
  };
  handshake_ack = [];
  client_finish = [];
  conversations = (70, 0) ∷ [];
  handles = new_handles;
  resumed_from = some 4;
  resumption_credential = none;
  last_activity = 0;
  expires_at = 100;
}

abbrev drawing : ServerEngine
drawing = record fresh {
  sessions = (5, resumed) ∷ [];
  entropy = some (replicate 32 1) ∷ some (replicate 32 2) ∷ [];
}

-- The refresh of the credentials meets the conversation without a handle.
unbound_panics : (refresh_credentials toy 5 70 resumed 50 0 drawing).0 ≡ panics
unfolding refresh_credentials grant_all draw_credential issue_resumption_credential sign_credential
    hmac_tag getrandom server_config default
unbound_panics = refl
