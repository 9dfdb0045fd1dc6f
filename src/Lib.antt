-- ===== src/Lib.antt =====
-- A verification library for udp2raw-ng, a UDP tunnel whose datagrams travel as authenticated
-- records inside packets that look like TCP. The code is a Rust workspace: the protocol core
-- (crates/udp2raw-ng-core), the packet transports (crates/udp2raw-ng-net) and the host program
-- (crates/udp2raw-ng).
--
-- How the parts work together: a client and a server engine exchange wire frames. A handshake of
-- four messages, with a stateless retry in front, authenticates both ends by a pre-shared key and
-- derives the keys of a session. From then on every frame is a record: sealed with the next packet
-- number, opened by the other end, and passed through a sliding replay filter before anything in
-- it is delivered. A session names its conversations by short handles; the engines keep the
-- sessions, the conversations of the local peers and the datagrams that wait, and turn each event
-- into actions for the host. A host hands frames to a transport and takes them from it.
--
-- Files and the code that they model:
--
-- - Errors: crates/udp2raw-ng-core/src/error.rs, every error type without its message.
-- - Config: crates/udp2raw-ng-core/src/config.rs (`EngineConfig`, `validate`, `CipherSuite` with
--   `wire_id`, `from_wire_id`, `from_str`) and secret.rs (`Psk`, `new_psk` for `Psk::new`).
-- - Entropy: crates/udp2raw-ng-core/src/id.rs, `ConversationId::generate` and
--   `SessionId::generate`.
-- - Protocol: crates/udp2raw-ng-core/src/protocol.rs, `FrameType`, `WireFrame`, `encode`,
--   `decode`, `encoded_header` and `validate_fields`. `decode_rest` and `read_frame` are parts of
--   `decode`.
-- - Crypto: crates/udp2raw-ng-core/src/crypto.rs, the handshake's tags and the session's keys.
-- - Replay: crates/udp2raw-ng-core/src/replay.rs. `accept` returns the window after the call and
--   the answer; the loops of `shift_left` are `move_loop` and `clear_loop`.
-- - Record: crates/udp2raw-ng-core/src/record.rs. `seal` returns the bytes and the sealer after
--   the call; `open_record` is `RecordOpener::open` and returns the opener after the call, on an
--   error too.
-- - Handshake: crates/udp2raw-ng-core/src/handshake.rs. The methods of a message carry its name:
--   `decode_retry` is `HelloRetry::decode`, `create_client_finish` is `ClientFinish::create`.
-- - Engine.Handles: `SessionConversationHandles` of crates/udp2raw-ng-core/src/engine.rs.
--   `release` is its `remove`, and a panic of `handle_for_or_allocate` is `none`.
-- - Engine.Monad, Engine.Rules, Engine.Ends and Engine.Events: what the engines of
--   crates/udp2raw-ng-core/src/engine.rs share. A method on `&mut self` takes the state and
--   returns it with its outcome: it `returns`, it `raises` an `EngineError`, or it `panics` where
--   the code has an `expect` that fails or divides by 0. What was written before an error stays
--   written.
-- - Engine.Client: `ClientEngine`. `Begin` has `start`, `reconnect`, `begin_handshake` and
--   `begin_reconnect`; `Local` has `handle_local` and `flush_queued_datagrams`; `Queue` has the
--   queue of datagrams; `Hello` has `handle_hello_retry` and `handle_server_hello`; `Tunnel` has
--   `handle_tunnel`; `Expire` has `expire` and `close`; `Handle` has `handle`. The other modules
--   hold the theorems.
-- - Engine.Server: `ServerEngine`. `Rate` has `allow_handshake_attempt`, `Admit` has
--   `handle_client_hello`, `Finish` has `handle_client_finish`, `Records` has `handle_record`,
--   `handle_upstream` and `close` (`close_in`), `Expire` has `expire`, and `Handle` has `handle`.
--   The other modules hold the theorems.
-- - Net: the packets of crates/udp2raw-ng-net/src/lib.rs; Net.Memory:
--   crates/udp2raw-ng-net/src/memory.rs, with both queues in one `Link` and the end that calls as
--   an argument.
-- - Prelude: helpers that the parts share. It models no code.
--
-- Numbers are natural numbers. A `u8`, `u32` or `u64` has its range in a predicate where a theorem
-- needs it, and arithmetic that the code checks (`checked_add`) is checked against 2 ^ 32 or 2 ^
-- 64. `usize` has 64 bits. A `Duration` is a number of nanoseconds. An `Instant` is a number of
-- nanoseconds without an upper bound. Loops are structural recursion on the number of rounds that
-- the code makes, so there is no fuel; the loop over the queued datagrams has as many rounds as
-- there are datagrams, and a datagram left after them would count as a panic. A draw of
-- identifiers runs through the list of answers that the random source gives. A Rust array is a
-- list whose length is a hypothesis. Hash maps are association lists that hold a key once and are
-- gone through in the order of the list. What an engine draws from the operating system it takes
-- from its last field, `entropy`.
--
-- Code that is not in the repository is a parameter: `Primitives` are the calls of HMAC, HKDF,
-- SHA-256 and the AEAD ciphers, and `PrimitiveLaws` says that a tag verifies exactly if it is the
-- tag that is made, that tags and ciphertexts have their documented lengths, and that decryption
-- undoes encryption; nothing is assumed about how hard it is to forge a tag. `Entropy` is what the
-- random source answers, call by call.
--
-- Not modelled: the Linux FakeTCP transport (crates/udp2raw-ng-net/src/linux.rs: raw sockets,
-- threads and the path of a connection), the host service and the command line
-- (crates/udp2raw-ng/src/lib.rs and main.rs: asynchronous tasks, argument parsing and logging),
-- Debug and Display texts other than the names of the suites, and the wiping of secrets from
-- memory, which has no effect that a caller can see.
pub mod Prelude
pub mod Errors
pub mod Config
pub mod Entropy
pub mod Protocol
pub mod Crypto
pub mod Replay
pub mod Record
pub mod Handshake
pub mod Engine
pub mod Net
