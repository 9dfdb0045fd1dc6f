-- ===== src/Net.antt =====
-- The packets of crates/udp2raw-ng-net/src/lib.rs and the transports of that crate: the transport
-- in memory (`Memory`).
use udp2raw_ng.Prelude.{ℕ, List}
pub mod Memory

-- What a host hands to a transport: the peer it is for and a frame.
pub record OutboundPacket : Type 0 where
  pub peer_id : ℕ
  pub frame : List ℕ

-- What a transport hands to a host: the peer it is from and a frame.
pub record InboundPacket : Type 0 where
  pub peer_id : ℕ
  pub frame : List ℕ
