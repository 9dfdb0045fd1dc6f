-- ===== src/Engine.antt =====
-- The engines of crates/udp2raw-ng-core/src/engine.rs: the table of conversation handles of a
-- session (`Handles`), how a method ends (`Monad`, with the rules for it in `Rules` and, where it
-- may panic, in `Ends`), the events and actions (`Events`), the client (`Client`) and the server
-- (`Server`).
pub mod Handles
pub mod Monad
pub mod Events
pub mod Rules
pub mod Ends
pub mod Client
pub mod Server
