-- ===== src/Handshake.antt =====
-- The handshake, crates/udp2raw-ng-core/src/handshake.rs: its messages and their payloads
-- (`Messages`), the transcripts and tags over them (`Auth`), frames of messages read back
-- (`RoundTrip`, `Hellos`), and the checks of tags (`Laws`), cookies (`Cookies`) and credentials
-- (`Credentials`).
pub mod Messages
pub mod Auth
pub mod RoundTrip
pub mod Hellos
pub mod Laws
pub mod Credentials
pub mod Cookies
pub mod Examples
