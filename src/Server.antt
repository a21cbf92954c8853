-- ===== src/Server.antt =====
-- crates/esesätsch-core/src/server.rs: the handler of one connection. What russh and the traits
-- stand for is a parameter: `Env` is the state of everything outside the handler, `Cert` a parsed
-- certificate, `Child` what the spawner hands out. A russh `Session` and the control channels are
-- recorded as what the handler asks of them.
pub mod Types
pub mod Auth
pub mod Sessions
pub mod Events
pub mod Reject
pub mod Channels
pub mod Tasks
pub mod Routes
pub mod Delivery
pub mod Reach
pub mod New
pub mod Locked
pub mod Control
