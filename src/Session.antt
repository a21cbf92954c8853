-- ===== src/Session.antt =====
-- crates/esesätsch-core/src/session.rs: the task that joins a child to its channel. The async
-- runtime is not modelled; a run is the sequence of what becomes ready, one event at a time, and
-- `step` says what the task does then. What is sent to the client is kept in order.
pub mod Pump
pub mod Loop
pub mod Orderly
pub mod Trace
pub mod Statuses
pub mod Stdin
pub mod Drain
