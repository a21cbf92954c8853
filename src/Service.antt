-- ===== src/Service.antt =====
-- crates/esesätsch/src/service.rs: the commands that install and remove the service.
pub mod Types
pub mod Systemd
pub mod Launchd
pub mod ScExe
pub mod Commands
pub mod Registered
pub mod Install
