-- ===== src/Tests.antt =====
-- Concrete inputs: runs of the definitions, and each theorem at an input that meets its conditions.
mod Samples
mod Crypto
mod Config
mod Auth
mod Cert
mod Server
mod Connections
mod ControlChannel
mod Session
mod StdinChannel
mod Stalled
mod System
mod Logging
mod RealPty
mod Wakeup
mod HostKey
mod Main
mod Served
mod Service
mod RealAuth
