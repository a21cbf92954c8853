-- ===== src/Lib.antt =====
-- esesätsch, a strict SSH server in Rust: a model of the crate esesätsch-core and of the program
-- esesätsch, with what holds of them.
--
-- The program's parts and how they interact. The program (crates/esesätsch/src/main.rs) reads a TOML
-- file and the command line, merges and validates them (crates/esesätsch-core/src/config.rs), builds
-- the authenticators (auth.rs, cert.rs), loads or makes the host key (hostkey.rs) and hands all to the
-- server (server.rs). russh calls the server's handler for each authentication request and channel
-- request of a connection. An accepted user's shell or exec request spawns a child (pty.rs, and
-- crates/esesätsch/src/real_pty.rs) and starts a session task (session.rs), which the handler feeds
-- through a control channel. Log lines pass through a redacting writer (logging.rs).
--
-- Files:
--   Base, Std, Crates  shared names and lists, results and texts; what the program uses of Rust's
--     library (UTF-8, IpAddr's parser, Path's components, BTreeMap); what it takes of other crates.
--   Error              crates/esesätsch-core/src/error.rs.
--   KeyLines           which key a line `type base64 [comment]` holds: a description for the proofs.
--   Config             crates/esesätsch-core/src/config.rs. Merge has the precedence of the sources,
--     Validate the rules.
--   Auth               crates/esesätsch-core/src/auth.rs: from_allowlist, and verify, which takes and
--     returns the authenticator, whose state is the sentinel counter. Verify and Build are proofs.
--   Cert               crates/esesätsch-core/src/cert.rs: verify gives a verdict, which holds the
--     result, the logged reason and the counter. Accept, Hygiene and Build are proofs.
--   Pty                crates/esesätsch-core/src/pty.rs: the traits are records of functions; Mock has
--     the scripted spawner and child.
--   Server             crates/esesätsch-core/src/server.rs. Types has the state of the server and of
--     a connection, Auth and Sessions one function for each callback (`data` is data_received here),
--     Events the callbacks as events. New is the server's construction. Reject,
--     Channels, Tasks, Routes, Delivery, Reach and Locked are proofs; Reach has the connections that a
--     client can bring about as an inductive relation, Routes which task each channel sends to.
--     Control adds the bound on the control channels and the callback that waits for a place; its
--     Bounds, Refine and Held are proofs.
--   Session            crates/esesätsch-core/src/session.rs. Loop is `run` as a partial step function
--     on events, which takes every chunk for the child at once, Pump the pumps. Stdin adds the bounded
--     channel to the stdin pump; its Bounded, Refine and Blocked are proofs, as are Orderly, Statuses,
--     Trace and Drain.
--   System             the handler of server.rs with the session task that it started: proofs about
--     what reaches the child's stdin. Stalled runs the two together, with both bounded channels.
--   Target             the operating systems that the program is built for.
--   RealPty            crates/esesätsch/src/real_pty.rs. Reader and Writer are the bridges between
--     blocking and polled streams, with both ends of their channels, Wakeup a write to the bridge with
--     the polls of its task. Delivery, Progress, Complete, Stream and Child are proofs.
--   Logging            crates/esesätsch-core/src/logging.rs. Fuel, Redact and Writer are proofs.
--   HostKey            crates/esesätsch-core/src/hostkey.rs and the command gen-key, over an interface
--     to the file system, which Files implements in memory. Keys is proofs.
--   Main               crates/esesätsch/src/main.rs: dispatch, and the start up to the socket. Serve has
--     the state of the server that is started, Run the commands and `main`, over a record of all
--     that lies outside. Start, Sessions, Served and Listening are proofs; Sessions goes
--     through every part, from the configuration file to the sessions.
--   RealAuth           crates/esesätsch/src/real_auth.rs as built on Unix, with its proofs in Verify;
--     Windows is the check by LogonUserW, Logon its proofs.
--   Service            crates/esesätsch/src/service.rs. Systemd, Launchd and ScExe are what is built on
--     Linux, macOS and Windows, Commands the two commands over these; Registered and Install are
--     proofs.
--   Crypto             crates/esesätsch-core/src/crypto.rs; Policy is proofs.
--   Tests              runs on sample inputs, and each theorem at one of them.
--
-- State and effects. What the code mutates is passed through: the handler's fields with the tasks that
-- were started, the messages each was sent and the replies; the authenticator's counter; the file
-- system. The outside (the operating system behind spawners and password checks) is a state of its
-- own, which may change at any time between two callbacks. A session's events come in any order; an
-- event that cannot occur makes the step `none`.
--
-- Numbers. Machine integers are natural numbers; the 64-bit counters wrap in the model, conversions
-- between widths (u32 to u16, u32 to i32, i32 to u32) are written out with what the code does out of
-- range.
--
-- Fuel. redact_sensitive's loop runs on fuel, one more than the characters of the line; it is proved
-- to be enough, as the loop's equation without fuel. The rounds of turns and polls that read a
-- stream to its end are counted; the theorem about them names how many are enough.
--
-- Arguments. russh, ssh-key, subtle, portable-pty, PAM, LogonUserW, plist, tracing, serde and clap
-- are not part of the sources: key decoding, the certificate and its signature check, the
-- constant-time compare (which is asked to decide equality), the pseudo terminal, the password check,
-- the reading of TOML, the network and russh's loop are arguments of the definitions that use them.
--
-- Not modelled: a backslash as a separator in the host key's path, which Windows has, timing, tokio's
-- scheduling beyond the order of events, log output other than the reason of a rejected certificate,
-- and a poisoned lock.
pub mod Base
pub mod Std
pub mod Crates
pub mod Target
pub mod Error
pub mod KeyLines
pub mod Config
pub mod Auth
pub mod Cert
pub mod Pty
pub mod Server
pub mod Session
pub mod System
pub mod Logging
pub mod RealPty
pub mod HostKey
pub mod Main
pub mod Tests
pub mod RealAuth
pub mod Service
pub mod Crypto
