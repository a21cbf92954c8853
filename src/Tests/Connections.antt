-- ===== src/Tests/Connections.antt =====
-- server.rs: the histories of two connections, and what their sessions are.
use esesaetsch.Base.{false, none, some, [], ◌∷◌, String, ok, ◌≡◌, refl, ◌⊎◌, All, Option}
use esesaetsch.Cert.{CertGrants}
use esesaetsch.Pty.{Command, SpawnSpec, effective_command}
use esesaetsch.Server.Types.{
  Handler, new_client, accept, exit_status, close_channel, Task, stdin, resize, clamp_u16,
}
use esesaetsch.Server.Sessions.{
  pty_request, spec_for, launch_session, is_interactive, data_received, window_change_request,
}
use esesaetsch.Server.Events.{password, certificate, open_session, shell, on_auth, on_channel}
use esesaetsch.Server.Tasks.{IsSpawnedFor}
use esesaetsch.Server.Reach.{
  Reach, begin, authenticate, on_wire, IsGranted, Reach_sessions, Reach_forced,
}
use esesaetsch.Server.Types.{reject}
use esesaetsch.Server.Types.{ServerState}
use esesaetsch.Server.Locked.{Reach_locked}
use esesaetsch.Tests.Samples.{server}
use esesaetsch.Tests.Server.{to_bytes, parse, fresh}

-- The history of a connection: a wrong password, the certificate, a channel, a shell.
abbrev after_wrong : Handler (Unit {0}) String
after_wrong = (on_auth server to_bytes parse fresh (password "alice" "wrong")).1

abbrev after_cert : Handler (Unit {0}) String
after_cert = (on_auth server to_bytes parse after_wrong (certificate "alice" "wire")).1

abbrev after_shell : Handler (Unit {0}) String
after_shell = on_channel server (on_channel server after_cert (open_session 4)) (shell 4)

wrong_idle : after_wrong.authenticated_user ≡ none
unfolding esesaetsch.Server.Auth.auth_password
wrong_idle = refl

abbrev history : Reach server to_bytes parse after_shell
history =
    on_wire
      (on_wire
        (authenticate (authenticate (begin tt) (password "alice" "wrong") refl)
          (certificate "alice" "wire") wrong_idle)
        (open_session 4))
      (shell 4)

history_tests :
    (after_shell.tasks
      ≡ record { child = "alice"; channel = 4; interactive = false; control = [] } ∷ [])
    × (after_shell.authenticated_user ≡ some "alice")
unfolding esesaetsch.Server.Sessions.shell_request esesaetsch.Server.Sessions.channel_open_session
    esesaetsch.Server.Auth.run_cert_auth esesaetsch.Server.Auth.auth_password
    esesaetsch.Server.Types.find_channel esesaetsch.Server.Types.put_channel
history_tests = (refl, refl)

Reach_sessions_example :
    (after_shell.tasks ≡ [])
    ⊎ ((u : String) × (g : Option CertGrants) × IsGranted server to_bytes parse history u g
        × All (IsSpawnedFor server u g) after_shell.tasks)
Reach_sessions_example = Reach_sessions server to_bytes parse history

after_shell_grants : after_shell.cert_grants ≡ some (record { force_command = some "backup" })
unfolding esesaetsch.Server.Sessions.shell_request esesaetsch.Server.Sessions.channel_open_session
    esesaetsch.Server.Auth.run_cert_auth
after_shell_grants = refl

Reach_forced_example :
    All
      (λ t.
        (env : Unit {0}) × (spec : SpawnSpec) × ((server.spawner env spec).0 ≡ ok t.child)
        × (effective_command spec ≡ Command.exec "backup"))
      after_shell.tasks
Reach_forced_example =
    Reach_forced server to_bytes parse history (record { force_command = some "backup" }) "backup"
      after_shell_grants refl

-- Certificates only, and no certificate authenticator: a certificate and a shell lead nowhere.
abbrev locked : ServerState (Unit {0}) String String
locked = record server {
  config = record server.config { password_enabled = false; pubkey_enabled = false };
  cert_auth = none;
}

abbrev locked_out : Handler (Unit {0}) String
locked_out =
    on_channel locked
      (on_channel locked (on_auth locked to_bytes parse fresh (certificate "alice" "wire")).1
        (open_session 4))
      (shell 4)

abbrev locked_history : Reach locked to_bytes parse locked_out
locked_history =
    on_wire (on_wire (authenticate (begin tt) (certificate "alice" "wire") refl) (open_session 4))
      (shell 4)

Reach_locked_example : locked_out.tasks ≡ []
Reach_locked_example = Reach_locked locked to_bytes parse refl refl refl locked_history
