-- ===== src/Tests/Server.antt =====
-- server.rs: a sample connection that logs in with a certificate and opens sessions.
use esesaetsch.Base.{
  ℕ, Bool, true, false, none, some, [], ◌∷◌, ◌++◌, String, Result, ok, err, ◌≡◌, ◌≢◌, refl, ◌⊎◌,
  arith,
}
use esesaetsch.Crates.{Bytes}
use esesaetsch.Error.{CertError, SpawnError}
use esesaetsch.Pty.{Command}
use esesaetsch.Server.Types.{Handler, new_client, accept, exit_status, close_channel}
use esesaetsch.Server.Sessions.{pty_request, spec_for, launch_session, is_interactive}
use esesaetsch.Server.Events.{none_method, password, publickey, certificate, on_auth}
use esesaetsch.Server.Reject.{Concluded, on_auth-Concluded, rejections_alike}
use esesaetsch.Server.Channels.{launch_session_outcome, spec_for-pty_request}
use esesaetsch.Tests.Samples.{server}

abbrev pub to_bytes : String → Result String Bytes
to_bytes cert = ok []

abbrev pub parse : Bytes → Result CertError String
parse bytes = ok "backup"

abbrev pub fresh : Handler (Unit {0}) String
fresh = new_client tt

auth_tests :
    ((on_auth server to_bytes parse fresh (password "alice" "sesame")).0 ≡ accept)
    × ((on_auth server to_bytes parse fresh (password "alice" "wrong")).0
        ≡ (on_auth server to_bytes parse fresh (none_method "bob")).0)
    × ((on_auth server to_bytes parse fresh (certificate "alice" "wire")).1.cert_grants
        ≡ some (record { force_command = some "backup" }))
unfolding esesaetsch.Server.Auth.auth_password esesaetsch.Server.Auth.auth_none
    esesaetsch.Server.Auth.run_cert_auth
auth_tests = (refl, refl, refl)

on_auth-Concluded_example :
    Concluded server to_bytes parse fresh
      (certificate "alice" "wire")
      (on_auth server to_bytes parse fresh (certificate "alice" "wire"))
on_auth-Concluded_example =
    on_auth-Concluded server to_bytes parse fresh (certificate "alice" "wire")

wrong_password : (on_auth server to_bytes parse fresh (password "alice" "wrong")).0 ≢ accept
unfolding esesaetsch.Server.Auth.auth_password
wrong_password e = ground (arith, e)

wrong_key : (on_auth server to_bytes parse fresh (publickey "bob" (7 ∷ []))).0 ≢ accept
unfolding esesaetsch.Server.Auth.auth_publickey
wrong_key e = ground (arith, e)

rejections_alike_example :
    (on_auth server to_bytes parse fresh (password "alice" "wrong")).0
    ≡ (on_auth server to_bytes parse fresh (publickey "bob" (7 ∷ []))).0
rejections_alike_example =
    rejections_alike server to_bytes parse fresh fresh (password "alice" "wrong")
      (publickey "bob" (7 ∷ [])) wrong_password wrong_key

-- alice, logged in with her certificate, with a channel
abbrev logged_in : Handler (Unit {0}) String
logged_in = record fresh {
  authenticated_user = some "alice";
  cert_grants = some (record { force_command = some "backup" });
  channels = (4, record { pty_request = none; control_tx = none }) ∷ [];
}

abbrev Outcome : Handler (Unit {0}) String → ℕ → Command → Bool → Type 0
Outcome h id command interactive =
    ((h.authenticated_user ≡ none)
      × (launch_session server h id command interactive
          ≡ record h { replies = h.replies ++ exit_status id 1 ∷ close_channel id ∷ [] }))
    ⊎ ((user : String) × (e : SpawnError) × (h.authenticated_user ≡ some user)
        × ((server.spawner h.env (spec_for h user id command interactive)).0 ≡ err e)
        × ((launch_session server h id command interactive).tasks ≡ h.tasks)
        × ((launch_session server h id command interactive).replies
            ≡ h.replies ++ exit_status id 1 ∷ close_channel id ∷ []))
    ⊎ ((user : String) × (child : String) × (h.authenticated_user ≡ some user)
        × ((server.spawner h.env (spec_for h user id command interactive)).0 ≡ ok child)
        × ((launch_session server h id command interactive).tasks
            ≡ h.tasks
              ++ record { child = child; channel = id; interactive = interactive; control = [] }
                ∷ [])
        × ((launch_session server h id command interactive).replies ≡ h.replies))

launch_session_outcome_example : Outcome logged_in 4 Command.shell false
launch_session_outcome_example = launch_session_outcome server logged_in 4 Command.shell false

launch_tests :
    ((launch_session server
        (record logged_in { authenticated_user = some "mallory" })
        4
        Command.shell
        false).replies
      ≡ exit_status 4 1 ∷ close_channel 4 ∷ [])
    × ((launch_session server fresh 4 Command.shell false).replies
        ≡ exit_status 4 1 ∷ close_channel 4 ∷ [])
unfolding launch_session
launch_tests = (refl, refl)

spec_for-pty_request_example :
    (spec_for (pty_request logged_in 4 "xterm" 100 70000 0 0) "alice" 4 Command.shell true
      ≡ record {
        user = "alice";
        term = "xterm";
        size = record { cols = 100; rows = 24; pixel_w = 0; pixel_h = 0 };
        env = [];
        command = Command.shell;
        interactive = true;
        grants = record { force_command = some "backup" };
      })
    × (is_interactive (pty_request logged_in 4 "xterm" 100 70000 0 0) 4 ≡ true)
spec_for-pty_request_example =
    spec_for-pty_request logged_in 4 "xterm" "alice" 100 70000 0 0 Command.shell true
