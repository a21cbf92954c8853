-- ===== src/Main/Served.antt =====
-- main.rs: what the command line tells, what the server is made of, and how the program ends.
use esesaetsch.Base.{
  Option-cases, ◌↔◌, none, some, String, [], ◌∷◌, Result, ok, err, map_err, ◌≡◌, refl, ◌⊎◌, inl,
  inr, arith,
}
use esesaetsch.Crates.{Bytes, ConstantTimeEq}
use esesaetsch.Config.{Cli}
use esesaetsch.Auth.{verify}
use esesaetsch.Crypto.{Russh}
use esesaetsch.Pty.{SpawnSpec}
use esesaetsch.RealPty.{PtySystem, RealPtyChild, spawn}
use esesaetsch.Server.Types.{ServerState, advertised_methods}
use esesaetsch.Server.New.{RusshConfig, new}
use esesaetsch.Target.{TargetOs}
use esesaetsch.Main.{Args, Action, Subcommand, serve, dispatch, Setup}
use esesaetsch.Main.Serve.{Backends, server_state, verify-sentinel_compares}
use esesaetsch.Main.Run.{Exit, success, failed, exit_of, running_server}

-- The command line says to serve: by its subcommand, or by having none.
abbrev pub IsToldToServe : Args → Type 0
IsToldToServe args = (args.command ≡ none) ⊎ (args.command ≡ some serve)

-- The program ends as the server's loop does.
abbrev pub IsEndOf : Result String (Unit {0}) → Exit → Type 0
IsEndOf (ok _) exit = exit ≡ success
IsEndOf (err e) exit = exit ≡ failed (running_server e)

pub IsEndOf-exit_of :
    (ended : Result String (Unit {0})) → IsEndOf ended (exit_of (map_err running_server ended))
IsEndOf-exit_of (ok _) = refl
IsEndOf-exit_of (err e) = refl

dispatch-command :
    (command : Subcommand) (flags : Cli)
    → (dispatch (record { command = some command; flags = flags }) ≡ Action.cmd_serve)
      ↔ IsToldToServe (record { command = some command; flags = flags })
dispatch-command serve flags = (λ h. inr refl, λ h. refl)
dispatch-command command flags = (λ h. absurd (ground arith), λ h. absurd (ground arith))

pub dispatch-IsToldToServe : (args : Args) → (dispatch args ≡ Action.cmd_serve) ↔ IsToldToServe args
dispatch-IsToldToServe args = elim (Option-cases args.command) [
  | inl none_given ↦ (λ h. inl none_given, λ h. rw none_given refl)
  | inr (command, given) ↦ rw given (dispatch-command command args.flags)
]

module _ {Os Master Proc Reader Writer Cert Name PrivateKey : Type 0} (ct : ConstantTimeEq)
    (os : TargetOs) (pty : PtySystem Os Master Proc Reader Writer) where
  -- The server takes its configuration from the start, answers keys as the start's allowlist does
  -- and passwords as the start's password check does, has no certificate check, spawns by the real
  -- spawner, and gives russh the start's host key as the only one.
  pub record IsServerOf (setup : Setup PrivateKey)
      (server : ServerState
          (Backends setup.password_auth.State Os)
          Cert
          (RealPtyChild Master Proc Reader Writer)
        × RusshConfig Name PrivateKey)
      : Type 0 where
    pub config : server.0.config ≡ setup.config
    pub pubkey_auth :
        (env : Backends setup.password_auth.State Os) (user : String) (key : Bytes)
        → (server.0.pubkey_auth env user key).0 ≡ (verify ct setup.pubkey_auth user key).0
    pub password_auth :
        (env : Backends setup.password_auth.State Os) (user secret : String)
        → (server.0.password_auth env user secret).0
          ≡ (setup.password_auth.verify env.password user secret).0
    pub cert_auth : server.0.cert_auth ≡ none
    pub spawner :
        (env : Backends setup.password_auth.State Os) (spec : SpawnSpec)
        → (server.0.spawner env spec).0 ≡ (spawn os pty env.os spec).0
    pub keys : server.1.keys ≡ setup.host_key ∷ []
    pub methods : server.1.methods ≡ advertised_methods setup.config
    pub max_auth_attempts : server.1.max_auth_attempts ≡ setup.config.max_auth_attempts

  pub new-IsServerOf :
      (names : Russh Name) (setup : Setup PrivateKey)
      → IsServerOf setup (new names (server_state ct os pty setup) setup.host_key)
  unfolding new server_state
  new-IsServerOf names setup = record {
    config = refl;
    pubkey_auth = λ env user key.
        verify-sentinel_compares ct setup.pubkey_auth env.sentinel_compares user key;
    password_auth = λ env user secret. refl;
    cert_auth = refl;
    spawner = λ env spec. refl;
    keys = refl;
    methods = refl;
    max_auth_attempts = refl;
  }
