-- ===== src/Main/Run.antt =====
-- main.rs: `run` and `main`. The runtime, clap's texts, the socket and the place of the program's file
-- are arguments. A line that the program prints is told by what it says.
use esesaetsch.Base.{
  ℕ, Option, none, some, String, List, [], ◌∷◌, ◌++◌, Result, ok, err, map_err, if◌then◌else◌,
}
use esesaetsch.Crates.{Decode, ConstantTimeEq}
use esesaetsch.Crypto.{Russh}
use esesaetsch.Config.{SocketAddr, TomlConfig, Cli, Config}
use esesaetsch.Error.{HostKeyError}
use esesaetsch.Auth.{AllowlistPubkeyAuthenticator, PasswordAuthenticator}
use esesaetsch.RealPty.{PtySystem, RealPtyChild}
use esesaetsch.HostKey.{FileSystem, KeyCodec, cmd_gen_key}
use esesaetsch.Logging.{Tracing, install}
use esesaetsch.Target.{TargetOs}
use esesaetsch.Service.Types.{System, Plist, ServiceError}
use esesaetsch.Service.Commands
use esesaetsch.Server.Types.{ServerState}
use esesaetsch.Server.New.{RusshConfig, new}
use esesaetsch.Main.{
  Args, Action, dispatch, service_install, service_uninstall, print_completions, print_man,
  verbosity, StartError, Setup, nobody, prepare, start,
}
use esesaetsch.Main.Serve.{Backends, server_state}

pub data Line : Type 0 where
  nobody_can_authenticate : Line
  wrote_host_key : (path : String) → Line
  listening : SocketAddr → Line
  service : List String → Line
  completions man_page : Line

-- An error with the context that the code adds.
pub data Failure : Type 0 where
  starting : StartError → Failure
  binding : SocketAddr → String → Failure
  running_server rendering_man locating_binary : String → Failure
  host_key_exists : (path : String) → Failure
  generating_host_key : (path : String) → HostKeyError → Failure
  service_failed : ServiceError → Failure

-- How a command ends, what it printed, and what is outside after it.
pub record Outcome (Fs : Type 0) : Type 0 where
  pub result : Result Failure (Unit {0})
  pub printed : List Line
  pub after : Fs

-- What the program uses of the network: a listener, and russh's loop on it.
pub record Network (Fs Listener : Type 0) (Os Child Cert Name PrivateKey : Type 0) : Type 1 where
  pub bind : SocketAddr → Fs → Result String Listener × Fs
  pub run_on_socket :
      {Password : Type 0}
      → ServerState (Backends Password Os) Cert Child × RusshConfig Name PrivateKey
      → Listener
      → Fs
      → Result String (Unit {0}) × Fs

module _ {Fs Listener Os Master Proc Reader Writer Cert Name PrivateKey : Type 0}
    (network : Network Fs Listener Os (RealPtyChild Master Proc Reader Writer) Cert Name PrivateKey)
    (ct : ConstantTimeEq) (names : Russh Name) (os : TargetOs)
    (pty : PtySystem Os Master Proc Reader Writer) where
  -- `cmd_serve` from the server's construction on.
  abbrev pub serve_on : List Line → Setup PrivateKey → Fs → Outcome Fs
  serve_on printed setup fs =
      let server = new names (server_state ct os pty setup) setup.host_key in
      let (bound, fs1) = network.bind setup.config.bind fs in
      elim bound [
        | err e ↦ record {
          result = err (binding setup.config.bind e);
          printed = printed;
          after = fs1;
        }
        | ok listener ↦
            let (ended, fs2) = network.run_on_socket server listener fs1 in
            record {
              result = map_err running_server ended;
              printed = printed ++ listening setup.config.bind ∷ [];
              after = fs2;
            }
      ]

-- All that the program uses of what lies outside of it, over the state of the outside.
pub record Platform
    (Fs Generated PrivateKey Random Listener Os Master Proc Reader Writer Cert Name Value Dictionary
      Filter Subscriber : Type 0)
    : Type 1 where
  pub files : FileSystem Fs
  pub keys : KeyCodec Generated PrivateKey Random
  pub decode : Decode
  pub from_str : String → Result String TomlConfig
  pub native : Option PasswordAuthenticator
  pub network : Network Fs Listener Os (RealPtyChild Master Proc Reader Writer) Cert Name PrivateKey
  pub ct : ConstantTimeEq
  pub names : Russh Name
  pub os : TargetOs
  pub pty : PtySystem Os Master Proc Reader Writer
  pub system : System Fs
  pub plist : Plist Fs Value Dictionary
  pub tracing : Tracing Filter Subscriber Fs
  pub current_exe : Fs → Result String String
  pub render_man : Result String (Unit {0})

-- The exit code, and what the error line has after the program's name.
pub data Exit : Type 0 where
  success : Exit
  failed : Failure → Exit
  no_runtime : String → Exit

abbrev pub exit_code : Exit → ℕ
exit_code success = 0
exit_code (failed e) = 1
exit_code (no_runtime e) = 1

abbrev pub exit_of : Result Failure (Unit {0}) → Exit
exit_of (ok _) = success
exit_of (err e) = failed e

abbrev pub outcome_of : {Fs : Type 0} → Result ServiceError (List String) × Fs → Outcome Fs
outcome_of (ok lines, fs) = record { result = ok tt; printed = service lines ∷ []; after = fs }
outcome_of (err e, fs) = record { result = err (service_failed e); printed = []; after = fs }

module _
    {Fs Generated PrivateKey Random Listener Os Master Proc Reader Writer Cert Name Value Dictionary
      Filter Subscriber : Type 0}
    (platform : Platform Fs Generated PrivateKey Random Listener Os Master Proc Reader Writer Cert
      Name Value Dictionary Filter Subscriber) where
  open platform use {files, keys, decode, from_str, native, network, ct, names, os, pty}

  -- The warning comes before the password check is looked for, and before the host key.
  abbrev pub warning :
      Result StartError (Config × AllowlistPubkeyAuthenticator × PasswordAuthenticator) → List Line
  warning (err e) = []
  warning (ok parts) =
      if nobody files keys decode from_str native parts.0 then nobody_can_authenticate ∷ [] else []

  unfoldable pub cmd_serve : Cli → Random → Fs → Outcome Fs
  unfolding prepare start new server_state
  cmd_serve flags rng fs =
      let warned = warning (prepare files keys decode from_str native flags fs) in
      let (setup, fs1) = start files keys decode from_str native flags rng fs in
      elim setup [
        | err e ↦ record { result = err (starting e); printed = warned; after = fs1 }
        | ok s ↦ serve_on network ct names os pty warned s fs1
      ]

  abbrev pub made_key : String → Result (Option HostKeyError) (Unit {0}) × Fs → Outcome Fs
  made_key path (ok _, fs) = record {
    result = ok tt;
    printed = wrote_host_key path ∷ [];
    after = fs;
  }
  made_key path (err none, fs) = record {
    result = err (host_key_exists path);
    printed = [];
    after = fs;
  }
  made_key path (err (some e), fs) = record {
    result = err (generating_host_key path e);
    printed = [];
    after = fs;
  }

  abbrev pub install_service : Option String → Fs → Outcome Fs
  install_service config fs = elim (platform.current_exe fs) [
    | err e ↦ record { result = err (locating_binary e); printed = []; after = fs }
    | ok exe ↦
        outcome_of (Commands.install platform.os platform.system platform.plist exe config fs)
  ]

  abbrev pub man : Result String (Unit {0}) → Fs → Outcome Fs
  man (ok _) fs = record { result = ok tt; printed = man_page ∷ []; after = fs }
  man (err e) fs = record { result = err (rendering_man e); printed = []; after = fs }

  abbrev pub act : Action → Cli → Random → Fs → Outcome Fs
  act (Action.cmd_gen_key path) flags rng fs = made_key path (cmd_gen_key files keys path rng fs)
  act (service_install config) flags rng fs = install_service config fs
  act service_uninstall flags rng fs =
      outcome_of (Commands.uninstall platform.os platform.system platform.plist fs)
  act print_completions flags rng fs = record {
    result = ok tt;
    printed = completions ∷ [];
    after = fs;
  }
  act print_man flags rng fs = man platform.render_man fs
  act Action.cmd_serve flags rng fs = cmd_serve flags rng fs

  -- A second subscriber is an error that the code ignores.
  unfoldable pub run : Args → Random → Fs → Outcome Fs
  unfolding cmd_serve cmd_gen_key verbosity install Commands.install Commands.uninstall
  run args rng fs =
      let (installed, fs1) = install platform.tracing (verbosity args.flags) fs in
      act (dispatch args) args.flags rng fs1

  -- `main`, from what the runtime's builder gives.
  unfoldable pub main : Result String (Unit {0}) → Args → Random → Fs → Exit × List Line × Fs
  unfolding run
  main (err e) args rng fs = (no_runtime e, [], fs)
  main (ok _) args rng fs =
      let outcome = run args rng fs in (exit_of outcome.result, outcome.printed, outcome.after)
