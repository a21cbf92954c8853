-- ===== src/Main.antt =====
-- crates/esesätsch/src/main.rs: the commands' dispatch, and the start of the server up to the socket.
-- An error is held with the context that the code adds.
pub mod Start
pub mod Serve
pub mod Run
pub mod Served
pub mod Listening
pub mod Sessions
use esesaetsch.Base.{
  Bool, true, false, not, ◌&&◌, Option, none, some, List, [], ◌∷◌, String, Result, ok, err, map_err,
  ◌>>=◌, ◌>>◌, is_empty, if◌then◌else◌,
}
use esesaetsch.Crates.{Bytes, Decode}
use esesaetsch.Error.{AuthError, ConfigError, HostKeyError}
use esesaetsch.Config.{TomlConfig, Cli, Config, from_sources, validate}
use esesaetsch.Auth.{AllowlistPubkeyAuthenticator, from_allowlist, PasswordAuthenticator, deny_all}
use esesaetsch.HostKey.{FileSystem, KeyCodec, load_or_generate, read_text}
use esesaetsch.Logging.{Verbosity, default, debug, trace}

-- `Command` of the command line; the shell of `Completions` is left out.
pub data Subcommand : Type 0 where
  serve : Subcommand
  gen_key : (host_key : String) → Subcommand
  install_service uninstall_service completions man : Subcommand

-- `Args`: the subcommand, if there is one, and the flags, which `CoreCli` repeats.
pub record Args : Type 0 where
  pub command : Option Subcommand
  pub flags : Cli

unfoldable pub verbosity : Cli → Verbosity
verbosity flags = if flags.trace then trace else if flags.debug then debug else default

-- What `run` does after the arguments are read.
pub data Action : Type 0 where
  cmd_gen_key : (host_key : String) → Action
  service_install : (config : Option String) → Action
  service_uninstall print_completions print_man cmd_serve : Action

abbrev pub dispatch : Args → Action
dispatch args = elim args.command [
  | none ↦ cmd_serve
  | some command ↦ elim command [
    | serve ↦ cmd_serve
    | gen_key path ↦ cmd_gen_key path
    | install_service ↦ service_install args.flags.config_path
    | uninstall_service ↦ service_uninstall
    | completions ↦ print_completions
    | man ↦ print_man
  ]
]

pub data StartError : Type 0 where
  reading_config parsing_config : String → StartError
  merging_config validating_config : ConfigError → StartError
  building_allowlist : AuthError → StartError
  no_password_backend : StartError
  host_key : HostKeyError → StartError

-- What the server is started with. A `none` certificate authenticator is what the code passes.
pub record Setup (PrivateKey : Type 0) : Type 1 where
  pub config : Config
  pub pubkey_auth : AllowlistPubkeyAuthenticator
  pub password_auth : PasswordAuthenticator
  pub has_cert_auth : Bool
  pub host_key : PrivateKey
  -- whether the warning was printed that no client can authenticate
  pub warned : Bool

module _ {Fs Generated PrivateKey Random : Type 0} (files : FileSystem Fs)
    (keys : KeyCodec Generated PrivateKey Random) (decode : Decode)
    (from_str : String → Result String TomlConfig) (native : Option PasswordAuthenticator) where
  abbrev pub read_config : Option String → Fs → Result StartError (Option TomlConfig)
  read_config none fs = ok none
  read_config (some path) fs = do
    raw ← map_err reading_config (read_text (files.read path fs))
    toml ← map_err parsing_config (from_str raw)
    ok (some toml)

  unfoldable pub load_and_merge_config : Cli → Fs → Result StartError Config
  unfolding from_sources validate read_text
  load_and_merge_config flags fs = do
    toml ← read_config flags.config_path fs
    cfg ← map_err merging_config (from_sources flags toml)
    map_err validating_config (validate decode cfg)
    ok cfg

  abbrev pub password_backend : Bool → Result StartError (Option PasswordAuthenticator)
  password_backend false = ok none
  password_backend true = elim native [ none ↦ err no_password_backend | some p ↦ ok (some p) ]

  abbrev pub passwords : Option PasswordAuthenticator → PasswordAuthenticator
  passwords none = deny_all
  passwords (some p) = p

  -- the condition of the warning
  abbrev pub nobody : Config → Bool
  nobody cfg =
      cfg.pubkey_enabled
      && not cfg.password_enabled
      && not cfg.cert_enabled
      && is_empty cfg.authorized_keys

  -- what `cmd_serve` does before it touches the host key
  unfoldable pub prepare :
      Cli → Fs → Result StartError (Config × AllowlistPubkeyAuthenticator × PasswordAuthenticator)
  unfolding load_and_merge_config from_allowlist
  prepare flags fs = do
    cfg ← load_and_merge_config flags fs
    pubkey_auth ← map_err building_allowlist (from_allowlist decode cfg.authorized_keys)
    password_auth ← password_backend cfg.password_enabled
    ok (cfg, pubkey_auth, passwords password_auth)

  abbrev pub setup_with :
      Config × AllowlistPubkeyAuthenticator × PasswordAuthenticator → PrivateKey → Setup PrivateKey
  setup_with (cfg, pubkey_auth, password_auth) key = record {
    config = cfg;
    pubkey_auth = pubkey_auth;
    password_auth = password_auth;
    has_cert_auth = false;
    host_key = key;
    warned = nobody cfg;
  }

  -- `cmd_serve`, up to the socket.
  unfoldable pub start : Cli → Random → Fs → Result StartError (Setup PrivateKey) × Fs
  unfolding prepare load_or_generate
  start flags rng fs = elim (prepare flags fs) [
    | err e ↦ (err e, fs)
    | ok parts ↦
        let (key, fs') = load_or_generate files keys parts.0.host_key rng fs in
        (map_err host_key key >>= λ k. ok (setup_with parts k), fs')
  ]
