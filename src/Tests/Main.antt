-- ===== src/Tests/Main.antt =====
-- main.rs: a start of the server with a sample configuration file.
use esesaetsch.Base.{
  ℕ, Bool, true, false, none, some, List, [], ◌∷◌, String, Result, ok, err, ◌≡◌, ◌≢◌, refl, Option,
  ◌⊎◌, inl,
}
use esesaetsch.Std.Map.{Map}
use esesaetsch.Error.{backend}
use esesaetsch.Config.{TomlConfig, Cli, defaults}
use esesaetsch.Auth.{PasswordAuthenticator, deny_all, AllowlistPubkeyAuthenticator}
use esesaetsch.HostKey.{KeyCodec, load_or_generate}
use esesaetsch.HostKey.Files.{File, in_memory}
use esesaetsch.Main.{Setup, building_allowlist, start, verbosity}
use esesaetsch.Main.Start.{IsPrepared, start-ok, start-building_allowlist}
use esesaetsch.Logging.{env_filter}
use esesaetsch.Tests.Samples.{decode_sample, no_flags, empty_toml, alice_config}

abbrev pub codec : KeyCodec String String String
codec = record {
  random = λ seed. ok seed;
  to_openssh = λ key. ok key;
  decode_secret_key = λ pem. ok pem;
}

abbrev alice_toml : TomlConfig
alice_toml = record empty_toml {
  auth = record empty_toml.auth {
    authorized_keys = ("alice", "ssh-ed25519 AAAA laptop" ∷ []) ∷ [];
  };
}

abbrev pub from_str : String → Result String TomlConfig
from_str text = ok alice_toml

abbrev pub flags : Cli
flags = record no_flags { config_path = some "config.toml"; trace = true }

-- The file's text does not matter to `from_str`.
abbrev pub files : Map File
files = ("config.toml", record { contents = 10 ∷ []; mode = 0o644 }) ∷ []

abbrev pub started : Setup String
started = record {
  config = record alice_config { logging_level = "trace"; packet_trace = true };
  pubkey_auth = record {
    keys = ("alice", (1 ∷ 2 ∷ []) ∷ []) ∷ [];
    sentinel =
        0 ∷ 0 ∷ 0 ∷ 0 ∷ 0 ∷ 0 ∷ 0 ∷ 0 ∷ 0 ∷ 0 ∷ 0 ∷ 0 ∷ 0 ∷ 0 ∷ 0 ∷ 0 ∷ 0 ∷ 0 ∷ 0 ∷ 0 ∷ 0 ∷ 0 ∷ 0
        ∷ 0 ∷ 0 ∷ 0 ∷ 0 ∷ 0 ∷ 0 ∷ 0 ∷ 0 ∷ 0 ∷ [];
    sentinel_compares = 0;
  };
  password_auth = deny_all;
  has_cert_auth = false;
  host_key = "seed";
  warned = false;
}

pub start_run :
    (start in_memory codec decode_sample from_str none flags "seed" files).0 ≡ ok started
unfolding start in_memory esesaetsch.Std.Map.get esesaetsch.Config.check_users
    esesaetsch.Config.check_keys esesaetsch.Config.parse_pubkey_blob
    esesaetsch.Base.split_whitespace esesaetsch.Std.Path.has_parent_dir esesaetsch.Auth.decode_users
    esesaetsch.Auth.decode_lines esesaetsch.Std.Map.insert esesaetsch.Std.Map.str_lt
start_run = refl

verbosity_tests : env_filter (verbosity flags) ≡ "info,esesaetsch_core=trace,esesaetsch=trace"
unfolding verbosity
verbosity_tests = refl

start-ok_example :
    IsPrepared in_memory codec decode_sample from_str none
      (started.config, started.pubkey_auth, started.password_auth)
    × (started.has_cert_auth ≡ false)
    × ((load_or_generate in_memory codec "./host_key" "seed" files).0 ≡ ok "seed")
start-ok_example =
    start-ok in_memory codec decode_sample from_str none flags "seed" files started start_run

start-building_allowlist_example :
    (start in_memory codec decode_sample from_str none flags "seed" files).0
    ≢ err (building_allowlist (backend "missing"))
start-building_allowlist_example =
    start-building_allowlist in_memory codec decode_sample from_str none flags "seed" files
      (backend "missing")
