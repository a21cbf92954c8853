-- ===== src/Config/Merge.antt =====
-- The precedence of the sources in `Config::from_sources`: CLI over TOML over the defaults.
use esesaetsch.Base.{
  Bool, true, false, ◌||◌, Option, none, some, List, [], ◌∷◌, String, ◌≡◌, refl, if◌then◌else◌,
  is_empty, Result, ok, err, ◌>>=◌, arith,
}
use esesaetsch.Std.Ip.{IpAddr, v4, ip_from_str}
use esesaetsch.Std.Map.{Map}
use esesaetsch.Error.{ConfigError, invalid_bind_address}
use esesaetsch.Config.{
  CaConfig, LoggingConfig, TomlConfig, Cli, Config, defaults, or_keep, apply_toml, apply_cli,
  from_sources,
}

abbrev no_flags : Cli
no_flags = record {
  config_path = none;
  port = none;
  bind = none;
  host_key = none;
  debug = false;
  trace = false;
}

-- A value of the TOML file, which may be absent.
abbrev pub of_toml {ℓ} : {A : Type ℓ} → (TomlConfig → Option A) → Option TomlConfig → Option A
of_toml field none = none
of_toml field (some t) = field t

-- The value of a setting that three sources may give.
abbrev pick {ℓ} : {A : Type ℓ} → Option A → Option A → A → A
pick cli toml default = or_keep cli (or_keep toml default)

abbrev keys_of : Option TomlConfig → Map (List String)
keys_of none = []
keys_of (some t) = t.auth.authorized_keys

abbrev ca_of : Option CaConfig → CaConfig
ca_of none = record { trusted = []; revoked_serials = [] }
ca_of (some ca) = ca

abbrev level_of : Option LoggingConfig → Option String
level_of none = none
level_of (some l) = l.level

abbrev packet_trace_of : Option LoggingConfig → Option Bool
packet_trace_of none = none
packet_trace_of (some l) = l.packet_trace

-- An address that a source may give: none, one that parses, or an error that names the text.
abbrev pub address : Option String → Result ConfigError (Option IpAddr)
address none = ok none
address (some b) = elim (ip_from_str b) [
  | none ↦ err (invalid_bind_address b)
  | some ip ↦ ok (some ip)
]

-- The merged configuration, setting by setting, from the addresses of the two sources.
abbrev pub merged : Cli → Option TomlConfig → Option IpAddr → Option IpAddr → Config
merged cli toml cli_ip toml_ip = record {
  bind = record {
    ip = pick cli_ip toml_ip (v4 0 0 0 0);
    port = pick cli.port (of_toml (λ t. t.server.port) toml) 2222;
  };
  host_key = pick cli.host_key (of_toml (λ t. t.server.host_key) toml) "./host_key";
  password_enabled = or_keep (of_toml (λ t. t.auth.password_enabled) toml) false;
  pubkey_enabled = or_keep (of_toml (λ t. t.auth.pubkey_enabled) toml) true;
  cert_enabled = or_keep (of_toml (λ t. t.auth.cert_enabled) toml) false;
  max_auth_attempts = or_keep (of_toml (λ t. t.auth.max_auth_attempts) toml) 3;
  authorized_keys = keys_of toml;
  ca_trusted = (ca_of (of_toml (λ t. t.auth.ca) toml)).trusted;
  ca_revoked_serials = (ca_of (of_toml (λ t. t.auth.ca) toml)).revoked_serials;
  logging_level =
      if cli.trace
      then "trace"
      else if cli.debug
      then "debug"
      else or_keep (level_of (of_toml (λ t. t.logging) toml)) "info";
  packet_trace = cli.trace || or_keep (packet_trace_of (of_toml (λ t. t.logging) toml)) false;
}

is_empty-keys : (keys : Map (List String)) → (if is_empty keys then [] else keys) ≡ keys
is_empty-keys [] = refl
is_empty-keys (_ ∷ _) = refl

apply_toml_lem :
    (t : TomlConfig)
    → apply_toml defaults t
      ≡ (address t.server.bind >>= λ toml_ip. ok (merged no_flags (some t) none toml_ip))
unfolding apply_toml
apply_toml_lem t = ground (arith, is_empty-keys t.auth.authorized_keys)

apply_cli_lem :
    (cli : Cli) (toml : Option TomlConfig) (toml_ip : Option IpAddr)
    → apply_cli (merged no_flags toml none toml_ip) cli
      ≡ (address cli.bind >>= λ cli_ip. ok (merged cli toml cli_ip toml_ip))
unfolding apply_cli
apply_cli_lem cli toml toml_ip = ground arith

-- The merge takes each setting from the command line if it is given there, else from the file,
-- else from the defaults; `trace` and `debug` set the level before the file does. It fails exactly
-- when an address text does not parse, the one of the file first, and the error names that text.
pub from_sources_lem :
    (cli : Cli) (toml : Option TomlConfig)
    → from_sources cli toml ≡ (do
      toml_ip ← address (of_toml (λ t. t.server.bind) toml)
      cli_ip ← address cli.bind
      ok (merged cli toml cli_ip toml_ip))
unfolding from_sources
from_sources_lem cli none = apply_cli_lem cli none none
from_sources_lem cli (some t) = rw apply_toml_lem (bind_cases (address t.server.bind))
  where
    bind_cases :
        (r : Result ConfigError (Option IpAddr))
        → (r >>= (λ toml_ip. ok (merged no_flags (some t) none toml_ip)) >>= λ out.
            apply_cli out cli)
          ≡ (r >>= λ toml_ip.
              address cli.bind >>= λ cli_ip. ok (merged cli (some t) cli_ip toml_ip))
    bind_cases (ok toml_ip) = apply_cli_lem cli (some t) toml_ip
    bind_cases (err e) = refl
