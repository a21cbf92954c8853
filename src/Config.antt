-- ===== src/Config.antt =====
-- crates/esesätsch-core/src/config.rs: the three layers of the configuration, merge and validation.
-- `serde`'s reading of a TOML text is not part of the model; the decoding of a key is an argument.
-- The parts of the host key's path are those on Unix, where only a slash separates them.
pub mod Merge
pub mod Validate
use esesaetsch.Base.{
  ℕ, Bool, true, false, not, ◌&&◌, Option, none, some, List, [], ◌∷◌, String, if◌then◌else◌,
  is_empty, nth, split_whitespace, Result, ok, err, map_err, ok_or, ◌>>=◌, ◌>>◌,
}
use esesaetsch.Std.Ip.{IpAddr, v4, ip_from_str}
use esesaetsch.Std.Map.{Map}
use esesaetsch.Std.Path.{has_parent_dir}
use esesaetsch.Crates.{Decode}
use esesaetsch.Error.{
  ConfigError, invalid_bind_address, no_auth_method_enabled, invalid_authorized_key,
  invalid_host_key_path, cert_enabled_without_trusted_ca,
}

pub record SocketAddr : Type 0 where
  pub ip : IpAddr
  pub port : ℕ

pub record ServerConfig : Type 0 where
  pub bind : Option String
  pub port : Option ℕ
  pub host_key : Option String

pub record CaConfig : Type 0 where
  pub trusted : List String
  pub revoked_serials : List ℕ

pub record AuthConfig : Type 0 where
  pub password_enabled : Option Bool
  pub pubkey_enabled : Option Bool
  pub cert_enabled : Option Bool
  pub max_auth_attempts : Option ℕ
  pub authorized_keys : Map (List String)
  pub ca : Option CaConfig

pub record LoggingConfig : Type 0 where
  pub level : Option String
  pub packet_trace : Option Bool

pub record TomlConfig : Type 0 where
  pub server : ServerConfig
  pub auth : AuthConfig
  pub logging : Option LoggingConfig

pub record Cli : Type 0 where
  pub config_path : Option String
  pub port : Option ℕ
  pub bind : Option String
  pub host_key : Option String
  pub debug : Bool
  pub trace : Bool

pub record Config : Type 0 where
  pub bind : SocketAddr
  pub host_key : String
  pub password_enabled : Bool
  pub pubkey_enabled : Bool
  pub cert_enabled : Bool
  pub max_auth_attempts : ℕ
  pub authorized_keys : Map (List String)
  pub ca_trusted : List String
  pub ca_revoked_serials : List ℕ
  pub logging_level : String
  pub packet_trace : Bool

abbrev pub defaults : Config
defaults = record {
  bind = record { ip = v4 0 0 0 0; port = 2222 };
  host_key = "./host_key";
  password_enabled = false;
  pubkey_enabled = true;
  cert_enabled = false;
  max_auth_attempts = 3;
  authorized_keys = [];
  ca_trusted = [];
  ca_revoked_serials = [];
  logging_level = "info";
  packet_trace = false;
}

-- `if let Some(v) = o { field = v; }`
abbrev pub or_keep {ℓ} : {A : Type ℓ} → Option A → A → A
or_keep none old = old
or_keep (some v) old = v

-- `out.bind` after an optional port, and then an optional address
unfoldable pub apply_bind : Option ℕ → Option String → SocketAddr → Result ConfigError SocketAddr
apply_bind port none addr = ok (record addr { port = or_keep port addr.port })
apply_bind port (some b) addr = do
  ip ← ok_or (invalid_bind_address b) (ip_from_str b)
  ok (record { ip = ip; port = or_keep port addr.port })

abbrev apply_ca : Option CaConfig → Config → Config
apply_ca none c = c
apply_ca (some ca) c = record c { ca_trusted = ca.trusted; ca_revoked_serials = ca.revoked_serials }

abbrev apply_logging : Option LoggingConfig → Config → Config
apply_logging none c = c
apply_logging (some l) c = record c {
  logging_level = or_keep l.level c.logging_level;
  packet_trace = or_keep l.packet_trace c.packet_trace;
}

unfoldable pub apply_toml : Config → TomlConfig → Result ConfigError Config
unfolding apply_bind
apply_toml out t = do
  bind ← apply_bind t.server.port t.server.bind out.bind
  ok (
      apply_logging t.logging (
        apply_ca t.auth.ca (record out {
          bind = bind;
          host_key = or_keep t.server.host_key out.host_key;
          password_enabled = or_keep t.auth.password_enabled out.password_enabled;
          pubkey_enabled = or_keep t.auth.pubkey_enabled out.pubkey_enabled;
          cert_enabled = or_keep t.auth.cert_enabled out.cert_enabled;
          max_auth_attempts = or_keep t.auth.max_auth_attempts out.max_auth_attempts;
          authorized_keys =
              if is_empty t.auth.authorized_keys
              then out.authorized_keys
              else t.auth.authorized_keys;
        })))

abbrev apply_flags : Cli → Config → Config
apply_flags cli c =
    if cli.trace
    then record c { logging_level = "trace"; packet_trace = true }
    else if cli.debug
    then record c { logging_level = "debug" }
    else c

unfoldable pub apply_cli : Config → Cli → Result ConfigError Config
unfolding apply_bind
apply_cli out cli = do
  bind ← apply_bind cli.port cli.bind out.bind
  ok (apply_flags cli (record out { bind = bind; host_key = or_keep cli.host_key out.host_key }))

abbrev apply_file : Option TomlConfig → Config → Result ConfigError Config
apply_file none out = ok out
apply_file (some t) out = apply_toml out t

unfoldable pub from_sources : Cli → Option TomlConfig → Result ConfigError Config
unfolding apply_toml apply_cli
from_sources cli toml = do out ← apply_file toml defaults; apply_cli out cli

-- A public-key line `type base64 [comment]`: the blob in its second word.
abbrev missing_blob : String
missing_blob = "missing base64 blob (expected `type base64 [comment]`)"

module _ (decode : Decode) where
  unfoldable pub parse_pubkey_blob : String → Result String (Unit {0})
  parse_pubkey_blob line = do
    blob ← ok_or missing_blob (nth 1 (split_whitespace line))
    decode blob
    ok tt

  -- the loop over the lines of one user
  unfoldable pub check_keys : String → List String → Result ConfigError (Unit {0})
  check_keys user [] = ok tt
  check_keys user (k ∷ ks) = do
    map_err (invalid_authorized_key user) (parse_pubkey_blob k)
    check_keys user ks

  -- the loop over the users
  unfoldable pub check_users : Map (List String) → Result ConfigError (Unit {0})
  check_users [] = ok tt
  check_users ((user, keys) ∷ rest) = do check_keys user keys; check_users rest

  unfoldable pub validate : Config → Result ConfigError (Unit {0})
  validate c =
      if not c.pubkey_enabled && not c.password_enabled && not c.cert_enabled
      then err no_auth_method_enabled
      else do
        check_users c.authorized_keys
        if c.cert_enabled && is_empty c.ca_trusted then err cert_enabled_without_trusted_ca else do
          check_keys "<ca>" c.ca_trusted
          if has_parent_dir c.host_key then err (invalid_host_key_path c.host_key) else ok tt
