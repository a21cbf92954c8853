-- ===== src/Tests/Samples.antt =====
-- Sample arguments: a decoder of two keys, configurations, a certificate and a server.
use esesaetsch.Base.{
  ℕ, true, false, none, some, List, [], ◌∷◌, String, Result, ok, err, ◌==◌, if◌then◌else◌,
}
use esesaetsch.Crates.{Bytes, Decode}
use esesaetsch.Error.{credential_mismatch, process_spawn}
use esesaetsch.Config.{Config, defaults, Cli, TomlConfig}
use esesaetsch.Cert.{SshKey, CertType, CaTrustCertAuthenticator, since_epoch}
use esesaetsch.Server.Types.{ServerState}

abbrev pub decode_sample : Decode
decode_sample word =
    if word == "AAAA"
    then ok (1 ∷ 2 ∷ [])
    else if word == "BBBB"
    then ok (3 ∷ [])
    else err "invalid base64"

abbrev pub alice_config : Config
alice_config = record defaults { authorized_keys = ("alice", "ssh-ed25519 AAAA laptop" ∷ []) ∷ [] }

abbrev pub ca_config : Config
ca_config = record alice_config {
  password_enabled = true;
  cert_enabled = true;
  ca_trusted = "ssh-ed25519 BBBB ca" ∷ [];
  ca_revoked_serials = 9 ∷ [];
}

abbrev pub no_flags : Cli
no_flags = record {
  config_path = none;
  port = none;
  bind = none;
  host_key = none;
  debug = false;
  trace = false;
}

abbrev pub empty_toml : TomlConfig
empty_toml = record {
  server = record { bind = none; port = none; host_key = none };
  auth = record {
    password_enabled = none;
    pubkey_enabled = none;
    cert_enabled = none;
    max_auth_attempts = none;
    authorized_keys = [];
    ca = none;
  };
  logging = none;
}

-- A certificate as a record of what the accessors give.
pub record SampleCert : Type 0 where
  pub cert_type : CertType
  pub serial : ℕ
  pub principals : List String
  pub ca : Result String Bytes
  pub options : List (String × String)

abbrev pub ssh_sample : SshKey
ssh_sample = record {
  Certificate = SampleCert;
  from_bytes = λ bytes. err "no certificate";
  key_id = λ c. "id";
  serial = λ c. c.serial;
  cert_type = λ c. c.cert_type;
  valid_principals = λ c. c.principals;
  valid_after = λ c. 100;
  valid_before = λ c. 200;
  signature_key = λ c. c.ca;
  verify_signature = λ c. true;
  critical_options = λ c. c.options;
}

abbrev pub backup_cert : SampleCert
backup_cert = record {
  cert_type = CertType.user;
  serial = 5;
  principals = "alice" ∷ [];
  ca = ok (3 ∷ []);
  options = ("force-command", "backup") ∷ [];
}

abbrev pub authority : CaTrustCertAuthenticator
authority = record {
  trusted_ca_blobs = (3 ∷ []) ∷ [];
  revoked_serials = 9 ∷ [];
  now = since_epoch 150;
  sentinel_ca = [];
  dummy_work_count = 0;
}

-- A server whose children are named by the users they run for. It knows alice's password and
-- gives carol's certificate a forced command; nothing can be spawned for mallory.
abbrev pub server : ServerState (Unit {0}) String String
server = record {
  config = ca_config;
  pubkey_auth = λ env user blob. (err credential_mismatch, env);
  password_auth =
      λ env user secret. (if secret == "sesame" then ok tt else err credential_mismatch, env);
  cert_auth = some (λ env user cert. (ok (record { force_command = some cert }), env));
  spawner = λ env spec.
      (if spec.user == "mallory" then err (process_spawn "denied") else ok spec.user, env);
}
