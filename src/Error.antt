-- ===== src/Error.antt =====
-- crates/esesätsch-core/src/error.rs: the error types, with the texts that `thiserror` derives.
-- An error of another crate or of the system is held by its own text.
use esesaetsch.Base.{ℕ, String, [], ◌∷◌, format}

pub data ConfigError : Type 0 where
  toml : String → ConfigError
  invalid_port : ℕ → ConfigError
  invalid_bind_address : String → ConfigError
  no_auth_method_enabled : ConfigError
  invalid_authorized_key : (user detail : String) → ConfigError
  invalid_host_key_path : String → ConfigError
  cert_enabled_without_trusted_ca : ConfigError

pub data HostKeyError : Type 0 where
  io : (path source : String) → HostKeyError
  malformed : (path detail : String) → HostKeyError
  generation : String → HostKeyError

pub data CertError : Type 0 where
  malformed : String → CertError
  untrusted_ca bad_signature outside_validity_window principal_mismatch revoked : CertError
  unsupported_critical_option : String → CertError
  wrong_cert_type : CertError

pub data AuthError : Type 0 where
  unknown_user credential_mismatch method_disabled : AuthError
  backend : String → AuthError

pub data SpawnError : Type 0 where
  user_not_found privilege_denied pty_allocation process_spawn io : String → SpawnError

pub data CryptoError : Type 0 where
  unknown_algorithm : String → CryptoError

-- the crate's `Error`
pub data CoreError : Type 0 where
  config : ConfigError → CoreError
  host_key : HostKeyError → CoreError
  crypto : CryptoError → CoreError

-- `Display` of the errors that reach the server's log
unfoldable pub display_cert : CertError → String
display_cert (CertError.malformed detail) = format ("certificate blob is malformed: " ∷ detail ∷ [])
display_cert untrusted_ca = "certificate signed by untrusted CA"
display_cert bad_signature = "certificate signature is invalid"
display_cert outside_validity_window = "certificate is expired or not yet valid"
display_cert principal_mismatch = "ssh username is not in certificate principals"
display_cert revoked = "certificate serial is revoked"
display_cert (unsupported_critical_option name) =
    format ("certificate uses unsupported critical option `" ∷ name ∷ "`" ∷ [])
display_cert wrong_cert_type = "certificate is not a user certificate"

unfoldable pub display_auth : AuthError → String
display_auth unknown_user = "unknown user"
display_auth credential_mismatch = "credential mismatch"
display_auth method_disabled = "auth method disabled by configuration"
display_auth (backend detail) = format ("auth backend error: " ∷ detail ∷ [])

unfoldable pub display_spawn : SpawnError → String
display_spawn (user_not_found user) = format ("user `" ∷ user ∷ "` not found on this system" ∷ [])
display_spawn (privilege_denied user) =
    format ("insufficient privilege to spawn as user `" ∷ user ∷ "`" ∷ [])
display_spawn (pty_allocation detail) = format ("PTY allocation failed: " ∷ detail ∷ [])
display_spawn (process_spawn detail) = format ("process spawn failed: " ∷ detail ∷ [])
display_spawn (SpawnError.io detail) = format ("io: " ∷ detail ∷ [])
