-- ===== src/Main/Serve.antt =====
-- main.rs: the state of the server that `cmd_serve` starts. What all connections share and may change
-- is one state: the allowlist's counter, the system's password check, and the system itself.
use esesaetsch.Base.{ℕ, none, String, Result, Option-cases, refl, ◌≡◌, inl, inr}
use esesaetsch.Std.Map.{get}
use esesaetsch.Target.{TargetOs}
use esesaetsch.RealPty.{PtySystem, RealPtyChild, spawn, real_spawner}
use esesaetsch.Crates.{Bytes, ConstantTimeEq}
use esesaetsch.Error.{AuthError, SpawnError}
use esesaetsch.Auth.{AllowlistPubkeyAuthenticator, verify, PasswordAuthenticator}
use esesaetsch.Pty.{PtySpawner, SpawnSpec}
use esesaetsch.Server.Types.{ServerState}
use esesaetsch.Main.{Setup}

pub record Backends (Password Os : Type 0) : Type 0 where
  pub sentinel_compares : ℕ
  pub password : Password
  pub os : Os

-- The trait objects as functions of that state.
abbrev pub pubkey_with :
    {Password Os : Type 0}
    → ConstantTimeEq
    → AllowlistPubkeyAuthenticator
    → Backends Password Os
    → String
    → Bytes
    → Result AuthError (Unit {0}) × Backends Password Os
pubkey_with ct allowlist env user key =
    let (answer, after) =
      verify ct (record allowlist { sentinel_compares = env.sentinel_compares }) user key in
    (answer, record env { sentinel_compares = after.sentinel_compares })

abbrev pub password_with :
    {Os : Type 0} (auth : PasswordAuthenticator)
    → Backends auth.State Os
    → String
    → String
    → Result AuthError (Unit {0}) × Backends auth.State Os
password_with auth env user secret =
    let (answer, after) = auth.verify env.password user secret in
    (answer, record env { password = after })

abbrev pub spawn_with :
    {Password Os Child : Type 0}
    → PtySpawner Os Child
    → Backends Password Os
    → SpawnSpec
    → Result SpawnError Child × Backends Password Os
spawn_with spawner env spec =
    let (answer, after) = spawner.spawn env.os spec in (answer, record env { os = after })

-- The arguments of `EsesätschServer::new`: `RealPtySpawner`, and no certificate authenticator.
unfoldable pub server_state :
    {Os Master Proc Reader Writer Cert PrivateKey : Type 0}
    → ConstantTimeEq
    → TargetOs
    → PtySystem Os Master Proc Reader Writer
    → (setup : Setup PrivateKey)
    → ServerState
        (Backends setup.password_auth.State Os)
        Cert
        (RealPtyChild Master Proc Reader Writer)
unfolding verify spawn
server_state ct os pty setup = record {
  config = setup.config;
  pubkey_auth = pubkey_with ct setup.pubkey_auth;
  password_auth = password_with setup.password_auth;
  cert_auth = none;
  spawner = spawn_with (real_spawner os pty);
}

-- The counter has no say in what an allowlist accepts.
pub verify-sentinel_compares :
    (ct : ConstantTimeEq) (a : AllowlistPubkeyAuthenticator) (n : ℕ) (user : String) (key : Bytes)
    → (verify ct (record a { sentinel_compares = n }) user key).0 ≡ (verify ct a user key).0
unfolding verify
verify-sentinel_compares ct a n user key = elim (Option-cases (get user a.keys)) [
  | inl absent ↦ rw (absent, verify) refl
  | inr (blobs, listed) ↦ rw (listed, verify) refl
]
