-- ===== src/RealAuth.antt =====
-- crates/esesätsch/src/real_auth.rs, as it is built on Unix: the password check by PAM. PAM itself,
-- through the crate nonstick, is an argument.
pub mod Verify
pub mod Windows
pub mod Logon
use esesaetsch.Base.{Option, some, String, [], ◌∷◌, Result, ok, err, format}
use esesaetsch.Error.{AuthError, credential_mismatch, backend}
use esesaetsch.Auth.{PasswordAuthenticator}

-- What a module of PAM may ask, and the answers of `FixedConv`. Messages get none.
pub data Request : Type 0 where
  prompt masked_prompt error_msg info_msg : String → Request

pub record FixedConv : Type 0 where
  pub username : String
  pub password : String

unfoldable pub answer : FixedConv → Request → Option String
answer self (prompt _) = some self.username
answer self (masked_prompt _) = some self.password
answer self (error_msg _) = Option.none
answer self (info_msg _) = Option.none

-- `nonstick`: a transaction for a service and a user that asks the conversation, and its two calls,
-- over the state of the system. An error is its text.
pub record Pam (Env Txn : Type 0) : Type 0 where
  pub build : String → String → (Request → Option String) → Env → Result String Txn × Env
  pub authenticate : Txn → Env → Result String (Unit {0}) × Env
  pub account_management : Txn → Env → Result String (Unit {0}) × Env

pub record PamPasswordAuthenticator : Type 0 where
  pub service_name : String

module _ {Env Txn : Type 0} (pam : Pam Env Txn) where
  abbrev checked : Result String (Unit {0}) × Env → Result AuthError (Unit {0}) × Env
  checked (ok u, env) = (ok u, env)
  checked (err e, env) = (err credential_mismatch, env)

  abbrev authenticated : Txn → Result String (Unit {0}) × Env → Result AuthError (Unit {0}) × Env
  authenticated txn (ok _, env) = checked (pam.account_management txn env)
  authenticated txn (err e, env) = (err credential_mismatch, env)

  abbrev built : Result String Txn × Env → Result AuthError (Unit {0}) × Env
  built (ok txn, env) = authenticated txn (pam.authenticate txn env)
  built (err e, env) = (err (backend (format ("pam txn: " ∷ e ∷ []))), env)

  unfoldable pub verify_password :
      PamPasswordAuthenticator → Env → String → String → Result AuthError (Unit {0}) × Env
  unfolding answer
  verify_password self env user password =
      let conv : FixedConv = record { username = user; password = password } in
      built (pam.build self.service_name user (answer conv) env)

  -- On Unix there is always one.
  unfoldable pub build_native_password_auth : String → Option PasswordAuthenticator
  unfolding verify_password
  build_native_password_auth service_name =
      some
        (record { State = Env; verify = verify_password (record { service_name = service_name }) })
