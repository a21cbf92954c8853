-- ===== src/RealAuth/Windows.antt =====
-- real_auth.rs, as it is built on Windows: the password check by `LogonUserW`, which is an argument.
-- On a target that is neither, there is no check.
use esesaetsch.Base.{
  ℕ, Bool, not, Option, none, some, List, [], ◌∷◌, ◌++◌, String, Result, ok, err, ◌≡◌,
  if◌then◌else◌,
}
use esesaetsch.Error.{AuthError, credential_mismatch}
use esesaetsch.Auth.{PasswordAuthenticator}
use esesaetsch.Std.Utf16.{encode_utf16, until_null}

-- The crate `windows`, over the state of the system: `LogonUserW` of a user, a domain, a password, a
-- type and a provider, which gives a token, and `CloseHandle`. An error is its text.
pub record Win32 (Env Handle : Type 0) : Type 0 where
  pub logon32_logon_network : ℕ
  pub logon32_provider_default : ℕ
  pub logon_user_w :
      List ℕ
      → Option (List ℕ)
      → List ℕ
      → (logon_type provider : ℕ) → Env
      → Result String Handle × Env
  pub is_invalid : Handle → Bool
  pub close_handle : Handle → Env → Result String (Unit {0}) × Env

-- What `LogonUserW` documents of its strings: they end with a null, and each is read up to its first
-- one.
pub record ReadsToNull {Env Handle : Type 0} (win : Win32 Env Handle) : Type 0 where
  pub logon :
      (user user' password password' name secret : List ℕ) (domain : Option (List ℕ))
      (logon_type provider : ℕ) (env : Env)
      → until_null user ≡ some name
      → until_null user' ≡ some name
      → until_null password ≡ some secret
      → until_null password' ≡ some secret
      → win.logon_user_w user domain password logon_type provider env
        ≡ win.logon_user_w user' domain password' logon_type provider env

unfoldable pub to_wide : String → List ℕ
unfolding encode_utf16
to_wide s = encode_utf16 s ++ 0 ∷ []

module _ {Env Handle : Type 0} (win : Win32 Env Handle) where
  abbrev logged_on : Result String Handle × Env → Result AuthError (Unit {0}) × Env
  logged_on (err e, env) = (err credential_mismatch, env)
  logged_on (ok token, env) =
      (ok tt, if not (win.is_invalid token) then (win.close_handle token env).1 else env)

  unfoldable pub logon_user : Env → String → String → Result AuthError (Unit {0}) × Env
  unfolding to_wide
  logon_user env user password = logged_on (
      win.logon_user_w (to_wide user) none (to_wide password) win.logon32_logon_network
        win.logon32_provider_default env)

  abbrev pub logon_user_password_authenticator : PasswordAuthenticator
  logon_user_password_authenticator = record { State = Env; verify = logon_user }

  abbrev pub build_windows_password_auth : String → Option PasswordAuthenticator
  build_windows_password_auth service_name = some logon_user_password_authenticator

-- Without a backend.
abbrev pub build_no_password_auth : String → Option PasswordAuthenticator
build_no_password_auth service_name = none
