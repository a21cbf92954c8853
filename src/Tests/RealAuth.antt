-- ===== src/Tests/RealAuth.antt =====
-- real_auth.rs: a PAM that knows one password and asks for it.
use esesaetsch.Base.{
  Option, some, not, ℕ, ◌+◌, Bool, ◌&&◌, false, none, eqb, List, String, [], ◌∷◌, ok, err, ◌≡◌,
  refl, if◌then◌else◌, ◌==◌, get_or,
}
use esesaetsch.Error.{credential_mismatch}
use esesaetsch.RealAuth.{
  Request, prompt, masked_prompt, Pam, PamPasswordAuthenticator, verify_password,
}
use esesaetsch.RealAuth.Windows.{Win32, logon_user}
use esesaetsch.Std.Utf16.{until_null}

-- The state counts the calls; a transaction is the answer to the masked prompt.
abbrev sample : Pam ℕ String
sample = record {
  build =
      λ service user conv calls. (ok (get_or (conv (masked_prompt "Password: ")) ""), calls + 1);
  authenticate = λ txn calls. (if txn == "sesame" then ok tt else err "denied", calls + 1);
  account_management = λ txn calls. (ok tt, calls + 1);
}

abbrev sshd : PamPasswordAuthenticator
sshd = record { service_name = "sshd" }

verify_tests :
    (verify_password sample sshd 0 "alice" "sesame" ≡ (ok tt, 3))
    × (verify_password sample sshd 0 "alice" "wrong" ≡ (err credential_mismatch, 2))
unfolding verify_password
verify_tests = (refl, refl)

abbrev is_stored : Option String → String → Bool
is_stored none secret = false
is_stored (some p) secret = p == secret

abbrev stored : String → Option String
stored name = if name == "alice" then some "sesame" else none

-- A service that asks, and whose accounts are all valid but one.
abbrev Asked : Type 0
Asked = String × (Request → Option String)

abbrev matches : Option String → Option String → Bool
matches (some name) (some secret) = is_stored (stored name) secret
matches _ _ = false

abbrev is_valid : String → Bool
is_valid user = not (user == "bob")

abbrev asking : Pam (Unit {0}) Asked
asking = record {
  build = λ service user conv env. (ok (user, conv), env);
  authenticate = λ (user, conv) env. (
    if matches (conv (prompt "login: ")) (conv (masked_prompt "Password: "))
        then ok tt
        else err "denied",
    env,
  );
  account_management = λ (user, conv) env. (if is_valid user then ok tt else err "expired", env);
}

-- A system that knows one account, and keeps the tokens that are open.
abbrev account : Option (List ℕ) → Option (List ℕ) → Bool
account (some (u ∷ [])) (some (p ∷ [])) = eqb u 97 && eqb p 112
account _ _ = false

abbrev known : Win32 (List ℕ) ℕ
known = record {
  logon32_logon_network = 3;
  logon32_provider_default = 0;
  logon_user_w = λ user domain password logon_type provider env.
      if account (until_null user) (until_null password)
      then (ok 7, 7 ∷ env)
      else (err "1326", env);
  is_invalid = λ token. eqb token 0;
  close_handle = λ token env. (ok tt, []);
}

-- A name that goes on behind a null character is that of the account.
logon_tests :
    (logon_user known [] "a" "p" ≡ (ok tt, []))
    × (logon_user known [] "a\0b" "p" ≡ (ok tt, []))
    × (logon_user known [] "ab" "p" ≡ (err credential_mismatch, []))
unfolding logon_user
logon_tests = (refl, refl, refl)
