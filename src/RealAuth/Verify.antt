-- ===== src/RealAuth/Verify.antt =====
-- real_auth.rs: when PAM's check accepts, and which errors it gives.
use esesaetsch.Base.{
  String, [], ◌∷◌, Result, ok, err, format, ◌≡◌, ◌↔◌, Option, some, Bool, true, ◌⊎◌, inl, inr,
  Result-cases, arith,
}
use esesaetsch.Error.{AuthError, credential_mismatch, backend}
use esesaetsch.RealAuth.{
  Pam, PamPasswordAuthenticator, Request, prompt, masked_prompt, answer, verify_password,
}

-- A service's stack of PAM modules that ask for the name and the password, and compare them with
-- stored ones. Whether an account is valid is asked of the transaction's user.
pub record HasAccounts {Env Txn : Type 0} (pam : Pam Env Txn) (stored : String → Option String)
    (is_valid : String → Bool) : Type 0 where
  pub name_prompt : String
  pub password_prompt : String
  pub authenticate :
      (service user : String) (conv : Request → Option String) (txn : Txn) (env env' : Env)
      → (pam.build service user conv env).0 ≡ ok txn
      → ((pam.authenticate txn env').0 ≡ ok tt) ↔ (
          (name secret : String) × (conv (prompt name_prompt) ≡ some name)
          × (conv (masked_prompt password_prompt) ≡ some secret)
          × (stored name ≡ some secret))
  pub account_management :
      (service user : String) (conv : Request → Option String) (txn : Txn) (env env' : Env)
      → (pam.build service user conv env).0 ≡ ok txn
      → ((pam.account_management txn env').0 ≡ ok tt) ↔ (is_valid user ≡ true)

module _ {Env Txn : Type 0} (pam : Pam Env Txn) (self : PamPasswordAuthenticator) (env : Env)
    (user password : String) where
  abbrev pub transaction : Result String Txn × Env
  transaction =
      pam.build self.service_name user (answer (record { username = user; password = password }))
        env

  abbrev pub authentication : Txn → Result String (Unit {0}) × Env
  authentication txn = pam.authenticate txn transaction.1

  abbrev pub account : Txn → Result String (Unit {0}) × Env
  account txn = pam.account_management txn (authentication txn).1

  -- How a check ends, and why.
  abbrev pub Checked : Result AuthError (Unit {0}) → Type 0
  Checked answered =
      ((txn : Txn) × (transaction.0 ≡ ok txn)
        × ((authentication txn).0 ≡ ok tt)
        × ((account txn).0 ≡ ok tt)
        × (answered ≡ ok tt))
      ⊎ ((e : String) × (transaction.0 ≡ err e)
          × (answered ≡ err (backend (format ("pam txn: " ∷ e ∷ [])))))
      ⊎ ((txn : Txn) × (e : String) × (transaction.0 ≡ ok txn)
          × (((authentication txn).0 ≡ err e)
              ⊎ (((authentication txn).0 ≡ ok tt) × ((account txn).0 ≡ err e)))
          × (answered ≡ err credential_mismatch))

  -- A check of a password ends in one of three ways. A transaction for the user, which is answered
  -- with the user and the password, can be made, authenticates, and passes the check of the account:
  -- the password is accepted. It cannot be made: the error is a backend error with PAM's text. It
  -- can be made, and one of the two calls fails: the error is a credential mismatch.
  pub verify_password_outcome : Checked (verify_password pam self env user password).0
  unfolding verify_password
  verify_password_outcome = elim (Result-cases transaction.0) [
    | inr (e, b) ↦ inr (inl (e, b, ground (arith, b)))
    | inl (txn, b) ↦ elim (Result-cases (authentication txn).0) [
      | inr (e, a) ↦ inr (inr (txn, e, b, inl a, ground (arith, b, a)))
      | inl (_, a) ↦ elim (Result-cases (account txn).0) [
        | inr (e, m) ↦ inr (inr (txn, e, b, inr (a, m), ground (arith, b, a, m)))
        | inl (_, m) ↦ inl (txn, b, a, m, ground (arith, b, a, m))
      ]
    ]
  ]
