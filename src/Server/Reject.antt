-- ===== src/Server/Reject.antt =====
-- What an authentication request answers and changes: exactly one of two answers, and on a
-- rejection nothing of the connection.
use esesaetsch.Base.{
  true, Option, none, some, String, ◌≡◌, ◌≢◌, refl, sym, ◌∙◌, ◌⊎◌, inl, inr, Result, ok, arith,
  Result-cases, Bool-cases, Option-cases,
}
use esesaetsch.Crates.{Bytes}
use esesaetsch.Error.{AuthError, CertError}
use esesaetsch.Cert.{CertGrants}
use esesaetsch.Server.Types.{Auth, accept, ServerState, Handler}
use esesaetsch.Server.Auth.{
  uniform_reject, reparse, auth_none, auth_password, auth_publickey, run_cert_auth,
}
use esesaetsch.Server.Events.{AuthEvent, none_method, password, publickey, certificate, on_auth}

-- Only a certificate sets the grants.
abbrev pub grants_after : Option CertGrants → Option CertGrants → Option CertGrants
grants_after old none = old
grants_after old (some grants) = some grants

module _ {Env Child Cert WireCert : Type 0} (state : ServerState Env Cert Child)
    (to_bytes : WireCert → Result String Bytes) (parse : Bytes → Result CertError Cert) where
  -- The request is for an enabled method, and its authenticator vouches for the user, with these
  -- grants.
  abbrev pub Vouched : Env → AuthEvent WireCert → String → Option CertGrants → Type 0
  Vouched env (none_method user) u g = ⊥
  Vouched env (password user secret) u g =
      (state.config.password_enabled ≡ true)
      × ((state.password_auth env user secret).0 ≡ ok tt)
      × (user ≡ u)
      × (g ≡ none)
  Vouched env (publickey user blob) u g =
      (state.config.pubkey_enabled ≡ true)
      × ((state.pubkey_auth env user blob).0 ≡ ok tt)
      × (user ≡ u)
      × (g ≡ none)
  Vouched env (certificate user cert) u g =
      (verify : Env → String → Cert → Result AuthError CertGrants × Env) × (parsed : Cert)
      × (grants : CertGrants) × (state.config.cert_enabled ≡ true)
      × (state.cert_auth ≡ some verify)
      × (reparse state to_bytes parse cert ≡ some parsed)
      × ((verify env user parsed).0 ≡ ok grants)
      × (user ≡ u)
      × (g ≡ some grants)

  -- The connection after a rejection: only the outside may have changed.
  pub record IsRejected (h : Handler Env Child) (r : Auth × Handler Env Child) : Type 0 where
    pub answer : r.0 ≡ uniform_reject state
    pub user : r.1.authenticated_user ≡ h.authenticated_user
    pub grants : r.1.cert_grants ≡ h.cert_grants
    pub channels : r.1.channels ≡ h.channels
    pub tasks : r.1.tasks ≡ h.tasks
    pub replies : r.1.replies ≡ h.replies

  -- The connection after an acceptance.
  pub record IsAccepted (h : Handler Env Child) (u : String) (g : Option CertGrants)
      (r : Auth × Handler Env Child) : Type 0 where
    pub answer : r.0 ≡ accept
    pub user : r.1.authenticated_user ≡ some u
    pub grants : r.1.cert_grants ≡ grants_after h.cert_grants g
    pub channels : r.1.channels ≡ h.channels
    pub tasks : r.1.tasks ≡ h.tasks
    pub replies : r.1.replies ≡ h.replies

  abbrev pub Concluded : Handler Env Child → AuthEvent WireCert → Auth × Handler Env Child → Type 0
  Concluded h e r =
      IsRejected h r
      ⊎ ((u : String) × (g : Option CertGrants) × Vouched h.env e u g × IsAccepted h u g r)

  -- Every authentication request ends in one of two ways. Either an authenticator of an enabled
  -- method vouched for the user: the answer is `accept`, and the user, with the grants of a
  -- certificate, is recorded. Or the answer is the rejection that the configuration determines,
  -- and the user, the grants, the channels, the tasks and the replies are as before.
  pub on_auth-Concluded :
      (h : Handler Env Child) (e : AuthEvent WireCert)
      → Concluded h e (on_auth state to_bytes parse h e)
  unfolding auth_none auth_password auth_publickey run_cert_auth
  on_auth-Concluded h (none_method user) = inl (ground arith)
  on_auth-Concluded h (password user secret) = elim (Bool-cases state.config.password_enabled) [
    | inr off ↦ inl (rw off (ground arith))
    | inl on ↦ elim (Result-cases (state.password_auth h.env user secret).0) [
      | inl (_, e) ↦ inr (user, none, (on, e, refl, refl), rw on (ground arith))
      | inr (_, e) ↦ inl (rw on (ground arith))
    ]
  ]
  on_auth-Concluded h (publickey user blob) = elim (Bool-cases state.config.pubkey_enabled) [
    | inr off ↦ inl (rw off (ground arith))
    | inl on ↦ elim (Result-cases (state.pubkey_auth h.env user blob).0) [
      | inl (_, e) ↦ inr (user, none, (on, e, refl, refl), rw on (ground arith))
      | inr (_, e) ↦ inl (rw on (ground arith))
    ]
  ]
  on_auth-Concluded h (certificate user cert) = elim (Bool-cases state.config.cert_enabled) [
    | inr off ↦ inl (rw off (ground arith))
    | inl on ↦ elim (Option-cases state.cert_auth) [
      | inl absent ↦ inl (rw (on, absent) (ground arith))
      | inr (verify, found) ↦ elim (Option-cases (reparse state to_bytes parse cert)) [
        | inl unread ↦ inl (rw (on, found) (ground arith))
        | inr (parsed, read) ↦ elim (Result-cases (verify h.env user parsed).0) [
          | inr (_, e) ↦ inl (rw (on, found) (ground arith))
          | inl (grants, e) ↦ inr (
            user,
            some grants,
            (verify, parsed, grants, on, found, read, e, refl, refl),
            rw (on, found) (ground arith),
          )
        ]
      ]
    ]
  ]

  -- A rejected client learns nothing but the configured methods: whatever two requests, on
  -- whatever connections, are not accepted, they get the same answer.
  pub rejections_alike :
      (h h' : Handler Env Child) (e e' : AuthEvent WireCert)
      → (on_auth state to_bytes parse h e).0 ≢ accept
      → (on_auth state to_bytes parse h' e').0 ≢ accept
      → (on_auth state to_bytes parse h e).0 ≡ (on_auth state to_bytes parse h' e').0
  rejections_alike h h' e e' r r' = rejected h e r ∙ sym (rejected h' e' r')
    where
      rejected :
          (k : Handler Env Child) (f : AuthEvent WireCert)
          → (on_auth state to_bytes parse k f).0 ≢ accept
          → (on_auth state to_bytes parse k f).0 ≡ uniform_reject state
      rejected k f n = elim (on_auth-Concluded k f) [
        | inl r ↦ r.answer
        | inr (u, g, v, a) ↦ absurd (n a.answer)
      ]
