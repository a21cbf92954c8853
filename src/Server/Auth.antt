-- ===== src/Server/Auth.antt =====
-- server.rs: the authentication callbacks.
use esesaetsch.Base.{false, not, Option, none, some, String, if◌then◌else◌, Result, ok, err}
use esesaetsch.Crates.{Bytes}
use esesaetsch.Error.{AuthError, CertError}
use esesaetsch.Cert.{CertGrants}
use esesaetsch.Server.Types.{Auth, accept, reject, advertised_methods, ServerState, Handler}

module _ {Env Child Cert : Type 0} (state : ServerState Env Cert Child) where
  -- It is computed from the configuration alone.
  abbrev pub uniform_reject : Auth
  uniform_reject = reject (some (advertised_methods state.config)) false

  abbrev accept_if : Result AuthError (Unit {0}) → Auth
  accept_if (ok _) = accept
  accept_if (err e) = uniform_reject

  abbrev user_after : Result AuthError (Unit {0}) → String → Option String → Option String
  user_after (ok _) user old = some user
  user_after (err e) user old = old

  -- The handler after an answer of a trait object, and the reply to the client.
  abbrev conclude :
      Handler Env Child → String → Result AuthError (Unit {0}) × Env → Auth × Handler Env Child
  conclude self user (answer, env) = (
    accept_if answer,
    record self { authenticated_user = user_after answer user self.authenticated_user; env = env },
  )

  unfoldable pub auth_none : Handler Env Child → String → Auth × Handler Env Child
  auth_none self user = (uniform_reject, self)

  unfoldable pub auth_password : Handler Env Child → String → String → Auth × Handler Env Child
  auth_password self user secret =
      if state.config.password_enabled
      then conclude self user (state.password_auth self.env user secret)
      else (uniform_reject, self)

  -- The key is given by its wire blob.
  unfoldable pub auth_publickey : Handler Env Child → String → Bytes → Auth × Handler Env Child
  auth_publickey self user blob =
      if state.config.pubkey_enabled
      then conclude self user (state.pubkey_auth self.env user blob)
      else (uniform_reject, self)

  abbrev conclude_cert :
      Handler Env Child → String → Result AuthError CertGrants × Env → Auth × Handler Env Child
  conclude_cert self user (ok grants, env) =
      (accept, record self { authenticated_user = some user; cert_grants = some grants; env = env })
  conclude_cert self user (err e, env) = (uniform_reject, record self { env = env })

  module _ {WireCert : Type 0} (to_bytes : WireCert → Result String Bytes)
      (parse : Bytes → Result CertError Cert) where
    -- `certificate.to_bytes()`, and then `ParsedCert::parse`
    abbrev pub reparse : WireCert → Option Cert
    reparse certificate = elim (to_bytes certificate) [
      | err e ↦ none
      | ok bytes ↦ elim (parse bytes) [ err e ↦ none | ok parsed ↦ some parsed ]
    ]

    unfoldable pub run_cert_auth : Handler Env Child → String → WireCert → Auth × Handler Env Child
    run_cert_auth self user certificate =
        if not state.config.cert_enabled then (uniform_reject, self) else elim state.cert_auth [
          | none ↦ (uniform_reject, self)
          | some verify ↦ elim (reparse certificate) [
            | none ↦ (uniform_reject, self)
            | some parsed ↦ conclude_cert self user (verify self.env user parsed)
          ]
        ]
