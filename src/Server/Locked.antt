-- ===== src/Server/Locked.antt =====
-- server.rs: a server with no enabled method but certificates, and no certificate authenticator, as
-- main.rs starts it from a configuration that enables certificates only.
use esesaetsch.Base.{false, Option, none, String, [], Result, ◌≡◌, inl, inr, arith}
use esesaetsch.Crates.{Bytes}
use esesaetsch.Error.{CertError}
use esesaetsch.Cert.{CertGrants}
use esesaetsch.Server.Types.{ServerState, Handler}
use esesaetsch.Server.Events.{AuthEvent, none_method, password, publickey, certificate}
use esesaetsch.Server.Reject.{Vouched}
use esesaetsch.Server.Reach.{
  Reach, begin, authenticate, on_wire, outside, IsGranted, Reach_sessions,
}

module _ {Env Child Cert WireCert : Type 0} (state : ServerState Env Cert Child)
    (to_bytes : WireCert → Result String Bytes) (parse : Bytes → Result CertError Cert)
    (no_cert : state.cert_auth ≡ none) (no_password : state.config.password_enabled ≡ false)
    (no_pubkey : state.config.pubkey_enabled ≡ false) where
  not-Vouched :
      (env : Env) (e : AuthEvent WireCert) (u : String) (g : Option CertGrants)
      → Vouched state to_bytes parse env e u g
      → ⊥
  not-Vouched env (none_method user) u g v = v
  not-Vouched env (password user secret) u g (on, _, _, _) = ground (arith, on, no_password)
  not-Vouched env (publickey user blob) u g (on, _, _, _) = ground (arith, on, no_pubkey)
  not-Vouched env (certificate user cert) u g (verify, parsed, grants, on, found, _, _, _, _) =
      ground (arith, found, no_cert)

  not-IsGranted :
      {h : Handler Env Child} (r : Reach state to_bytes parse h) (u : String)
      (g : Option CertGrants)
      → IsGranted state to_bytes parse r u g
      → ⊥
  unfolding IsGranted
  not-IsGranted (begin env) u g v = v
  not-IsGranted (authenticate {h} r e idle) u g (inl v) = not-Vouched h.env e u g v
  not-IsGranted (authenticate r e idle) u g (inr v) = not-IsGranted r u g v
  not-IsGranted (on_wire r e) u g v = not-IsGranted r u g v
  not-IsGranted (outside r env) u g v = not-IsGranted r u g v

  -- With no certificate authenticator, and passwords and public keys disabled, no connection that a
  -- client can bring about has a session.
  pub Reach_locked : {h : Handler Env Child} → Reach state to_bytes parse h → h.tasks ≡ []
  Reach_locked r = elim (Reach_sessions state to_bytes parse r) [
    | inl idle ↦ idle
    | inr (u, g, granted, _) ↦ absurd (not-IsGranted r u g granted)
  ]
