-- ===== src/Main/Sessions.antt =====
-- main.rs: from the configuration file to the sessions, through every part of the program.
use esesaetsch.Base.{
  true, false, none, some, List, [], ◌∷◌, String, ◌≡◌, sym, ◌∙◌, ◌⊎◌, inl, inr, All, Some, Result,
  ok, arith, Option, subst,
}
use esesaetsch.Std.Map.{get, IsDistinct}
use esesaetsch.Crates.{Bytes, Decode, ConstantTimeEq}
use esesaetsch.Error.{CertError}
use esesaetsch.KeyLines.{IsKeyLine}
use esesaetsch.Config.{TomlConfig, Cli}
use esesaetsch.Auth.{PasswordAuthenticator, from_allowlist}
use esesaetsch.Auth.Build.{verify-from_allowlist}
use esesaetsch.Cert.{CertGrants, no_grants}
use esesaetsch.Pty.{SpawnSpec}
use esesaetsch.Target.{TargetOs}
use esesaetsch.RealPty.{PtySystem, RealPtyChild, spawn}
use esesaetsch.HostKey.{FileSystem, KeyCodec}
use esesaetsch.Server.Types.{Handler, Task}
use esesaetsch.Server.Events.{AuthEvent, none_method, password, publickey, certificate}
use esesaetsch.Server.Reject.{Vouched}
use esesaetsch.Server.Tasks.{IsSpawnedFor}
use esesaetsch.Server.Reach.{Reach, begin, authenticate, on_wire, outside, IsGranted, Reach_users}
use esesaetsch.Main.{Setup, start}
use esesaetsch.Main.Start.{start-ok}
use esesaetsch.Main.Serve.{Backends, server_state, verify-sentinel_compares}

module _ {Os Master Proc Reader Writer : Type 0} (os : TargetOs)
    (pty : PtySystem Os Master Proc Reader Writer) where
  -- The child is what the real spawner gives, whatever name the request has, for a request without
  -- grants and without an environment of the client's.
  abbrev pub IsSpawned : Task (RealPtyChild Master Proc Reader Writer) → Type 0
  IsSpawned t =
      (env : Os) × (spec : SpawnSpec) × ((name : String)
        → (spawn os pty env (record spec { user = name })).0 ≡ ok t.child)
      × (spec.grants ≡ no_grants)
      × (spec.interactive ≡ t.interactive)
      × (spec.env ≡ [])

module _ {Os Master Proc Reader Writer Cert WireCert PrivateKey : Type 0} (decode : Decode)
    (ct : ConstantTimeEq) (os : TargetOs) (pty : PtySystem Os Master Proc Reader Writer)
    (to_bytes : WireCert → Result String Bytes) (parse : Bytes → Result CertError Cert)
    (setup : Setup PrivateKey) where
  -- The request is of the user, by a key of one of the user's configured lines, or by a password
  -- that the check accepts.
  abbrev pub Admits : Backends setup.password_auth.State Os → AuthEvent WireCert → String → Type 0
  Admits env (none_method user) u = ⊥
  Admits env (password user secret) u =
      (user ≡ u)
      × (setup.config.password_enabled ≡ true)
      × ((setup.password_auth.verify env.password user secret).0 ≡ ok tt)
  Admits env (publickey user key) u =
      (user ≡ u)
      × (setup.config.pubkey_enabled ≡ true)
      × (lines : List String) × (get user setup.config.authorized_keys ≡ some lines)
      × Some (IsKeyLine decode key) lines
  Admits env (certificate user cert) u = ⊥

  -- Some request on the way admits the user.
  unfoldable pub IsAdmitted :
      {h : Handler (Backends setup.password_auth.State Os) (RealPtyChild Master Proc Reader Writer)}
      → Reach (server_state ct os pty setup) to_bytes parse h
      → String
      → Type 0
  unfolding server_state
  IsAdmitted (begin env) u = ⊥
  IsAdmitted (authenticate {h} r e idle) u = Admits h.env e u ⊎ IsAdmitted r u
  IsAdmitted (on_wire r e) u = IsAdmitted r u
  IsAdmitted (outside r env) u = IsAdmitted r u

  IsSpawnedFor-IsSpawned :
      (u : String) (tasks : List (Task (RealPtyChild Master Proc Reader Writer)))
      → All (IsSpawnedFor (server_state {Cert = Cert} ct os pty setup) u none) tasks
      → All (IsSpawned os pty) tasks
  unfolding server_state
  IsSpawnedFor-IsSpawned u [] h = tt
  IsSpawnedFor-IsSpawned u (t ∷ tasks) ((env, spec, made, _, bare, same, empty), later) =
      ((env.os, spec, λ name. made, bare, same, empty), IsSpawnedFor-IsSpawned u tasks later)

  module _ (distinct : IsDistinct setup.config.authorized_keys)
      (built : from_allowlist decode setup.config.authorized_keys ≡ ok setup.pubkey_auth) where
    Vouched-Admits :
        (env : Backends setup.password_auth.State Os) (e : AuthEvent WireCert) (u : String)
        (g : Option CertGrants)
        → Vouched (server_state {Cert = Cert} ct os pty setup) to_bytes parse env e u g
        → Admits env e u × (g ≡ none)
    unfolding server_state
    Vouched-Admits env (none_method user) u g v = absurd v
    Vouched-Admits env (password user secret) u g (enabled, accepted, same, bare) =
        ((same, enabled, accepted), bare)
    Vouched-Admits env (publickey user key) u g (enabled, accepted, same, bare) =
        let (lines, listed, held) =
          (verify-from_allowlist decode ct setup.config.authorized_keys setup.pubkey_auth user key
              distinct built).0
            (sym (verify-sentinel_compares ct setup.pubkey_auth env.sentinel_compares user key)
              ∙ accepted) in
        ((same, enabled, lines, listed, held), bare)
    Vouched-Admits env (certificate user cert) u g
          (check, parsed, grants, enabled, found, a, b, c, d) =
        absurd (ground arith)

    IsGranted-IsAdmitted :
        {h : Handler
          (Backends setup.password_auth.State Os)
          (RealPtyChild Master Proc Reader Writer)}
        (r : Reach (server_state ct os pty setup) to_bytes parse h) (u : String)
        (g : Option CertGrants)
        → IsGranted (server_state {Cert = Cert} ct os pty setup) to_bytes parse r u g
        → IsAdmitted r u × (g ≡ none)
    unfolding IsGranted IsAdmitted
    IsGranted-IsAdmitted (begin env) u g v = absurd v
    IsGranted-IsAdmitted (on_wire r e) u g v = IsGranted-IsAdmitted r u g v
    IsGranted-IsAdmitted (outside r env) u g v = IsGranted-IsAdmitted r u g v
    IsGranted-IsAdmitted (authenticate {h} r e idle) u g v = elim v [
      | inl now ↦ let (a, bare) = Vouched-Admits h.env e u g now in (inl a, bare)
      | inr before ↦ let (a, bare) = IsGranted-IsAdmitted r u g before in (inr a, bare)
    ]

module _ {Fs Generated PrivateKey Random Os Master Proc Reader Writer Cert WireCert : Type 0}
    (files : FileSystem Fs) (keys : KeyCodec Generated PrivateKey Random) (decode : Decode)
    (from_str : String → Result String TomlConfig) (native : Option PasswordAuthenticator)
    (ct : ConstantTimeEq) (os : TargetOs) (pty : PtySystem Os Master Proc Reader Writer)
    (to_bytes : WireCert → Result String Bytes) (parse : Bytes → Result CertError Cert) where
  -- Whatever a client of a started server does, its connection has no session, or the client is
  -- authenticated as a user as whom it was admitted: it used a key that one of the user's lines in
  -- the configuration holds, where public keys are enabled, or a password that the server's check
  -- accepted for the user, where passwords are enabled, and then that check is the system's. Each
  -- session then has a child of the real spawner, for a request without grants of a certificate and
  -- without an environment of the client's; the spawner gives that child whatever user the request
  -- names. The configuration lists no user twice.
  pub start-sessions :
      (flags : Cli) (rng : Random) (fs : Fs) (setup : Setup PrivateKey)
      → (start files keys decode from_str native flags rng fs).0 ≡ ok setup
      → IsDistinct setup.config.authorized_keys
      → {h : Handler
          (Backends setup.password_auth.State Os)
          (RealPtyChild Master Proc Reader Writer)}
        (r : Reach (server_state {Cert = Cert} ct os pty setup) to_bytes parse h)
      → ((setup.config.password_enabled ≡ false) ⊎ (native ≡ some setup.password_auth))
        × ((h.tasks ≡ [])
            ⊎ ((u : String) × IsAdmitted decode ct os pty to_bytes parse setup r u
                × (h.authenticated_user ≡ some u)
                × All (IsSpawned os pty) h.tasks))
  start-sessions flags rng fs setup started distinct {h} r =
      let ((_, built, checked), _, _) =
        start-ok files keys decode from_str native flags rng fs setup started in
      let state = server_state {Cert = Cert} ct os pty setup in
      let backend : (setup.config.password_enabled ≡ false) ⊎ (native ≡ some setup.password_auth) =
        elim checked [ inl (off, deny) ↦ inl off | inr (on, same) ↦ inr same ] in
      elim (Reach_users state to_bytes parse r) [
        | inl idle ↦ (backend, inl idle)
        | inr (u, g, granted, user, tasks) ↦
            let (admitted, bare) =
              IsGranted-IsAdmitted decode ct os pty to_bytes parse setup distinct built r u g
                granted in
            (
              backend,
              inr (
                u,
                admitted,
                user,
                IsSpawnedFor-IsSpawned decode ct os pty to_bytes parse setup u h.tasks
                    (subst (λ g. All (IsSpawnedFor state u g) h.tasks) bare tasks),
              ),
            )
      ]
