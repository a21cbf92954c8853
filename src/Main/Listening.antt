-- ===== src/Main/Listening.antt =====
-- main.rs: when the program listens, and what its exit code then says.
use esesaetsch.Base.{
  Option, none, some, String, List, [], ◌∷◌, ◌++◌, Result, ok, err, ◌≡◌, ◌≢◌, refl, ◌⊎◌, inl, inr,
  Bool-cases, arith, Result-cases,
}
use esesaetsch.HostKey.{cmd_gen_key}
use esesaetsch.Logging.{install}
use esesaetsch.Config.{Cli, SocketAddr, Config}
use esesaetsch.Auth.{AllowlistPubkeyAuthenticator, PasswordAuthenticator}
use esesaetsch.Service.Types.{ServiceError}
use esesaetsch.Error.{HostKeyError}
use esesaetsch.Server.New.{RusshConfig, new}
use esesaetsch.Main.{
  Args, Action, StartError, nobody, dispatch, verbosity, Setup, start, prepare, service_install,
  service_uninstall, print_completions, print_man,
}
use esesaetsch.Main.Serve.{Backends, server_state}
use esesaetsch.RealPty.{RealPtyChild}
use esesaetsch.Server.Types.{ServerState}
use esesaetsch.Main.Served.{
  IsToldToServe, IsEndOf, IsEndOf-exit_of, IsServerOf, new-IsServerOf, dispatch-IsToldToServe,
}
use esesaetsch.Main.Run.{
  Line, listening, Exit, exit_of, exit_code, Platform, cmd_serve, act, run, main, warning, serve_on,
  outcome_of, install_service, made_key, man,
}

-- The addresses that the program says it listens on.
abbrev address_of : Line → List SocketAddr
address_of (listening addr) = addr ∷ []
address_of _ = []

abbrev pub addresses : List Line → List SocketAddr
addresses [] = []
addresses (l ∷ lines) = address_of l ++ addresses lines

addresses-outcome_of :
    {Fs : Type 0} (r : Result ServiceError (List String) × Fs)
    → addresses (outcome_of r).printed ≡ []
addresses-outcome_of (ok lines, fs) = refl
addresses-outcome_of (err e, fs) = refl

module _
    {Fs Generated PrivateKey Random Listener Os Master Proc Reader Writer Cert Name Value Dictionary
      Filter Subscriber : Type 0}
    (platform : Platform Fs Generated PrivateKey Random Listener Os Master Proc Reader Writer Cert
      Name Value Dictionary Filter Subscriber) where
  open platform use {files, keys, decode, from_str, native, network, ct, names, os, pty}

  addresses-made_key :
      (path : String) (r : Result (Option HostKeyError) (Unit {0}) × Fs)
      → addresses (made_key platform path r).printed ≡ []
  addresses-made_key path (ok _, fs) = refl
  addresses-made_key path (err none, fs) = refl
  addresses-made_key path (err (some e), fs) = refl

  addresses-man :
      (r : Result String (Unit {0})) (fs : Fs) → addresses (man platform r fs).printed ≡ []
  addresses-man (ok _) fs = refl
  addresses-man (err e) fs = refl

  addresses-install_service :
      (config : Option String) (fs : Fs)
      → addresses (install_service platform config fs).printed ≡ []
  addresses-install_service config fs = elim (Result-cases (platform.current_exe fs)) [
    | inl (exe, found) ↦ rw (found, install_service) (addresses-outcome_of _)
    | inr (e, lost) ↦ rw (lost, install_service) refl
  ]

  addresses-warning :
      (parts : Result StartError (Config × AllowlistPubkeyAuthenticator × PasswordAuthenticator))
      (more : List Line)
      → (addresses (warning platform parts) ≡ [])
        × (addresses (warning platform parts ++ more) ≡ addresses more)
  addresses-warning (err e) more = (refl, refl)
  addresses-warning (ok parts) more =
      elim (Bool-cases (nobody files keys decode from_str native parts.0)) [
        | inl locked ↦ (rw locked refl, rw locked refl)
        | inr open_ ↦ (rw open_ refl, rw open_ refl)
      ]

  -- What the program has done when it listens, and how it then ends.
  abbrev pub Served : Cli → Random → Fs → List Line → Exit → Type 1
  Served flags rng fs printed exit =
      (setup : Setup PrivateKey) × (listener : Listener) × (server : ServerState
          (Backends setup.password_auth.State Os) Cert (RealPtyChild Master Proc Reader Writer)
        × RusshConfig Name PrivateKey)
      × ((start files keys decode from_str native flags rng fs).0 ≡ ok setup)
      × IsServerOf ct os pty setup server
      × (let after = (start files keys decode from_str native flags rng fs).1 in
          let bound = network.bind setup.config.bind after in
          (bound.0 ≡ ok listener)
          × (addresses printed ≡ setup.config.bind ∷ [])
          × IsEndOf (network.run_on_socket server listener bound.1).0 exit)

  cmd_serve-Served :
      (flags : Cli) (rng : Random) (fs : Fs)
      → let outcome = cmd_serve platform flags rng fs in
        ((addresses outcome.printed ≡ []) × (exit_code (exit_of outcome.result) ≡ 1))
        ⊎ Served flags rng fs outcome.printed (exit_of outcome.result)
  unfolding cmd_serve
  cmd_serve-Served flags rng fs =
      let parts = prepare files keys decode from_str native flags fs in
      let after = (start files keys decode from_str native flags rng fs).1 in
      elim (Result-cases (start files keys decode from_str native flags rng fs).0) [
        | inr (e, bad) ↦
            inl (rw (bad, cmd_serve) (addresses-warning parts []).0, rw (bad, cmd_serve) refl)
        | inl (setup, started) ↦ elim (Result-cases (network.bind setup.config.bind after).0) [
          | inr (e, unbound) ↦ inl (
            rw (started, cmd_serve, serve_on, unbound) (addresses-warning parts []).0,
            rw (started, cmd_serve, serve_on, unbound) refl,
          )
          | inl (listener, bound) ↦ inr (
            setup,
            listener,
            new names (server_state ct os pty setup) setup.host_key,
            started,
            new-IsServerOf ct os pty names setup,
            (
              bound,
              rw (started, cmd_serve, serve_on, bound)
                  (addresses-warning parts (listening setup.config.bind ∷ [])).1,
              rw (started, cmd_serve, serve_on, bound) (IsEndOf-exit_of _),
            ),
          )
        ]
      ]

  act-Served :
      (action : Action) (flags : Cli) (rng : Random) (fs : Fs)
      → let outcome = act platform action flags rng fs in
        ((addresses outcome.printed ≡ [])
          × ((action ≢ Action.cmd_serve) ⊎ (exit_code (exit_of outcome.result) ≡ 1)))
        ⊎ ((action ≡ Action.cmd_serve)
            × Served flags rng fs outcome.printed (exit_of outcome.result))
  act-Served (Action.cmd_gen_key path) flags rng fs = inl (
    addresses-made_key path (cmd_gen_key files keys path rng fs),
    inl (λ e. absurd (ground arith)),
  )
  act-Served (service_install config) flags rng fs =
      inl (addresses-install_service config fs, inl (λ e. absurd (ground arith)))
  act-Served service_uninstall flags rng fs =
      inl (addresses-outcome_of _, inl (λ e. absurd (ground arith)))
  act-Served print_completions flags rng fs = inl (refl, inl (λ e. absurd (ground arith)))
  act-Served print_man flags rng fs =
      inl (addresses-man platform.render_man fs, inl (λ e. absurd (ground arith)))
  act-Served Action.cmd_serve flags rng fs = elim (cmd_serve-Served flags rng fs) [
    | inl (silent, fails) ↦ inl (silent, inr fails)
    | inr served ↦ inr (refl, served)
  ]

  -- Where the runtime is there, one of two things happens. The program does not say that it listens;
  -- then it was not told to serve, by the subcommand or by having none, or its exit code is 1. Or it
  -- was told to serve, its start succeeded and the configured address was bound; then it says once
  -- that it listens, on that address, and it ends as russh's loop does. That loop was given a server
  -- with the start's configuration, which answers keys and passwords as the start's authenticators
  -- do, has no certificate check, spawns by the real spawner, and has the start's host key as its
  -- only one.
  pub main-Served :
      (args : Args) (rng : Random) (fs : Fs)
      → let (exit, printed, after) = main platform (ok tt) args rng fs in
        ((addresses printed ≡ []) × ((¬ IsToldToServe args) ⊎ (exit_code exit ≡ 1)))
        ⊎ (IsToldToServe args
            × Served args.flags rng
                (install platform.tracing (verbosity args.flags) fs).1
                printed
                exit)
  unfolding main run
  main-Served args rng fs =
      let told = dispatch-IsToldToServe args in
      elim (act-Served (dispatch args) args.flags rng
        (install platform.tracing (verbosity args.flags) fs).1) [
          | inl (silent, inl other) ↦ inl (silent, inl (λ t. other (told.1 t)))
          | inl (silent, inr fails) ↦ inl (silent, inr fails)
          | inr (serving, served) ↦ inr (told.0 serving, served)
        ]
