-- ===== src/Main/Start.antt =====
-- main.rs: what holds of a server that was started, and what cannot go wrong on the way.
use esesaetsch.Base.{
  Bool, true, false, Option, none, some, String, Result, ok, err, map_err, bind-ok, bind-ne,
  map_err-ne, map_err-ok, subst, ◌≡◌, ◌≢◌, refl, ◌∙◌, ap, Option-cases, arith, Result-cases, inl,
  inr, ◌⊎◌,
}
use esesaetsch.Crates.{Decode}
use esesaetsch.Config.{TomlConfig, Cli, Config, from_sources, validate}
use esesaetsch.Config.Validate.{IsValid, validate_iff}
use esesaetsch.Auth.{AllowlistPubkeyAuthenticator, from_allowlist, PasswordAuthenticator, deny_all}
use esesaetsch.Auth.Build.{from_allowlist-validate}
use esesaetsch.Error.{AuthError}
use esesaetsch.HostKey.{FileSystem, KeyCodec, read_text, load_or_generate}
use esesaetsch.Main.{
  reading_config, parsing_config, password_backend, passwords, StartError, read_config,
  merging_config, validating_config, building_allowlist, Setup, setup_with, load_and_merge_config,
  prepare, start,
}

module _ {Fs Generated PrivateKey Random : Type 0} (files : FileSystem Fs)
    (keys : KeyCodec Generated PrivateKey Random) (decode : Decode)
    (from_str : String → Result String TomlConfig) (native : Option PasswordAuthenticator) where
  -- A configuration that was loaded was found valid.
  load_and_merge_config-validate :
      (flags : Cli) (fs : Fs) (cfg : Config)
      → load_and_merge_config files keys decode from_str native flags fs ≡ ok cfg
      → validate decode cfg ≡ ok tt
  unfolding load_and_merge_config
  load_and_merge_config-validate flags fs cfg h =
      let (toml, _, h1) =
        bind-ok (read_config files keys decode from_str native flags.config_path fs) _ cfg h in
      let (cfg', _, h2) = bind-ok (map_err merging_config (from_sources flags toml)) _ cfg h1 in
      let (_, v, h3) = bind-ok (map_err validating_config (validate decode cfg')) _ cfg h2 in
      let same : cfg' ≡ cfg = ground arith in
      subst (λ c. validate decode c ≡ ok tt) same
        (map_err-ok validating_config (validate decode cfg') tt v)

  -- What is known of the three parts that `cmd_serve` makes before the host key.
  abbrev pub IsPrepared : Config × AllowlistPubkeyAuthenticator × PasswordAuthenticator → Type 1
  IsPrepared (cfg, pubkey_auth, password_auth) =
      IsValid decode cfg
      × (from_allowlist decode cfg.authorized_keys ≡ ok pubkey_auth)
      × (((cfg.password_enabled ≡ false) × (password_auth ≡ deny_all))
          ⊎ ((cfg.password_enabled ≡ true) × (native ≡ some password_auth)))

  backend-passwords :
      (b : Bool) (p : Option PasswordAuthenticator)
      → password_backend files keys decode from_str native b ≡ ok p
      → ((b ≡ false) × (passwords files keys decode from_str native p ≡ deny_all))
        ⊎ ((b ≡ true) × (native ≡ some (passwords files keys decode from_str native p)))
  backend-passwords false p h = let q : p ≡ none = ground arith in rw q (inl (refl, refl))
  backend-passwords true p h = elim (Option-cases native) [
    | inl n ↦ absurd (ground (arith, n))
    | inr (a, n) ↦ let q : p ≡ some a = ground (arith, n) in rw q (inr (refl, n))
  ]

  read_config-err :
      (path : Option String) (fs : Fs) (a : AuthError)
      → read_config files keys decode from_str native path fs ≢ err (building_allowlist a)
  read_config-err none fs a = λ h. ground arith
  read_config-err (some path) fs a =
      bind-ne _ _ _
        (map_err-ne reading_config (read_text (files.read path fs)) _ λ e q. ground (arith, q))
        λ raw.
          bind-ne _ _ _ (map_err-ne parsing_config (from_str raw) _ λ e q. ground (arith, q))
            λ u q. ground (arith, q)

  load_and_merge_config-err :
      (flags : Cli) (fs : Fs) (a : AuthError)
      → load_and_merge_config files keys decode from_str native flags fs
        ≢ err (building_allowlist a)
  unfolding load_and_merge_config
  load_and_merge_config-err flags fs a =
      bind-ne _ _ _ (read_config-err flags.config_path fs a) λ toml.
        bind-ne _ _ _
          (map_err-ne merging_config (from_sources flags toml) _ λ e q. ground (arith, q))
          λ cfg.
            bind-ne _ _ _
              (map_err-ne validating_config (validate decode cfg) _ λ e q. ground (arith, q))
              λ u q. ground (arith, q)

  password_backend-err :
      (b : Bool) (a : AuthError)
      → password_backend files keys decode from_str native b ≢ err (building_allowlist a)
  password_backend-err b a h = ground arith

  -- Every way through `prepare`: it fails, but not in building the allowlist, or its parts fit.
  prepare-cases :
      (flags : Cli) (fs : Fs)
      → ((parts : Config × AllowlistPubkeyAuthenticator × PasswordAuthenticator) × (prepare files
              keys decode from_str native flags fs
            ≡ ok parts)
          × IsPrepared parts)
        ⊎ ((e : StartError) × (prepare files keys decode from_str native flags fs ≡ err e)
            × ((a : AuthError) → e ≢ building_allowlist a))
  unfolding prepare
  prepare-cases flags fs =
      elim (Result-cases (load_and_merge_config files keys decode from_str native flags fs)) [
        | inr (e, bad) ↦
            inr (e, rw bad refl, λ a q. load_and_merge_config-err flags fs a (bad ∙ ap err q))
        | inl (cfg, loaded) ↦
            let valid = load_and_merge_config-validate flags fs cfg loaded in
            let (auth, built) = from_allowlist-validate decode cfg valid in
            elim (Result-cases
              (password_backend files keys decode from_str native cfg.password_enabled)) [
                | inr (e, missing) ↦ inr (
                  e,
                  rw loaded (rw built (rw missing refl)),
                  λ a q. password_backend-err cfg.password_enabled a (missing ∙ ap err q),
                )
                | inl (p, found) ↦ inl (
                  (cfg, auth, passwords files keys decode from_str native p),
                  rw loaded (rw built (rw found refl)),
                  (
                    (validate_iff decode cfg).0 valid,
                    built,
                    backend-passwords cfg.password_enabled p found,
                  ),
                )
              ]
      ]

  -- The start of the server never fails in building the allowlist: a configuration that passed
  -- validation is one from which the allowlist can be built.
  pub start-building_allowlist :
      (flags : Cli) (rng : Random) (fs : Fs) (a : AuthError)
      → (start files keys decode from_str native flags rng fs).0 ≢ err (building_allowlist a)
  unfolding start
  start-building_allowlist flags rng fs a = elim (prepare-cases flags fs) [
    | inr (e, bad, other) ↦ rw (bad, start) (λ q. other a (ground (arith, q)))
    | inl (parts, made, fits) ↦
        rw (made, start)
          (bind-ne _ _ _
            (map_err-ne StartError.host_key (load_or_generate files keys parts.0.host_key rng fs).0
              _ λ e q. ground (arith, q))
            λ k q. ground (arith, q))
  ]

  -- A server that was started has a valid configuration, the allowlist of that configuration, the
  -- system's password check where passwords are enabled and the one that denies all where they are
  -- not, no certificate check, and the host key at the configured path.
  pub start-ok :
      (flags : Cli) (rng : Random) (fs : Fs) (setup : Setup PrivateKey)
      → (start files keys decode from_str native flags rng fs).0 ≡ ok setup
      → IsPrepared (setup.config, setup.pubkey_auth, setup.password_auth)
        × (setup.has_cert_auth ≡ false)
        × ((load_or_generate files keys setup.config.host_key rng fs).0 ≡ ok setup.host_key)
  unfolding start
  start-ok flags rng fs setup h = elim (prepare-cases flags fs) [
    | inr (e, bad, other) ↦ absurd (ground (arith, bad))
    | inl (parts, made, fits) ↦
        let (key, loaded, e) =
          bind-ok
            (map_err StartError.host_key (load_or_generate files keys parts.0.host_key rng fs).0)
            (λ k. ok (setup_with files keys decode from_str native parts k)) setup
            (rw (made, start) at h) in
        let same : setup_with files keys decode from_str native parts key ≡ setup =
          ground (arith, e) in
        subst
          (λ s.
            IsPrepared (s.config, s.pubkey_auth, s.password_auth)
            × (s.has_cert_auth ≡ false)
            × ((load_or_generate files keys s.config.host_key rng fs).0 ≡ ok s.host_key))
          same (fits, refl, map_err-ok StartError.host_key _ key loaded)
  ]
