-- ===== src/Config/Validate.antt =====
-- `Config::validate` accepts exactly the configurations that meet the documented rules.
use esesaetsch.Base.{
  true, false, List, [], ◌∷◌, String, ◌≡◌, refl, ◌⊎◌, ◌↔◌, ◌≢◌, inl, inr, nth, any, All,
  split_whitespace, ok, arith, Option-cases, Result-cases, ◌==◌, eq_iff,
}
use esesaetsch.Std.Map.{Map}
use esesaetsch.Std.Path.{parts, has_parent_dir}
use esesaetsch.Crates.{Decode}
use esesaetsch.KeyLines.{HasKey}
use esesaetsch.Config.{Config, SocketAddr, parse_pubkey_blob, check_keys, check_users, validate}

module _ (decode : Decode) where
  parse_pubkey_blob_sound :
      (line : String) → parse_pubkey_blob decode line ≡ ok tt → HasKey decode line
  unfolding parse_pubkey_blob
  parse_pubkey_blob_sound line h = elim (Option-cases (nth 1 (split_whitespace line))) [
    | inl e ↦ absurd (ground arith)
    | inr (word, e) ↦ elim (Result-cases (decode word)) [
      | inl (key, d) ↦ (key, (word, e, d))
      | inr (detail, d) ↦ absurd (ground arith)
    ]
  ]

  parse_pubkey_blob_complete :
      (line : String) → HasKey decode line → parse_pubkey_blob decode line ≡ ok tt
  unfolding parse_pubkey_blob
  parse_pubkey_blob_complete line (key, (word, e, d)) = rw (e, d) refl

  check_keys_iff :
      (user : String) (lines : List String)
      → (check_keys decode user lines ≡ ok tt) ↔ All (HasKey decode) lines
  unfolding check_keys
  check_keys_iff user [] = (λ _. tt, λ _. refl)
  check_keys_iff user (line ∷ lines) = (
    λ h.
        (parse_pubkey_blob_sound line (ground arith), (check_keys_iff user lines).0 (ground arith)),
    λ (here, later).
        rw (parse_pubkey_blob_complete line here) ((check_keys_iff user lines).1 later),
  )

  check_users_iff :
      (users : Map (List String))
      → (check_users decode users ≡ ok tt) ↔ All (λ entry. All (HasKey decode) entry.1) users
  unfolding check_users
  check_users_iff [] = (λ _. tt, λ _. refl)
  check_users_iff ((user, lines) ∷ users) = (
    λ h. ((check_keys_iff user lines).0 (ground arith), (check_users_iff users).0 (ground arith)),
    λ (here, later). rw ((check_keys_iff user lines).1 here) ((check_users_iff users).1 later),
  )

  -- The rules 3 to 7 of docs/user-guide/configuration.md.
  pub record IsValid (c : Config) : Type 0 where
    pub method : (c.pubkey_enabled ≡ true) ⊎ (c.password_enabled ≡ true) ⊎ (c.cert_enabled ≡ true)
    pub keys : All (λ entry. All (HasKey decode) entry.1) c.authorized_keys
    pub has_ca : c.cert_enabled ≡ true → c.ca_trusted ≢ []
    pub cas : All (HasKey decode) c.ca_trusted
    pub path : All (λ part. part ≢ "..") (parts c.host_key)

  any_parent_iff :
      (ps : List String) → (any (λ part. part == "..") ps ≡ false) ↔ All (λ part. part ≢ "..") ps
  unfolding any
  any_parent_iff [] = (λ _. tt, λ _. refl)
  any_parent_iff (part ∷ ps) = (
    λ h. (ground (arith, eq_iff part ".."), (any_parent_iff ps).0 (ground arith)),
    λ (here, later). ground (arith, eq_iff part "..", (any_parent_iff ps).1 later),
  )

  has_parent_dir_iff :
      (path : String) → (has_parent_dir path ≡ false) ↔ All (λ part. part ≢ "..") (parts path)
  unfolding has_parent_dir
  has_parent_dir_iff path = any_parent_iff (parts path)

  validate_sound : (c : Config) → validate decode c ≡ ok tt → IsValid c
  unfolding validate
  validate_sound c h = record {
    method = ground arith;
    keys = (check_users_iff c.authorized_keys).0 (ground arith);
    has_ca = λ on e. ground arith;
    cas = (check_keys_iff "<ca>" c.ca_trusted).0 (ground arith);
    path = (has_parent_dir_iff c.host_key).0 (ground arith);
  }

  validate_complete : (c : Config) → IsValid c → validate decode c ≡ ok tt
  unfolding validate
  validate_complete c v = ground (
    arith,
    v.method,
    (check_users_iff c.authorized_keys).1 v.keys,
    v.has_ca,
    (check_keys_iff "<ca>" c.ca_trusted).1 v.cas,
    (has_parent_dir_iff c.host_key).1 v.path,
  )

  -- `validate` succeeds exactly when some method is enabled, each line of the allowlist and of the
  -- trusted CAs holds a key that decodes, a CA is there if certificates are enabled, and no part of
  -- the host-key path between slashes is `..`.
  pub validate_iff : (c : Config) → (validate decode c ≡ ok tt) ↔ IsValid c
  validate_iff c = (validate_sound c, validate_complete c)

  -- The result of `validate` does not depend on the address and the port: port 0 passes as well.
  pub validate-port :
      (c : Config) (addr : SocketAddr)
      → validate decode (record c { bind = addr }) ≡ validate decode c
  unfolding validate
  validate-port c addr = refl
