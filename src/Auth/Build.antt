-- ===== src/Auth/Build.antt =====
-- `from_allowlist`: when it succeeds, and what the authenticator that it builds accepts.
use esesaetsch.Base.{
  Option, none, some, List, [], ◌∷◌, String, ◌≡◌, refl, ◌⊎◌, ◌↔◌, inl, inr, All, Result, Some,
  format, ok, arith, Result-cases, Bool-cases, ◌==◌, eq_iff, subst, replicate, ◌∙◌,
}
use esesaetsch.Std.Map.{Map, get, insert, get-insert, IsDistinct}
use esesaetsch.Crates.{Bytes, Decode, ConstantTimeEq}
use esesaetsch.Config.{Config, validate}
use esesaetsch.KeyLines.{IsKeyLine, HasKey, Decodes, Decodes-iff, read_line, read_line_sound}
use esesaetsch.Error.{AuthError, backend}
use esesaetsch.Config.Validate.{validate_iff}
use esesaetsch.Auth.{
  AllowlistPubkeyAuthenticator, decode_lines, decode_users, from_allowlist, verify,
}
use esesaetsch.Auth.Verify.{verify_iff}

module _ (decode : Decode) where
  abbrev line_of : String → String → Result AuthError Bytes
  line_of user =
      read_line decode
        (backend (format ("allowlist entry for " ∷ user ∷ " missing base64 blob" ∷ [])))
        (λ e. backend (format ("decoding key for " ∷ user ∷ ": " ∷ e ∷ [])))

  decode_lines_sound :
      (user : String) (lines : List String) (blobs : List Bytes)
      → decode_lines decode user lines ≡ ok blobs
      → Decodes decode lines blobs
  unfolding decode_lines
  decode_lines_sound user [] [] h = tt
  decode_lines_sound user [] (_ ∷ _) h = absurd (ground arith)
  decode_lines_sound user (line ∷ lines) [] h = absurd (ground arith)
  decode_lines_sound user (line ∷ lines) (key ∷ blobs) h = (
    read_line_sound decode _ _ line key (let e : line_of user line ≡ ok key = ground arith in e),
    decode_lines_sound user lines blobs (ground arith),
  )

  decode_lines_total :
      (user : String) (lines : List String)
      → All (HasKey decode) lines
      → (blobs : List Bytes) × (decode_lines decode user lines ≡ ok blobs)
  unfolding decode_lines
  decode_lines_total user [] h = ([], refl)
  decode_lines_total user (line ∷ lines) ((key, (word, e, d)), later) =
      let (rest, r) = decode_lines_total user lines later in (key ∷ rest, ground arith)

  decode_users_total :
      (keys : Map (List Bytes)) (users : Map (List String))
      → All (λ entry. All (HasKey decode) entry.1) users
      → (keys' : Map (List Bytes)) × (decode_users decode keys users ≡ ok keys')
  unfolding decode_users
  decode_users_total keys [] h = (keys, refl)
  decode_users_total keys ((user, lines) ∷ users) (here, later) =
      let (blobs, b) = decode_lines_total user lines here in
      let (keys', k) = decode_users_total (insert user blobs keys) users later in
      (keys', ground arith)

  -- What the blobs of a user are after the loop, from those before it.
  abbrev Loaded : Map (List String) → String → Option (List Bytes) → Option (List Bytes) → Type 0
  Loaded users u before after =
      ((get u users ≡ none) × (after ≡ before))
      ⊎ ((lines : List String) × (blobs : List Bytes) × (get u users ≡ some lines)
          × (decode_lines decode u lines ≡ ok blobs)
          × (after ≡ some blobs))

  decode_users-get_cons :
      (keys keys' : Map (List Bytes)) (users : Map (List String)) (user u : String)
      (lines : List String) (blobs : List Bytes)
      → get user users ≡ none
      → decode_lines decode user lines ≡ ok blobs
      → Loaded users u (get u (insert user blobs keys)) (get u keys')
      → Loaded ((user, lines) ∷ users) u (get u keys) (get u keys')
  unfolding get
  decode_users-get_cons keys keys' users user u lines blobs fresh l ih =
      elim (Bool-cases (user == u)) [
        | inr other ↦ elim ih [
          | inl (a, b) ↦ inl (rw other a, b ∙ get-insert user u blobs keys ∙ rw other refl)
          | inr (ls, bs, a, b, c) ↦ inr (ls, bs, rw other a, b, c)
        ]
        | inl same ↦
            let e : user ≡ u = (eq_iff user u).0 same in
            elim ih [
              | inl (a, b) ↦ inr (
                lines,
                blobs,
                rw same refl,
                subst (λ k. decode_lines decode k lines ≡ ok blobs) e l,
                b ∙ get-insert user u blobs keys ∙ rw same refl,
              )
              | inr (ls, bs, a, b, c) ↦
                  let none_left : get u users ≡ none = subst (λ k. get k users ≡ none) e fresh in
                  absurd (ground arith)
            ]
      ]

  decode_users-get :
      (keys keys' : Map (List Bytes)) (users : Map (List String)) (u : String)
      → IsDistinct users
      → decode_users decode keys users ≡ ok keys'
      → Loaded users u (get u keys) (get u keys')
  unfolding decode_users get
  decode_users-get keys keys' [] u h e = inl (refl, ground arith)
  decode_users-get keys keys' ((user, lines) ∷ users) u (fresh, distinct) e =
      elim (Result-cases (decode_lines decode user lines)) [
        | inr (later, l) ↦ absurd (ground arith)
        | inl (blobs, l) ↦
            decode_users-get_cons keys keys' users user u lines blobs fresh l
              (decode_users-get (insert user blobs keys) keys' users u distinct (ground arith))
      ]

  from_allowlist-keys :
      (allowlist : Map (List String)) (a : AllowlistPubkeyAuthenticator)
      → from_allowlist decode allowlist ≡ ok a
      → decode_users decode [] allowlist ≡ ok a.keys
  unfolding from_allowlist
  from_allowlist-keys allowlist a h = ground arith

  -- A configuration that validates gives an authenticator: the second decoding of the allowlist
  -- cannot fail.
  pub from_allowlist-validate :
      (c : Config)
      → validate decode c ≡ ok tt
      → (a : AllowlistPubkeyAuthenticator) × (from_allowlist decode c.authorized_keys ≡ ok a)
  unfolding from_allowlist
  from_allowlist-validate c h =
      let v = (validate_iff decode c).0 h in
      let (keys, e) = decode_users_total [] c.authorized_keys v.keys in
      (record { keys = keys; sentinel = replicate 32 0; sentinel_compares = 0 }, rw e refl)

  -- From the allowlist to the verdict: an authenticator that is built from an allowlist with no
  -- user twice accepts a key for a user exactly when one of the user's lines holds that key.
  pub verify-from_allowlist :
      (ct : ConstantTimeEq) (allowlist : Map (List String)) (a : AllowlistPubkeyAuthenticator)
      (user : String) (key : Bytes)
      → IsDistinct allowlist
      → from_allowlist decode allowlist ≡ ok a
      → ((verify ct a user key).0 ≡ ok tt) ↔ (
          (lines : List String) × (get user allowlist ≡ some lines)
          × Some (IsKeyLine decode key) lines)
  verify-from_allowlist ct allowlist a user key distinct h =
      let loaded =
        decode_users-get [] a.keys allowlist user distinct (from_allowlist-keys allowlist a h) in
      let (sound, complete) = verify_iff ct a user key in
      elim loaded [
        | inl (absent, e) ↦ (
          λ accepted. let (bs, listed, s) = sound accepted in absurd (unfold get in ground arith),
          λ (lines, listed, s). absurd (ground arith),
        )
        | inr (lines, blobs, listed, decoded, e) ↦ (
          λ accepted.
              let (bs, found, s) = sound accepted in
              let same : bs ≡ blobs = ground arith in
              (
                lines,
                listed,
                (Decodes-iff decode lines blobs key (decode_lines_sound user lines blobs decoded)).0
                    (rw same at s),
              ),
          λ (ls, listed', s).
              let same : ls ≡ lines = ground arith in
              complete (
                blobs,
                e,
                (Decodes-iff decode lines blobs key (decode_lines_sound user lines blobs decoded)).1
                    (rw same at s),
              ),
        )
      ]
