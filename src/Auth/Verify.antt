-- ===== src/Auth/Verify.antt =====
-- The allowlist accepts exactly the listed keys, and counts the attempts of unknown users.
use esesaetsch.Base.{
  ℕ, ◌+◌, ◌%◌, ◌^◌, Bool, true, false, ◌||◌, none, some, List, [], ◌∷◌, String, ◌≡◌, refl, ◌⊎◌, ◌↔◌,
  inl, inr, Some, ok, arith, Option-cases, ap, ◌∙◌,
}
use esesaetsch.Std.Map.{Map, get}
use esesaetsch.Crates.{Bytes, ConstantTimeEq}
use esesaetsch.Auth.{AllowlistPubkeyAuthenticator, scan, verify}

abbrev unknown : Map (List Bytes) → String → ℕ
unknown keys user = elim (get user keys) [ none ↦ 1 | some _ ↦ 0 ]

abbrev pub count_unknown : Map (List Bytes) → List (String × Bytes) → ℕ
count_unknown keys [] = 0
count_unknown keys ((user, key) ∷ rest) = unknown keys user + count_unknown keys rest

module _ (ct : ConstantTimeEq) where
  open ct use {ct_eq, ct_eq_iff}

  pub scan_iff :
      (matched : Bool) (blobs : List Bytes) (key : Bytes)
      → (scan ct matched blobs key ≡ true) ↔ ((matched ≡ true) ⊎ Some (λ b. b ≡ key) blobs)
  unfolding scan
  scan_iff matched [] key = (λ h. inl h, λ s. ground arith)
  scan_iff matched (b ∷ blobs) key = (
    λ h. ground (arith, (scan_iff (matched || ct_eq b key) blobs key).0 h, ct_eq_iff b key),
    λ s. (scan_iff (matched || ct_eq b key) blobs key).1 (ground (arith, ct_eq_iff b key)),
  )

  -- A key is accepted exactly when the user is listed and one of the user's blobs is the key.
  pub verify_iff :
      (self : AllowlistPubkeyAuthenticator) (user : String) (key : Bytes)
      → ((verify ct self user key).0 ≡ ok tt)
        ↔ ((blobs : List Bytes) × (get user self.keys ≡ some blobs) × Some (λ b. b ≡ key) blobs)
  unfolding verify
  verify_iff self user key = elim (Option-cases (get user self.keys)) [
    | inl e ↦ (λ h. absurd (ground arith), λ (blobs, listed, _). absurd (ground arith))
    | inr (blobs, e) ↦ (
      λ h. (blobs, e, ground (arith, (scan_iff false blobs key).0)),
      λ (bs, listed, s). ground (arith, (scan_iff false bs key).1 (inr s)),
    )
  ]

  -- A series of attempts on one authenticator, and how many name a user that is not listed.
  abbrev pub attempts :
      AllowlistPubkeyAuthenticator → List (String × Bytes) → AllowlistPubkeyAuthenticator
  attempts self [] = self
  attempts self ((user, key) ∷ rest) = attempts (verify ct self user key).1 rest

  keys-verify :
      (self : AllowlistPubkeyAuthenticator) (user : String) (key : Bytes)
      → (verify ct self user key).1.keys ≡ self.keys
  unfolding verify
  keys-verify self user key = ground arith

  compares-verify :
      (self : AllowlistPubkeyAuthenticator) (user : String) (key : Bytes)
      → (verify ct self user key).1.sentinel_compares % 2 ^ 64
        ≡ (self.sentinel_compares + unknown self.keys user) % 2 ^ 64
  unfolding verify
  compares-verify self user key = ground arith

  -- After any attempts the sentinel counter, a 64-bit number, has grown by the number of attempts
  -- that named an unlisted user, and the keys are as they were.
  pub sentinel_compares-attempts :
      (self : AllowlistPubkeyAuthenticator) (tries : List (String × Bytes))
      → ((attempts self tries).sentinel_compares % 2 ^ 64
          ≡ (self.sentinel_compares + count_unknown self.keys tries) % 2 ^ 64)
        × ((attempts self tries).keys ≡ self.keys)
  sentinel_compares-attempts self [] = (ground arith, refl)
  sentinel_compares-attempts self ((user, key) ∷ rest) =
      let self' = (verify ct self user key).1 in
      let (counted, kept) = sentinel_compares-attempts self' rest in
      let same = keys-verify self user key in
      (
        omega (arith, ap (λ keys. count_unknown keys rest) same, compares-verify self user key),
        kept ∙ same,
      )
