-- ===== src/Cert/Accept.antt =====
-- Which certificates `verify` accepts, and with which grants.
use esesaetsch.Base.{
  ℕ, ◌≤◌, ◌<◌, true, false, Option, none, some, List, [], ◌∷◌, String, ◌≡◌, ◌≢◌, refl, ◌↔◌, inl,
  inr, any, All, Some, eqb, ◌==◌, eq_iff, ok, arith, Result-cases,
}
use esesaetsch.Crates.{Bytes, ConstantTimeEq}
use esesaetsch.Auth.Verify.{scan_iff}
use esesaetsch.Cert.{
  CertType, SshKey, CertGrants, no_grants, unix_seconds, CaTrustCertAuthenticator, grant_options,
  signature_key_bytes, verify,
}

-- The value of the last option, if there is one.
abbrev pub last_value : Option String → List (String × String) → Option String
last_value v [] = v
last_value v ((_, value) ∷ rest) = last_value (some value) rest

abbrev IsKnown : String × String → Type 0
IsKnown option = option.0 ≡ "force-command"

any_name_iff :
    (name : String) (names : List String)
    → (any (λ p. p == name) names ≡ true) ↔ Some (λ p. p ≡ name) names
unfolding any
any_name_iff name [] = (λ h. absurd (ground arith), λ s. absurd s)
any_name_iff name (p ∷ names) = (
  λ h. ground (arith, eq_iff p name, (any_name_iff name names).0),
  λ s. ground (arith, eq_iff p name, (any_name_iff name names).1),
)

any_serial_iff :
    (n : ℕ) (serials : List ℕ) → (any (λ s. eqb s n) serials ≡ false) ↔ All (λ s. s ≢ n) serials
unfolding any
any_serial_iff n [] = (λ _. tt, λ _. refl)
any_serial_iff n (s ∷ serials) = (
  λ h. (ground arith, (any_serial_iff n serials).0 (ground arith)),
  λ (here, later). ground (arith, (any_serial_iff n serials).1 later),
)

grant_options_iff :
    (old grants : CertGrants) (options : List (String × String))
    → (grant_options old options ≡ ok grants)
      ↔ (All IsKnown options × (grants.force_command ≡ last_value old.force_command options))
unfolding grant_options
grant_options_iff old grants [] = (λ h. (tt, ground arith), λ (_, e). ground arith)
grant_options_iff old grants ((name, value) ∷ rest) =
    let old' : CertGrants = record old { force_command = some value } in
    let ih = grant_options_iff old' grants rest in
    (
      λ h.
          let known : (name == "force-command") ≡ true = ground arith in
          let (later, e) = ih.0 (ground arith) in
          (((eq_iff name "force-command").0 known, later), e),
      λ ((here, later), e). rw ((eq_iff name "force-command").1 here) (ih.1 (later, e)),
    )

module _ (ct : ConstantTimeEq) (ssh : SshKey) where
  open ssh use {Certificate}

  -- The certificate is a user certificate, whose signature by a trusted CA verifies, inside its
  -- validity window, for this user, not revoked, and with no option but `force-command`, which is
  -- what it grants.
  pub record Accepts (self : CaTrustCertAuthenticator) (username : String) (cert : Certificate)
      (grants : CertGrants) : Type 0 where
    pub for_users : ssh.cert_type cert ≡ CertType.user
    pub ca : Bytes
    pub encoded : ssh.signature_key cert ≡ ok ca
    pub trusted : Some (λ b. b ≡ ca) self.trusted_ca_blobs
    pub signed : ssh.verify_signature cert ≡ true
    pub begun : ssh.valid_after cert ≤ unix_seconds self.now
    pub not_over : unix_seconds self.now < ssh.valid_before cert
    pub principal : Some (λ p. p ≡ username) (ssh.valid_principals cert)
    pub not_revoked : All (λ s. s ≢ ssh.serial cert) self.revoked_serials
    pub known_options : All IsKnown (ssh.critical_options cert)
    pub granted : grants.force_command ≡ last_value none (ssh.critical_options cert)

  verify_sound :
      (self : CaTrustCertAuthenticator) (username : String) (cert : Certificate)
      (grants : CertGrants)
      → (verify ct ssh self username cert).result ≡ ok grants
      → Accepts self username cert grants
  unfolding verify signature_key_bytes
  verify_sound self username cert grants h = elim (Result-cases (ssh.signature_key cert)) [
    | inr (e, p) ↦ absurd (ground arith)
    | inl (ca, p) ↦
        let options =
          (grant_options_iff no_grants grants (ssh.critical_options cert)).0 (ground arith) in
        record {
          for_users = ground arith;
          ca = ca;
          encoded = p;
          trusted = ground (arith, (scan_iff ct false self.trusted_ca_blobs ca).0);
          signed = ground arith;
          begun = ground arith;
          not_over = ground arith;
          principal = (any_name_iff username (ssh.valid_principals cert)).0 (ground arith);
          not_revoked = (any_serial_iff (ssh.serial cert) self.revoked_serials).0 (ground arith);
          known_options = options.0;
          granted = options.1;
        }
  ]

  verify_complete :
      (self : CaTrustCertAuthenticator) (username : String) (cert : Certificate)
      (grants : CertGrants)
      → Accepts self username cert grants
      → (verify ct ssh self username cert).result ≡ ok grants
  unfolding verify signature_key_bytes
  verify_complete self username cert grants a = ground (
    arith,
    a.for_users,
    a.encoded,
    (scan_iff ct false self.trusted_ca_blobs a.ca).1 (inr a.trusted),
    a.signed,
    a.begun,
    a.not_over,
    (any_name_iff username (ssh.valid_principals cert)).1 a.principal,
    (any_serial_iff (ssh.serial cert) self.revoked_serials).1 a.not_revoked,
    (grant_options_iff no_grants grants (ssh.critical_options cert)).1 (a.known_options, a.granted),
  )

  -- `verify` accepts a certificate exactly when it is a user certificate whose signature, by a
  -- trusted CA, verifies, whose window [valid_after, valid_before) holds the present second, that
  -- names the user among its principals, whose serial is not revoked, and that has no critical
  -- option but `force-command`; what it grants is then the value of that option.
  pub verify_iff :
      (self : CaTrustCertAuthenticator) (username : String) (cert : Certificate)
      (grants : CertGrants)
      → ((verify ct ssh self username cert).result ≡ ok grants) ↔ Accepts self username cert grants
  verify_iff self username cert grants =
      (verify_sound self username cert grants, verify_complete self username cert grants)
