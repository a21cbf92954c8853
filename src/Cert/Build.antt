-- ===== src/Cert/Build.antt =====
-- `CaTrustCertAuthenticator::new`: when it succeeds, and which signing keys it trusts.
use esesaetsch.Base.{
  ℕ, List, [], ◌∷◌, String, ◌≡◌, refl, ◌≢◌, All, Some, replicate, format, Result, ok, arith,
}
use esesaetsch.Crates.{Bytes, Decode, ConstantTimeEq}
use esesaetsch.KeyLines.{IsKeyLine, HasKey, Decodes, Decodes-iff, read_line, read_line_sound}
use esesaetsch.Error.{AuthError, backend}
use esesaetsch.Config.{Config, validate}
use esesaetsch.Config.Validate.{validate_iff}
use esesaetsch.Cert.{
  SshKey, SystemTime, CertGrants, CaTrustCertAuthenticator, decode_cas, take_chars, new, verify,
}
use esesaetsch.Cert.Accept.{verify_iff}

module _ (decode : Decode) where
  abbrev ca_line : String → Result AuthError Bytes
  ca_line line =
      read_line decode
        (backend (format ("CA entry missing base64 blob: " ∷ take_chars 40 line ∷ [])))
        (λ e. backend (format ("decoding CA: " ∷ e ∷ []))) line

  decode_cas_sound :
      (lines : List String) (blobs : List Bytes)
      → decode_cas decode lines ≡ ok blobs
      → Decodes decode lines blobs
  unfolding decode_cas
  decode_cas_sound [] [] h = tt
  decode_cas_sound [] (_ ∷ _) h = absurd (ground arith)
  decode_cas_sound (line ∷ lines) [] h = absurd (ground arith)
  decode_cas_sound (line ∷ lines) (key ∷ blobs) h = (
    read_line_sound decode _ _ line key (let e : ca_line line ≡ ok key = ground arith in e),
    decode_cas_sound lines blobs (ground arith),
  )

  decode_cas_total :
      (lines : List String)
      → All (HasKey decode) lines
      → (blobs : List Bytes) × (decode_cas decode lines ≡ ok blobs)
  unfolding decode_cas
  decode_cas_total [] h = ([], refl)
  decode_cas_total (line ∷ lines) ((key, (word, e, d)), later) =
      let (rest, r) = decode_cas_total lines later in (key ∷ rest, ground arith)

  -- A configuration that validates gives a certificate authenticator.
  pub new-validate :
      (c : Config) (now : SystemTime)
      → validate decode c ≡ ok tt
      → (a : CaTrustCertAuthenticator) × (new decode now c.ca_trusted c.ca_revoked_serials ≡ ok a)
  unfolding new
  new-validate c now h =
      let (blobs, e) = decode_cas_total c.ca_trusted ((validate_iff decode c).0 h).cas in
      (
        record {
          trusted_ca_blobs = blobs;
          revoked_serials = c.ca_revoked_serials;
          now = now;
          sentinel_ca = replicate 32 0;
          dummy_work_count = 0;
        },
        rw e,
      )

  new-Decodes :
      (now : SystemTime) (cas : List String) (serials : List ℕ) (a : CaTrustCertAuthenticator)
      → new decode now cas serials ≡ ok a
      → Decodes decode cas a.trusted_ca_blobs × (a.revoked_serials ≡ serials) × (a.now ≡ now)
  unfolding new
  new-Decodes now cas serials a h =
      (decode_cas_sound cas a.trusted_ca_blobs (ground arith), ground arith, ground arith)

  -- An authenticator that is built from the configured lines and serials accepts no certificate
  -- but one that is signed with the key of one of these lines and whose serial is none of these.
  pub verify-new :
      (ct : ConstantTimeEq) (ssh : SshKey) (now : SystemTime) (cas : List String) (serials : List ℕ)
      (a : CaTrustCertAuthenticator) (username : String) (cert : ssh.Certificate)
      (grants : CertGrants)
      → new decode now cas serials ≡ ok a
      → (verify ct ssh a username cert).result ≡ ok grants
      → (ca : Bytes) × (ssh.signature_key cert ≡ ok ca)
        × Some (IsKeyLine decode ca) cas
        × All (λ s. s ≢ ssh.serial cert) serials
  verify-new ct ssh now cas serials a username cert grants built accepted =
      let v = (verify_iff ct ssh a username cert grants).0 accepted in
      let (decoded, same, _) = new-Decodes now cas serials a built in
      (
        v.ca,
        v.encoded,
        (Decodes-iff decode cas a.trusted_ca_blobs v.ca decoded).0 v.trusted,
        rw same at v.not_revoked,
      )
