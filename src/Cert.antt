-- ===== src/Cert.antt =====
-- crates/esesätsch-core/src/cert.rs: OpenSSH certificates. The certificate type of the `ssh_key`
-- crate, its accessors and its signature check are the argument `ssh`.
pub mod Accept
pub mod Build
pub mod Hygiene
use esesaetsch.Base.{
  ℕ, Bool, true, false, not, ◌&&◌, ◌||◌, Option, none, some, List, [], ◌∷◌, String, if◌then◌else◌,
  nth, any, take, chars, of_chars, replicate, split_whitespace, format, Result, ok, err, map_err,
  ok_or, ◌>>=◌, ltb, leb, eqb, ◌==◌,
}
use esesaetsch.Crates.{Bytes, Decode, ConstantTimeEq}
use esesaetsch.Error.{
  AuthError, credential_mismatch, backend, CertError, untrusted_ca, bad_signature,
  outside_validity_window, principal_mismatch, revoked, unsupported_critical_option,
  wrong_cert_type,
}
use esesaetsch.Std.Utf8.{as_bytes}
use esesaetsch.Auth.{next_u64, scan}

pub data CertType : Type 0 where
  user host : CertType

-- `ssh_key::Certificate`, and `PublicKey::to_bytes` of its signature key.
pub record SshKey : Type 1 where
  pub Certificate : Type 0
  pub from_bytes : Bytes → Result String Certificate
  pub key_id : Certificate → String
  pub serial : Certificate → ℕ
  pub cert_type : Certificate → CertType
  pub valid_principals : Certificate → List String
  pub valid_after : Certificate → ℕ
  pub valid_before : Certificate → ℕ
  pub signature_key : Certificate → Result String Bytes
  pub verify_signature : Certificate → Bool
  pub critical_options : Certificate → List (String × String)

pub record CertGrants : Type 0 where
  pub force_command : Option String

-- `CertGrants::default()`
abbrev pub no_grants : CertGrants
no_grants = record { force_command = none }

-- A reading of the wall clock, relative to the epoch, in seconds.
pub data SystemTime : Type 0 where
  since_epoch before_epoch : ℕ → SystemTime

abbrev pub unix_seconds : SystemTime → ℕ
unix_seconds (since_epoch s) = s
unix_seconds (before_epoch s) = 0

pub record CaTrustCertAuthenticator : Type 0 where
  pub trusted_ca_blobs : List Bytes
  pub revoked_serials : List ℕ
  -- what the clock reads at the call
  pub now : SystemTime
  pub sentinel_ca : Bytes
  pub dummy_work_count : ℕ

-- The trait `CertAuthenticator`, over certificates of some kind.
pub record CertAuthenticator (Certificate : Type 0) : Type 1 where
  pub State : Type 0
  pub verify : State → String → Certificate → Result AuthError CertGrants × State

-- What `verify` gives: the result, the reason that it logs, and the counter after it.
pub record Verdict : Type 0 where
  pub result : Result AuthError CertGrants
  pub logged : Option CertError
  pub after : CaTrustCertAuthenticator

-- `line.chars().take(n)`
abbrev take_chars : ℕ → String → String
take_chars n s = of_chars (take n (chars s))

module _ (decode : Decode) where
  -- the loop of `CaTrustCertAuthenticator::new`
  unfoldable pub decode_cas : List String → Result AuthError (List Bytes)
  decode_cas [] = ok []
  decode_cas (line ∷ lines) = do
    b64 ←
        ok_or (backend (format ("CA entry missing base64 blob: " ∷ take_chars 40 line ∷ [])))
          (nth 1 (split_whitespace line))
    blob ← map_err (λ e. backend (format ("decoding CA: " ∷ e ∷ []))) (decode b64)
    blobs ← decode_cas lines
    ok (blob ∷ blobs)

  unfoldable pub new : SystemTime → List String → List ℕ → Result AuthError CaTrustCertAuthenticator
  new now trusted_cas revoked_serials = do
    blobs ← decode_cas trusted_cas
    ok (record {
      trusted_ca_blobs = blobs;
      revoked_serials = revoked_serials;
      now = now;
      sentinel_ca = replicate 32 0;
      dummy_work_count = 0;
    })

abbrev pub with_clock : CaTrustCertAuthenticator → SystemTime → CaTrustCertAuthenticator
with_clock self now = record self { now = now }

-- The critical options: `force-command` is granted, and any other name is the result's error.
unfoldable pub grant_options : CertGrants → List (String × String) → Result String CertGrants
grant_options grants [] = ok grants
grant_options grants ((name, value) ∷ rest) =
    let more = grant_options (record grants { force_command = some value }) rest in
    if name == "force-command" then more else err name

abbrev is_user : CertType → Bool
is_user user = true
is_user host = false

module _ (ct : ConstantTimeEq) where
  -- The compare with the sentinel has no result; the counter shows that it ran.
  unfoldable pub run_hygiene_work : CaTrustCertAuthenticator → Bytes → CaTrustCertAuthenticator
  run_hygiene_work self payload =
      let compared = ct.ct_eq self.sentinel_ca payload in
      record self { dummy_work_count = next_u64 self.dummy_work_count }

  abbrev reject : CaTrustCertAuthenticator → Bytes → CertError → Verdict
  reject self payload reason = record {
    result = err credential_mismatch;
    logged = some reason;
    after = run_hygiene_work self payload;
  }

  module _ (ssh : SshKey) where
    open ssh use {Certificate}

    -- `ParsedCert::parse`; a `ParsedCert` is the certificate that it wraps.
    unfoldable pub parse : Bytes → Result CertError Certificate
    parse blob = map_err CertError.malformed (ssh.from_bytes blob)

    unfoldable pub signature_key_bytes : Certificate → Result AuthError Bytes
    signature_key_bytes cert =
        map_err (λ e. backend (format ("re-encoding cert signature key: " ∷ e ∷ [])))
          (ssh.signature_key cert)

    -- step 7
    abbrev check_options : CaTrustCertAuthenticator → Certificate → Verdict
    check_options self cert = elim (grant_options no_grants (ssh.critical_options cert)) [
      | ok grants ↦ record { result = ok grants; logged = none; after = self }
      | err other ↦
          reject self (as_bytes "unsupported-option-sentinel") (unsupported_critical_option other)
    ]

    -- steps 2 to 7, from the encoded signature key on
    abbrev check_signed : CaTrustCertAuthenticator → String → Certificate → Bytes → Verdict
    check_signed self username cert sig_key_blob =
        let now_unix = unix_seconds self.now in
        if not (scan ct false self.trusted_ca_blobs sig_key_blob)
        then reject self sig_key_blob untrusted_ca
        else if not (ssh.verify_signature cert)
        then reject self (as_bytes "bad-signature-sentinel") bad_signature
        else if ltb now_unix (ssh.valid_after cert) || leb (ssh.valid_before cert) now_unix
        then reject self (as_bytes "validity-window-sentinel") outside_validity_window
        else if not (any (λ p. p == username) (ssh.valid_principals cert))
        then reject self (as_bytes "principal-sentinel") principal_mismatch
        else if any (λ s. eqb s (ssh.serial cert)) self.revoked_serials
        then reject self (as_bytes "revoked-sentinel") revoked
        else check_options self cert

    unfoldable pub verify : CaTrustCertAuthenticator → String → Certificate → Verdict
    verify self username cert =
        if not (is_user (ssh.cert_type cert))
        then reject self (as_bytes "wrong-cert-type-sentinel") wrong_cert_type
        else elim (signature_key_bytes cert) [
          | err e ↦ record { result = err e; logged = none; after = self }
          | ok sig_key_blob ↦ check_signed self username cert sig_key_blob
        ]

    abbrev pub ca_trust_authenticator : CertAuthenticator Certificate
    ca_trust_authenticator = record {
      State = CaTrustCertAuthenticator;
      verify = λ self username cert.
          let verdict = verify self username cert in (verdict.result, verdict.after);
    }
