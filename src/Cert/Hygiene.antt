-- ===== src/Cert/Hygiene.antt =====
-- What a client learns, and what the hygiene counter records, on each way out of `verify`.
use esesaetsch.Base.{
  Bool, true, false, none, some, [], ◌∷◌, String, ◌≡◌, refl, ◌⊎◌, inl, inr, ok, err, format,
  Result-cases, if◌then◌else◌,
}
use esesaetsch.Crates.{Bytes, ConstantTimeEq}
use esesaetsch.Error.{credential_mismatch, backend, CertError}
use esesaetsch.Auth.{next_u64}
use esesaetsch.Cert.{
  CertType, SshKey, CertGrants, no_grants, CaTrustCertAuthenticator, Verdict, grant_options,
  run_hygiene_work, reject, signature_key_bytes, check_options, check_signed, verify,
}

-- The ways out of `verify`: accepted, with nothing logged and no sentinel work; rejected as a
-- credential mismatch, with a reason in the log and the counter one further.
pub data Outcome (self : CaTrustCertAuthenticator) (v : Verdict) : Type 0 where
  accepted :
      (grants : CertGrants)
      → v.result ≡ ok grants
      → v.logged ≡ none
      → v.after ≡ self
      → Outcome self v
  rejected :
      (reason : CertError)
      → v.result ≡ err credential_mismatch
      → v.logged ≡ some reason
      → v.after ≡ record self { dummy_work_count = next_u64 self.dummy_work_count }
      → Outcome self v

CertType-cases : (t : CertType) → (t ≡ CertType.user) ⊎ (t ≡ CertType.host)
CertType-cases CertType.user = inl refl
CertType-cases CertType.host = inr refl

Outcome-if :
    {self : CaTrustCertAuthenticator} (b : Bool) {v w : Verdict}
    → Outcome self v
    → Outcome self w
    → Outcome self (if b then v else w)
Outcome-if true p q = p
Outcome-if false p q = q

module _ (ct : ConstantTimeEq) (self : CaTrustCertAuthenticator) where
  reject-Outcome :
      (payload : Bytes) (reason : CertError) → Outcome self (reject ct self payload reason)
  unfolding run_hygiene_work
  reject-Outcome payload reason = rejected reason refl refl refl

  module _ (ssh : SshKey) where
    open ssh use {Certificate}

    check_options-Outcome : (cert : Certificate) → Outcome self (check_options ct ssh self cert)
    check_options-Outcome cert =
        elim (Result-cases (grant_options no_grants (ssh.critical_options cert))) [
          | inl (grants, e) ↦ rw (e, check_options) (accepted grants refl refl refl)
          | inr (other, e) ↦ rw (e, check_options) (reject-Outcome _ _)
        ]

    check_signed-Outcome :
        (username : String) (cert : Certificate) (blob : Bytes)
        → Outcome self (check_signed ct ssh self username cert blob)
    check_signed-Outcome username cert blob =
        search (Outcome-if, reject-Outcome, check_options-Outcome) depth 9

    -- Every way out of `verify` is one of three. It accepts, with nothing logged and the counter
    -- of the sentinel work as before. Or it rejects with a credential mismatch, logs a reason, and
    -- the counter is one further. Or the signature key of a user certificate cannot be encoded:
    -- then the error is a backend error, nothing is logged and the counter is as before.
    pub verify-Outcome :
        (username : String) (cert : Certificate)
        → Outcome self (verify ct ssh self username cert)
          ⊎ ((e : String) × (ssh.cert_type cert ≡ CertType.user)
              × (ssh.signature_key cert ≡ err e)
              × (verify ct ssh self username cert ≡ record {
                result = err (backend (format ("re-encoding cert signature key: " ∷ e ∷ [])));
                logged = none;
                after = self;
              }))
    unfolding verify signature_key_bytes
    verify-Outcome username cert = elim (CertType-cases (ssh.cert_type cert)) [
      | inr h ↦ inl (rw h (reject-Outcome _ _))
      | inl u ↦ elim (Result-cases (ssh.signature_key cert)) [
        | inl (blob, k) ↦ inl (rw (u, k) (check_signed-Outcome username cert blob))
        | inr (e, k) ↦ inr (e, u, k, rw (u, k) refl)
      ]
    ]
