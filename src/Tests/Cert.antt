-- ===== src/Tests/Cert.antt =====
-- cert.rs: sample certificates before a sample authority.
use esesaetsch.Base.{
  ℕ, Bool, true, false, none, some, List, [], ◌∷◌, String, Result, ok, err, ◌≡◌, ◌≢◌, refl, ◌↔◌,
  ◌⊎◌, inl, inr, Some, All, format,
}
use esesaetsch.Crates.{Bytes, bytewise}
use esesaetsch.Error.{backend, revoked, untrusted_ca, unsupported_critical_option}
use esesaetsch.KeyLines.{IsKeyLine}
use esesaetsch.Cert.{CertType, CertGrants, CaTrustCertAuthenticator, since_epoch, new, verify}
use esesaetsch.Cert.Accept.{Accepts, verify_iff}
use esesaetsch.Cert.Hygiene.{Outcome, verify-Outcome}
use esesaetsch.Cert.Build.{verify-new}
use esesaetsch.Tests.Samples.{decode_sample, SampleCert, ssh_sample, backup_cert, authority}

abbrev backup : CertGrants
backup = record { force_command = some "backup" }

verify_tests :
    ((verify bytewise ssh_sample authority "alice" backup_cert).result ≡ ok backup)
    × ((verify bytewise ssh_sample authority "alice" (record backup_cert { serial = 9 })).logged
        ≡ some revoked)
    × ((verify bytewise ssh_sample authority "alice" (record backup_cert { ca = ok [] })).logged
        ≡ some untrusted_ca)
    × ((verify bytewise ssh_sample authority "alice"
          (record backup_cert { options = ("source-address", "*") ∷ [] })).logged
        ≡ some (unsupported_critical_option "source-address"))
unfolding verify esesaetsch.Cert.signature_key_bytes esesaetsch.Auth.scan bytewise
    esesaetsch.Base.any esesaetsch.Cert.grant_options
verify_tests = (refl, refl, refl, refl)

verify_iff_example :
    ((verify bytewise ssh_sample authority "alice" backup_cert).result ≡ ok backup)
    ↔ Accepts bytewise ssh_sample authority "alice" backup_cert backup
verify_iff_example = verify_iff bytewise ssh_sample authority "alice" backup_cert backup

abbrev broken_cert : SampleCert
broken_cert = record backup_cert { ca = err "encoding" }

verify-Outcome_example :
    Outcome authority (verify bytewise ssh_sample authority "alice" broken_cert)
    ⊎ ((e : String) × (broken_cert.cert_type ≡ CertType.user)
        × (broken_cert.ca ≡ err e)
        × (verify bytewise ssh_sample authority "alice" broken_cert ≡ record {
          result = err (backend (format ("re-encoding cert signature key: " ∷ e ∷ [])));
          logged = none;
          after = authority;
        }))
verify-Outcome_example = verify-Outcome bytewise authority ssh_sample "alice" broken_cert

abbrev built : CaTrustCertAuthenticator
built = record authority {
  sentinel_ca =
      0 ∷ 0 ∷ 0 ∷ 0 ∷ 0 ∷ 0 ∷ 0 ∷ 0 ∷ 0 ∷ 0 ∷ 0 ∷ 0 ∷ 0 ∷ 0 ∷ 0 ∷ 0 ∷ 0 ∷ 0 ∷ 0 ∷ 0 ∷ 0 ∷ 0 ∷ 0 ∷ 0
      ∷ 0 ∷ 0 ∷ 0 ∷ 0 ∷ 0 ∷ 0 ∷ 0 ∷ 0 ∷ [];
}

authority_built :
    new decode_sample (since_epoch 150) ("ssh-ed25519 BBBB ca" ∷ []) (9 ∷ []) ≡ ok built
unfolding new esesaetsch.Cert.decode_cas esesaetsch.Base.split_whitespace
authority_built = refl

backup_accepted : (verify bytewise ssh_sample built "alice" backup_cert).result ≡ ok backup
unfolding verify esesaetsch.Cert.signature_key_bytes esesaetsch.Auth.scan bytewise
    esesaetsch.Base.any esesaetsch.Cert.grant_options
backup_accepted = refl

verify-new_example :
    (ca : Bytes) × (backup_cert.ca ≡ ok ca)
    × Some (IsKeyLine decode_sample ca) ("ssh-ed25519 BBBB ca" ∷ [])
    × All (λ s. s ≢ backup_cert.serial) (9 ∷ [])
verify-new_example =
    verify-new decode_sample bytewise ssh_sample (since_epoch 150) ("ssh-ed25519 BBBB ca" ∷ [])
      (9 ∷ []) built "alice" backup_cert backup authority_built backup_accepted
