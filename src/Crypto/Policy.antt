-- ===== src/Crypto/Policy.antt =====
-- crypto.rs: the preferences against the lists.
use esesaetsch.Base.{map, ◌≡◌, refl}
use esesaetsch.Crypto.{
  kex_algorithms, host_key_algorithms, ciphers, macs, compression, Russh, preferences,
}

-- The names that RFC 8731, RFC 8709, RFC 8332, OpenSSH's PROTOCOL file and the draft on ML-KEM give
-- to the algorithms.
pub record IsDocumented {Name : Type 0} (r : Russh Name) : Type 0 where
  pub mlkem : r.text r.mlkem768x25519_sha256 ≡ "mlkem768x25519-sha256"
  pub curve : r.text r.curve25519 ≡ "curve25519-sha256"
  pub curve_pre : r.text r.curve25519_pre_rfc_8731 ≡ "curve25519-sha256@libssh.org"
  pub edwards : r.text r.ed25519 ≡ "ssh-ed25519"
  pub rsa : r.text r.rsa_sha512 ≡ "rsa-sha2-512"
  pub chacha : r.text r.chacha20_poly1305 ≡ "chacha20-poly1305@openssh.com"
  pub gcm : r.text r.aes_256_gcm ≡ "aes256-gcm@openssh.com"
  pub mac_512 : r.text r.hmac_sha512_etm ≡ "hmac-sha2-512-etm@openssh.com"
  pub mac_256 : r.text r.hmac_sha256_etm ≡ "hmac-sha2-256-etm@openssh.com"
  pub uncompressed : r.text r.no_compression ≡ "none"
  pub zlib : r.text r.zlib_legacy ≡ "zlib@openssh.com"

-- If russh's names stand for the algorithms that they are documented to, the preferences that are
-- handed to russh are the five lists of the policy, in their order.
pub preferences_lem :
    {Name : Type 0} (r : Russh Name)
    → IsDocumented r
    → (map r.text (preferences r).kex ≡ kex_algorithms)
      × (map r.text (preferences r).key ≡ host_key_algorithms)
      × (map r.text (preferences r).cipher ≡ ciphers)
      × (map r.text (preferences r).mac ≡ macs)
      × (map r.text (preferences r).compressions ≡ compression)
unfolding preferences
preferences_lem r d = (
  rw (d.mlkem, d.curve, d.curve_pre) refl,
  rw (d.edwards, d.rsa) refl,
  rw (d.chacha, d.gcm) refl,
  rw (d.mac_512, d.mac_256) refl,
  rw (d.uncompressed, d.zlib) refl,
)
