-- ===== src/Crypto.antt =====
-- crates/esesätsch-core/src/crypto.rs: the lists of allowed algorithms, and what is handed to russh.
pub mod Policy
use esesaetsch.Base.{String, List, [], ◌∷◌}

abbrev pub kex_algorithms : List String
kex_algorithms = "mlkem768x25519-sha256" ∷ "curve25519-sha256" ∷ "curve25519-sha256@libssh.org" ∷ []

abbrev pub host_key_algorithms : List String
host_key_algorithms = "ssh-ed25519" ∷ "rsa-sha2-512" ∷ []

abbrev pub ciphers : List String
ciphers = "chacha20-poly1305@openssh.com" ∷ "aes256-gcm@openssh.com" ∷ []

abbrev pub macs : List String
macs = "hmac-sha2-512-etm@openssh.com" ∷ "hmac-sha2-256-etm@openssh.com" ∷ []

abbrev pub compression : List String
compression = "none" ∷ "zlib@openssh.com" ∷ []

-- The names that russh and ssh-key declare, and the algorithm that each stands for on the wire.
pub record Russh (Name : Type 0) : Type 0 where
  pub text : Name → String
  pub mlkem768x25519_sha256 : Name
  pub curve25519 : Name
  pub curve25519_pre_rfc_8731 : Name
  pub ed25519 : Name
  -- `Algorithm::Rsa` with `HashAlg::Sha512`
  pub rsa_sha512 : Name
  pub chacha20_poly1305 : Name
  pub aes_256_gcm : Name
  pub hmac_sha512_etm : Name
  pub hmac_sha256_etm : Name
  pub no_compression : Name
  pub zlib_legacy : Name

-- `russh::Preferred`
pub record Preferred (Name : Type 0) : Type 0 where
  pub kex : List Name
  pub key : List Name
  pub cipher : List Name
  pub mac : List Name
  pub compressions : List Name

unfoldable pub preferences : {Name : Type 0} → Russh Name → Preferred Name
preferences r = record {
  kex = r.mlkem768x25519_sha256 ∷ r.curve25519 ∷ r.curve25519_pre_rfc_8731 ∷ [];
  key = r.ed25519 ∷ r.rsa_sha512 ∷ [];
  cipher = r.chacha20_poly1305 ∷ r.aes_256_gcm ∷ [];
  mac = r.hmac_sha512_etm ∷ r.hmac_sha256_etm ∷ [];
  compressions = r.no_compression ∷ r.zlib_legacy ∷ [];
}
