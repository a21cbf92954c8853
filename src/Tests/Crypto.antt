-- ===== src/Tests/Crypto.antt =====
-- crypto.rs: the preferences, where names are the texts themselves.
use esesaetsch.Base.{String, map, ◌≡◌, refl}
use esesaetsch.Crypto.{
  kex_algorithms, host_key_algorithms, ciphers, macs, compression, Russh, preferences,
}
use esesaetsch.Crypto.Policy.{IsDocumented, preferences_lem}

abbrev pub texts : Russh String
texts = record {
  text = λ name. name;
  mlkem768x25519_sha256 = "mlkem768x25519-sha256";
  curve25519 = "curve25519-sha256";
  curve25519_pre_rfc_8731 = "curve25519-sha256@libssh.org";
  ed25519 = "ssh-ed25519";
  rsa_sha512 = "rsa-sha2-512";
  chacha20_poly1305 = "chacha20-poly1305@openssh.com";
  aes_256_gcm = "aes256-gcm@openssh.com";
  hmac_sha512_etm = "hmac-sha2-512-etm@openssh.com";
  hmac_sha256_etm = "hmac-sha2-256-etm@openssh.com";
  no_compression = "none";
  zlib_legacy = "zlib@openssh.com";
}

texts-IsDocumented : IsDocumented texts
texts-IsDocumented = record {
  mlkem = refl;
  curve = refl;
  curve_pre = refl;
  edwards = refl;
  rsa = refl;
  chacha = refl;
  gcm = refl;
  mac_512 = refl;
  mac_256 = refl;
  uncompressed = refl;
  zlib = refl;
}

preferences_lem_example :
    (map texts.text (preferences texts).kex ≡ kex_algorithms)
    × (map texts.text (preferences texts).key ≡ host_key_algorithms)
    × (map texts.text (preferences texts).cipher ≡ ciphers)
    × (map texts.text (preferences texts).mac ≡ macs)
    × (map texts.text (preferences texts).compressions ≡ compression)
preferences_lem_example = preferences_lem texts texts-IsDocumented
