-- ===== src/HostKey.antt =====
-- crates/esesätsch-core/src/hostkey.rs and `cmd_gen_key` of crates/esesätsch/src/main.rs: the host
-- key and its file.
pub mod Files
pub mod Keys
use esesaetsch.Base.{
  ℕ, Bool, true, false, not, Option, none, some, List, String, Result, ok, err, map_err, format,
  ◌≡◌, ◌>>=◌, ◌>>◌, if◌then◌else◌, [], ◌∷◌,
}
use esesaetsch.Crates.{Bytes}
use esesaetsch.Error.{HostKeyError, io, malformed, generation}
use esesaetsch.Std.Utf8.{from_utf8, as_bytes}

-- What the code uses of the file system. An error is its text.
pub record FileSystem (Fs : Type 0) : Type 0 where
  pub exists : String → Fs → Bool
  pub read : String → Fs → Result String Bytes
  pub mode : String → Fs → Option ℕ
  pub write : String → Bytes → Fs → Result String (Unit {0}) × Fs
  pub set_permissions : String → ℕ → Fs → Result String (Unit {0}) × Fs
  -- a file that was written is there, with these contents; its mode becomes what it is changed to,
  -- and a file that could be read stays so when it is restricted to its owner
  pub exists-write :
      (path : String) (bytes : Bytes) (fs : Fs)
      → (write path bytes fs).0 ≡ ok tt
      → exists path (write path bytes fs).1 ≡ true
  pub read-write :
      (path : String) (bytes : Bytes) (fs : Fs)
      → (write path bytes fs).0 ≡ ok tt
      → read path (write path bytes fs).1 ≡ ok bytes
  pub exists-set_permissions :
      (path : String) (m : ℕ) (fs : Fs) → exists path (set_permissions path m fs).1 ≡ exists path fs
  pub read-set_permissions :
      (path : String) (bytes : Bytes) (fs : Fs)
      → read path fs ≡ ok bytes
      → read path (set_permissions path 0o600 fs).1 ≡ ok bytes
  pub mode-set_permissions :
      (path : String) (m : ℕ) (fs : Fs)
      → (set_permissions path m fs).0 ≡ ok tt
      → mode path (set_permissions path m fs).1 ≡ some m

-- `ssh_key` and `russh::keys`: a fresh key as a text or what went wrong, and the key in a text.
pub record KeyCodec (Generated PrivateKey Random : Type 0) : Type 0 where
  pub random : Random → Result String Generated
  pub to_openssh : Generated → Result String String
  pub decode_secret_key : String → Result String PrivateKey

-- `fs::read_to_string`
abbrev pub utf8_or_error : Option String → Result String String
utf8_or_error none = err "stream did not contain valid UTF-8"
utf8_or_error (some s) = ok s

unfoldable pub read_text : Result String Bytes → Result String String
unfolding from_utf8
read_text (ok bytes) = utf8_or_error (from_utf8 bytes)
read_text (err e) = err e

module _ {Fs Generated PrivateKey Random : Type 0} (files : FileSystem Fs)
    (keys : KeyCodec Generated PrivateKey Random) where
  unfoldable pub load : String → Fs → Result HostKeyError PrivateKey
  unfolding read_text
  load path fs = map_err (λ source. io path source) (read_text (files.read path fs)) >>= λ pem.
      map_err (λ e. malformed path e) (keys.decode_secret_key pem)

  -- the key's text
  unfoldable pub fresh : Random → Result HostKeyError String
  fresh rng = do
    key ← map_err generation (keys.random rng)
    map_err (λ e. generation (format ("encode failed: " ∷ e ∷ []))) (keys.to_openssh key)

  -- the text's file, readable by its owner only
  unfoldable pub store : String → String → Fs → Result HostKeyError (Unit {0}) × Fs
  unfolding as_bytes
  store path pem fs =
      let (written, fs1) = files.write path (as_bytes pem) fs in
      let (set, fs2) = files.set_permissions path 0o600 fs1 in
      elim written [
        | err source ↦ (err (io path source), fs1)
        | ok _ ↦ (map_err (λ source. io path source) set, fs2)
      ]

  unfoldable pub generate : String → Random → Fs → Result HostKeyError (Unit {0}) × Fs
  unfolding fresh store
  generate path rng fs = elim (fresh rng) [ err e ↦ (err e, fs) | ok pem ↦ store path pem fs ]

  unfoldable pub load_or_generate : String → Random → Fs → Result HostKeyError PrivateKey × Fs
  unfolding generate load
  load_or_generate path rng fs =
      if files.exists path fs
      then (load path fs, fs)
      else (let (made, fs') = generate path rng fs in
          (elim made [ err e ↦ err e | ok _ ↦ load path fs' ], fs'))

  -- `cmd_gen_key`: its error as text, up to the context that is put before it
  unfoldable pub cmd_gen_key : String → Random → Fs → Result (Option HostKeyError) (Unit {0}) × Fs
  unfolding generate
  cmd_gen_key path rng fs =
      if files.exists path fs
      then (err none, fs)
      else (let (made, fs') = generate path rng fs in (map_err (λ e. some e) made, fs'))
