-- ===== src/HostKey/Keys.antt =====
-- hostkey.rs: what is in the key's file afterwards, and which key the server gets.
use esesaetsch.Base.{
  true, false, none, some, String, ok, err, ◌≡◌, refl, ◌∙◌, inl, inr, arith, Result-cases,
  map_err-ok,
}
use esesaetsch.Error.{io}
use esesaetsch.Std.Utf8.{as_bytes}
use esesaetsch.Std.Encode.{from_utf8-as_bytes}
use esesaetsch.HostKey.{
  FileSystem, KeyCodec, read_text, load, fresh, store, generate, load_or_generate, cmd_gen_key,
}

module _ {Fs Generated PrivateKey Random : Type 0} (files : FileSystem Fs)
    (keys : KeyCodec Generated PrivateKey Random) where
  -- A key that is there is not touched, by the server and by the `gen-key` command, which refuses.
  pub existing_key-kept :
      (path : String) (rng : Random) (fs : Fs)
      → files.exists path fs ≡ true
      → (load_or_generate files keys path rng fs ≡ (load files keys path fs, fs))
        × (cmd_gen_key files keys path rng fs ≡ (err none, fs))
  unfolding load_or_generate cmd_gen_key
  existing_key-kept path rng fs h = (rw h refl, rw h refl)

  store-written :
      (path pem : String) (fs : Fs)
      → (store files keys path pem fs).0 ≡ ok tt
      → ((files.write path (as_bytes pem) fs).0 ≡ ok tt)
        × ((files.set_permissions path 0o600 (files.write path (as_bytes pem) fs).1).0 ≡ ok tt)
        × ((store files keys path pem fs).1
            ≡ (files.set_permissions path 0o600 (files.write path (as_bytes pem) fs).1).1)
  unfolding store
  store-written path pem fs h = elim (Result-cases (files.write path (as_bytes pem) fs).0) [
    | inl (u, w) ↦ (
      w,
      map_err-ok _ (files.set_permissions path 0o600 (files.write path (as_bytes pem) fs).1).0 tt
          (rw (w, store) at h),
      rw (w, store) refl,
    )
    | inr (e, w) ↦ absurd (ground (arith, w))
  ]

  -- What is in the file after a key's text was stored.
  load-store :
      (path pem : String) (fs : Fs) (key : PrivateKey)
      → keys.decode_secret_key pem ≡ ok key
      → (store files keys path pem fs).0 ≡ ok tt
      → (load files keys path (store files keys path pem fs).1 ≡ ok key)
        × (files.exists path (store files keys path pem fs).1 ≡ true)
        × (files.mode path (store files keys path pem fs).1 ≡ some 0o600)
  unfolding load read_text
  load-store path pem fs key d h =
      let (w, m, e) = store-written path pem fs h in
      let fs1 = (files.write path (as_bytes pem) fs).1 in
      rw e (
        rw
            (files.read-set_permissions path (as_bytes pem) fs1
              (files.read-write path (as_bytes pem) fs w))
            (rw (from_utf8-as_bytes pem) (rw d refl)),
        files.exists-set_permissions path 0o600 fs1 ∙ files.exists-write path (as_bytes pem) fs w,
        files.mode-set_permissions path 0o600 fs1 m,
      )

  -- If there is no key file, and a key is generated, written and restricted without an error, and
  -- is read back as `key`, then its file is readable by its owner only, the server gets `key`, and
  -- at the next start it gets `key` again and changes no file.
  pub load_or_generate-again :
      (path : String) (rng rng' : Random) (fs : Fs) (pem : String) (key : PrivateKey)
      → files.exists path fs ≡ false
      → fresh files keys rng ≡ ok pem
      → keys.decode_secret_key pem ≡ ok key
      → (generate files keys path rng fs).0 ≡ ok tt
      → ((load_or_generate files keys path rng fs).0 ≡ ok key)
        × (files.mode path (load_or_generate files keys path rng fs).1 ≡ some 0o600)
        × (load_or_generate files keys path rng' (load_or_generate files keys path rng fs).1
            ≡ (ok key, (load_or_generate files keys path rng fs).1))
  unfolding load_or_generate generate
  load_or_generate-again path rng rng' fs pem key e f d g =
      let gen : generate files keys path rng fs ≡ store files keys path pem fs =
        rw (f, generate) refl in
      let made : (store files keys path pem fs).0 ≡ ok tt = rw gen at g in
      let (l, x, m) = load-store path pem fs key d made in
      let first : load_or_generate files keys path rng fs
          ≡ (ok key, (store files keys path pem fs).1) =
        rw (e, load_or_generate) (rw gen (rw made (rw gen (rw l refl)))) in
      rw first (refl, m, rw (x, load_or_generate) (rw l refl))

  -- If there is no key file, and a key is generated and written, but its file's mode cannot be
  -- changed, the server ends with that error, and at the next start it takes that key, without a
  -- look at the mode.
  pub load_or_generate-unprotected :
      (path : String) (rng rng' : Random) (fs : Fs) (pem e : String) (key : PrivateKey)
      → files.exists path fs ≡ false
      → fresh files keys rng ≡ ok pem
      → keys.decode_secret_key pem ≡ ok key
      → (files.write path (as_bytes pem) fs).0 ≡ ok tt
      → (files.set_permissions path 0o600 (files.write path (as_bytes pem) fs).1).0 ≡ err e
      → ((load_or_generate files keys path rng fs).0 ≡ err (io path e))
        × (load_or_generate files keys path rng' (load_or_generate files keys path rng fs).1
            ≡ (ok key, (load_or_generate files keys path rng fs).1))
  unfolding load_or_generate generate store load read_text
  load_or_generate-unprotected path rng rng' fs pem e key x f d w s =
      let fs1 = (files.write path (as_bytes pem) fs).1 in
      let fs2 = (files.set_permissions path 0o600 fs1).1 in
      let gen : generate files keys path rng fs ≡ (err (io path e), fs2) =
        rw (f, generate) (rw (w, store) (rw s refl)) in
      let first : load_or_generate files keys path rng fs ≡ (err (io path e), fs2) =
        rw (x, load_or_generate) (rw gen refl) in
      let there : files.exists path fs2 ≡ true =
        files.exists-set_permissions path 0o600 fs1 ∙ files.exists-write path (as_bytes pem) fs w in
      rw first (
        refl,
        rw (there, load_or_generate)
            (rw
              (files.read-set_permissions path (as_bytes pem) fs1
                (files.read-write path (as_bytes pem) fs w))
              (rw (from_utf8-as_bytes pem) (rw d refl))),
      )
