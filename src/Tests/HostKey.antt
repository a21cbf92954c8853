-- ===== src/Tests/HostKey.antt =====
-- hostkey.rs: the host key on a file system in memory.
use esesaetsch.Base.{some, [], String, ok, err, ◌≡◌, refl, arith}
use esesaetsch.Std.Map.{Map}
use esesaetsch.Error.{io}
use esesaetsch.HostKey.{FileSystem, KeyCodec, fresh, generate, load_or_generate}
use esesaetsch.HostKey.Files.{File, in_memory}
use esesaetsch.HostKey.Keys.{load_or_generate-again, load_or_generate-unprotected}

-- Keys are texts, with a line in front.
abbrev codec : KeyCodec String String String
codec = record {
  random = λ seed. ok seed;
  to_openssh = λ key. ok key;
  decode_secret_key = λ pem. ok pem;
}

generate_tests :
    ((load_or_generate in_memory codec "key" "seed" []).0 ≡ ok "seed")
    × ((load_or_generate in_memory codec "key" "other"
          (load_or_generate in_memory codec "key" "seed" []).1).0
        ≡ ok "seed")
    × ((generate in_memory codec "key" "seed" []).0 ≡ ok tt)
unfolding load_or_generate generate in_memory esesaetsch.Std.Map.get esesaetsch.Std.Map.insert
generate_tests = (refl, refl, refl)

load_or_generate-again_example :
    ((load_or_generate in_memory codec "key" "seed" []).0 ≡ ok "seed")
    × (in_memory.mode "key" (load_or_generate in_memory codec "key" "seed" []).1 ≡ some 0o600)
    × (load_or_generate in_memory codec "key" "other"
          (load_or_generate in_memory codec "key" "seed" []).1
        ≡ (ok "seed", (load_or_generate in_memory codec "key" "seed" []).1))
unfolding in_memory fresh esesaetsch.Std.Map.get
load_or_generate-again_example =
    load_or_generate-again in_memory codec "key" "seed" "other" [] "seed" "seed" refl refl refl
      generate_tests.2

-- A file system whose modes cannot be changed.
unfoldable fixed_modes : FileSystem (Map File)
unfolding in_memory
fixed_modes = record {
  exists = in_memory.exists;
  read = in_memory.read;
  mode = in_memory.mode;
  write = in_memory.write;
  set_permissions = λ path m fs. (err "Operation not permitted (os error 1)", fs);
  exists-write = in_memory.exists-write;
  read-write = in_memory.read-write;
  exists-set_permissions = λ path m fs. refl;
  read-set_permissions = λ path bytes fs h. h;
  mode-set_permissions = λ path m fs h. absurd (ground (arith, h));
}

load_or_generate-unprotected_example :
    ((load_or_generate fixed_modes codec "key" "seed" []).0
      ≡ err (io "key" "Operation not permitted (os error 1)"))
    × (load_or_generate fixed_modes codec "key" "other"
          (load_or_generate fixed_modes codec "key" "seed" []).1
        ≡ (ok "seed", (load_or_generate fixed_modes codec "key" "seed" []).1))
unfolding fixed_modes in_memory fresh esesaetsch.Std.Map.get
load_or_generate-unprotected_example =
    load_or_generate-unprotected fixed_modes codec "key" "seed" "other" [] "seed"
      "Operation not permitted (os error 1)" "seed" refl refl refl refl refl
