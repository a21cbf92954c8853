-- ===== src/Tests/Auth.antt =====
-- auth.rs: a sample allowlist, and attempts on it.
use esesaetsch.Base.{
  ℕ, ◌+◌, ◌%◌, ◌^◌, Bool, true, false, none, some, List, [], ◌∷◌, String, ok, err, ◌≡◌, refl, ◌↔◌,
  Some,
}
use esesaetsch.Std.Map.{Map, get}
use esesaetsch.Crates.{Bytes, bytewise}
use esesaetsch.Error.{unknown_user, credential_mismatch}
use esesaetsch.Config.{validate}
use esesaetsch.KeyLines.{IsKeyLine}
use esesaetsch.Auth.{AllowlistPubkeyAuthenticator, from_allowlist, verify}
use esesaetsch.Auth.Verify.{attempts, count_unknown, sentinel_compares-attempts}
use esesaetsch.Auth.Build.{verify-from_allowlist}
use esesaetsch.Tests.Samples.{decode_sample, ca_config}

abbrev allowlist : Map (List String)
allowlist = ("alice", "ssh-ed25519 AAAA laptop" ∷ "ssh-ed25519 BBBB" ∷ []) ∷ ("bob", []) ∷ []

abbrev authenticator : AllowlistPubkeyAuthenticator
authenticator = record {
  keys = ("alice", (1 ∷ 2 ∷ []) ∷ (3 ∷ []) ∷ []) ∷ ("bob", []) ∷ [];
  sentinel =
      0 ∷ 0 ∷ 0 ∷ 0 ∷ 0 ∷ 0 ∷ 0 ∷ 0 ∷ 0 ∷ 0 ∷ 0 ∷ 0 ∷ 0 ∷ 0 ∷ 0 ∷ 0 ∷ 0 ∷ 0 ∷ 0 ∷ 0 ∷ 0 ∷ 0 ∷ 0 ∷ 0
      ∷ 0 ∷ 0 ∷ 0 ∷ 0 ∷ 0 ∷ 0 ∷ 0 ∷ 0 ∷ [];
  sentinel_compares = 0;
}

authenticator_built : from_allowlist decode_sample allowlist ≡ ok authenticator
unfolding from_allowlist esesaetsch.Auth.decode_users esesaetsch.Auth.decode_lines
    esesaetsch.Base.split_whitespace esesaetsch.Std.Map.insert esesaetsch.Std.Map.str_lt
authenticator_built = refl

verify_tests :
    ((verify bytewise authenticator "alice" (3 ∷ [])).0 ≡ ok tt)
    × ((verify bytewise authenticator "bob" (3 ∷ [])).0 ≡ err credential_mismatch)
    × ((verify bytewise authenticator "eve" (3 ∷ [])).0 ≡ err unknown_user)
    × ((verify bytewise authenticator "eve" (3 ∷ [])).1.sentinel_compares ≡ 1)
unfolding verify get esesaetsch.Auth.scan bytewise
verify_tests = (refl, refl, refl, refl)

verify-from_allowlist_example : ((verify bytewise authenticator "alice" (3 ∷ [])).0 ≡ ok tt) ↔ (
    (lines : List String) × (get "alice" allowlist ≡ some lines)
    × Some (IsKeyLine decode_sample (3 ∷ [])) lines)
unfolding get
verify-from_allowlist_example =
    verify-from_allowlist decode_sample bytewise allowlist authenticator "alice" (3 ∷ [])
      (refl, (refl, tt)) authenticator_built

ca_config_valid : validate decode_sample ca_config ≡ ok tt
unfolding validate esesaetsch.Config.check_users esesaetsch.Config.check_keys
    esesaetsch.Config.parse_pubkey_blob esesaetsch.Base.split_whitespace
    esesaetsch.Std.Path.has_parent_dir
ca_config_valid = refl

abbrev tries : List (String × Bytes)
tries = ("eve", []) ∷ ("alice", 3 ∷ []) ∷ ("mallory", 3 ∷ []) ∷ []

count_tests :
    (count_unknown authenticator.keys tries ≡ 2)
    × ((attempts bytewise authenticator tries).sentinel_compares ≡ 2)
unfolding verify get
count_tests = (refl, refl)

sentinel_compares-attempts_example :
    ((attempts bytewise authenticator tries).sentinel_compares % 2 ^ 64
      ≡ (0 + count_unknown authenticator.keys tries) % 2 ^ 64)
    × ((attempts bytewise authenticator tries).keys ≡ authenticator.keys)
sentinel_compares-attempts_example = sentinel_compares-attempts bytewise authenticator tries
