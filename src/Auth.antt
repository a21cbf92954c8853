-- ===== src/Auth.antt =====
-- crates/esesätsch-core/src/auth.rs: the authentication traits, the deny-all authenticator and the
-- public-key allowlist. An authenticator's `verify` takes and returns its state, which holds the
-- counters that the source keeps in atomics.
pub mod Build
pub mod Verify
use esesaetsch.Base.{
  ℕ, ◌+◌, ◌%◌, ◌^◌, Bool, false, ◌||◌, Option, none, some, List, [], ◌∷◌, String, if◌then◌else◌,
  nth, replicate, split_whitespace, format, Result, ok, err, map_err, ok_or, ◌>>=◌,
}
use esesaetsch.Std.Map.{Map, get, insert}
use esesaetsch.Crates.{Bytes, Decode, ConstantTimeEq}
use esesaetsch.Error.{AuthError, unknown_user, credential_mismatch, method_disabled, backend}

-- The trait `PasswordAuthenticator`: the operating system's answer may depend on its state.
pub record PasswordAuthenticator : Type 1 where
  pub State : Type 0
  pub verify : State → String → String → Result AuthError (Unit {0}) × State

abbrev pub deny_all : PasswordAuthenticator
deny_all = record { State = Unit; verify = λ s user password. (err method_disabled, s) }

-- The trait `PubkeyAuthenticator`.
pub record PubkeyAuthenticator : Type 1 where
  pub State : Type 0
  pub verify : State → String → Bytes → Result AuthError (Unit {0}) × State

pub record AllowlistPubkeyAuthenticator : Type 0 where
  pub keys : Map (List Bytes)
  pub sentinel : Bytes
  pub sentinel_compares : ℕ

-- `AtomicU64::fetch_add(1)`
abbrev pub next_u64 : ℕ → ℕ
next_u64 n = (n + 1) % 2 ^ 64

module _ (decode : Decode) where
  -- the inner loop of `from_allowlist`
  unfoldable pub decode_lines : String → List String → Result AuthError (List Bytes)
  decode_lines user [] = ok []
  decode_lines user (line ∷ lines) = do
    b64 ←
        ok_or (backend (format ("allowlist entry for " ∷ user ∷ " missing base64 blob" ∷ [])))
          (nth 1 (split_whitespace line))
    key ← map_err (λ e. backend (format ("decoding key for " ∷ user ∷ ": " ∷ e ∷ []))) (decode b64)
    decoded ← decode_lines user lines
    ok (key ∷ decoded)

  -- the outer loop
  unfoldable pub decode_users :
      Map (List Bytes) → Map (List String) → Result AuthError (Map (List Bytes))
  decode_users keys [] = ok keys
  decode_users keys ((user, lines) ∷ rest) = do
    decoded ← decode_lines user lines
    decode_users (insert user decoded keys) rest

  unfoldable pub from_allowlist : Map (List String) → Result AuthError AllowlistPubkeyAuthenticator
  from_allowlist allowlist = do
    keys ← decode_users [] allowlist
    ok (record { keys = keys; sentinel = replicate 32 0; sentinel_compares = 0 })

module _ (ct : ConstantTimeEq) where
  -- `matched |= b.ct_eq(key_blob)` for every entry, with no early exit
  unfoldable pub scan : Bool → List Bytes → Bytes → Bool
  scan matched [] key_blob = matched
  scan matched (b ∷ blobs) key_blob = scan (matched || ct.ct_eq b key_blob) blobs key_blob

  unfoldable pub verify :
      AllowlistPubkeyAuthenticator
      → String
      → Bytes
      → Result AuthError (Unit {0}) × AllowlistPubkeyAuthenticator
  verify self user key_blob = elim (get user self.keys) [
    | some blobs ↦ (if scan false blobs key_blob then ok tt else err credential_mismatch, self)
    | none ↦
        let sentinel_compare = ct.ct_eq self.sentinel key_blob in
        (err unknown_user, record self { sentinel_compares = next_u64 self.sentinel_compares })
  ]

  abbrev pub allowlist_authenticator : PubkeyAuthenticator
  allowlist_authenticator = record { State = AllowlistPubkeyAuthenticator; verify = verify }
