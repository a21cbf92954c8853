-- ===== src/RealAuth/Logon.antt =====
-- real_auth.rs: whose password `LogonUserW` is asked to check.
use esesaetsch.Base.{[], ◌∷◌, String, List, ℕ, none, some, ◌≡◌}
use Prim.Native.String.{[], ◌∷◌}
use esesaetsch.Std.Utf16.{until_null, codes, decode_utf16}

-- A string that ends with a null, of which a reader gets these characters.
abbrev pub IsWideString : List ℕ → String → Type 0
IsWideString us text =
    (before : List ℕ) × (until_null us ≡ some before) × (decode_utf16 none before ≡ codes text)
