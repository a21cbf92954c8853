-- ===== src/HostKey/Files.antt =====
-- A file system in memory that meets the interface which hostkey.rs uses.
use esesaetsch.Base.{
  ℕ, Option, none, some, String, Result, ok, err, ◌≡◌, refl, ◌∙◌, ap, is_some, arith, eq_iff,
  Option-cases, inl, inr,
}
use esesaetsch.Crates.{Bytes}
use esesaetsch.Std.Map.{Map, get, insert, get-insert}
use esesaetsch.HostKey.{FileSystem}

pub record File : Type 0 where
  pub contents : Bytes
  pub mode : ℕ

abbrev read_file : Option File → Result String Bytes
read_file none = err "No such file or directory (os error 2)"
read_file (some f) = ok f.contents

abbrev mode_of : Option File → Option ℕ
mode_of none = none
mode_of (some f) = some f.mode

-- `fs::write` keeps the mode of a file that is there.
abbrev written : Bytes → Option File → File
written bytes none = record { contents = bytes; mode = 0o644 }
written bytes (some f) = record f { contents = bytes }

abbrev changed : String → ℕ → Map File → Option File → Result String (Unit {0}) × Map File
changed path m fs none = (err "No such file or directory (os error 2)", fs)
changed path m fs (some f) = (ok tt, insert path (record f { mode = m }) fs)

pub get-insert_same :
    (path : String) (f : File) (fs : Map File) → get path (insert path f fs) ≡ some f
get-insert_same path f fs = get-insert path path f fs ∙ ground (arith, eq_iff path path)

pub changed-is_some :
    (path : String) (m : ℕ) (fs : Map File)
    → is_some (get path (changed path m fs (get path fs)).1) ≡ is_some (get path fs)
changed-is_some path m fs = elim (Option-cases (get path fs)) [
  | inl n ↦ rw n (rw n refl)
  | inr (f, s) ↦ rw s (rw (get-insert_same path (record f { mode = m }) fs) refl)
]

pub changed-read_file :
    (path : String) (m : ℕ) (fs : Map File)
    → read_file (get path (changed path m fs (get path fs)).1) ≡ read_file (get path fs)
changed-read_file path m fs = elim (Option-cases (get path fs)) [
  | inl n ↦ rw n (rw n refl)
  | inr (f, s) ↦ rw s (rw (get-insert_same path (record f { mode = m }) fs) refl)
]

pub changed-mode_of :
    (path : String) (m : ℕ) (fs : Map File)
    → (changed path m fs (get path fs)).0 ≡ ok tt
    → mode_of (get path (changed path m fs (get path fs)).1) ≡ some m
changed-mode_of path m fs h = elim (Option-cases (get path fs)) [
  | inl n ↦ absurd (ground (arith, n))
  | inr (f, s) ↦ rw s (rw (get-insert_same path (record f { mode = m }) fs) refl)
]

pub written-contents : (bytes : Bytes) (o : Option File) → (written bytes o).contents ≡ bytes
written-contents bytes none = refl
written-contents bytes (some f) = refl

unfoldable pub in_memory : FileSystem (Map File)
in_memory = record {
  exists = λ path fs. is_some (get path fs);
  read = λ path fs. read_file (get path fs);
  mode = λ path fs. mode_of (get path fs);
  write = λ path bytes fs. (ok tt, insert path (written bytes (get path fs)) fs);
  set_permissions = λ path m fs. changed path m fs (get path fs);
  exists-write = λ path bytes fs h. rw (get-insert_same path (written bytes (get path fs)) fs) refl;
  read-write = λ path bytes fs h.
      rw (get-insert_same path (written bytes (get path fs)) fs)
        (ap ok (written-contents bytes (get path fs)));
  exists-set_permissions = changed-is_some;
  read-set_permissions = λ path bytes fs h. changed-read_file path 0o600 fs ∙ h;
  mode-set_permissions = changed-mode_of;
}
