-- ===== src/Service/Types.antt =====
-- service.rs: what the commands use of the operating system, their errors, and the ends that they
-- share.
use esesaetsch.Base.{
  Bool, true, false, Option, some, String, List, Result, ok, err, ◌≡◌, refl, arith,
}
use esesaetsch.Crates.{Bytes}

-- What the code uses of the system: `geteuid`, `Path::canonicalize` (which also gives the path's
-- text, as `display` does), and files. An error is its text.
pub record System (Fs : Type 0) : Type 0 where
  pub is_root : Fs → Bool
  pub canonicalize : String → Fs → Result String String
  pub contents : String → Fs → Option Bytes
  pub exists : String → Fs → Bool
  pub write : String → Bytes → Fs → Result String (Unit {0}) × Fs
  pub remove_file : String → Fs → Result String (Unit {0}) × Fs

-- The crate `plist`: values, dictionaries, `to_file_xml`, and what a reader of such a file gets.
pub record Plist (Fs Value Dictionary : Type 0) : Type 0 where
  pub string : String → Value
  pub array : List Value → Value
  pub boolean : Bool → Value
  pub empty : Dictionary
  pub insert : String → Value → Dictionary → Dictionary
  pub to_file_xml : String → Dictionary → Fs → Result String (Unit {0}) × Fs
  pub from_file : String → Fs → Option Dictionary

-- What the caller is told: a missing privilege, or an error with its context.
pub data ServiceError : Type 0 where
  not_root : ServiceError
  resolving_binary writing removing : (path detail : String) → ServiceError

module _ {Fs : Type 0} where
  -- An error in its context, or the lines that are printed.
  abbrev pub concluded :
      (String → ServiceError)
      → List String
      → Result String (Unit {0}) × Fs
      → Result ServiceError (List String) × Fs
  concluded context lines (err e, fs) = (err (context e), fs)
  concluded context lines (ok _, fs) = (ok lines, fs)

  pub concluded-ok :
      (context : String → ServiceError) (lines lines' : List String)
      (r : Result String (Unit {0}) × Fs)
      → (concluded context lines r).0 ≡ ok lines'
      → (r.0 ≡ ok tt) × ((concluded context lines r).1 ≡ r.1)
  concluded-ok context lines lines' (ok _, fs) h = (refl, refl)
  concluded-ok context lines lines' (err e, fs) h = absurd (ground arith)

-- What `std::fs` promises of these functions.
pub record IsFileSystem {Fs : Type 0} (sys : System Fs) : Type 0 where
  pub contents-write :
      (path : String) (bytes : Bytes) (fs : Fs)
      → (sys.write path bytes fs).0 ≡ ok tt
      → sys.contents path (sys.write path bytes fs).1 ≡ some bytes
  pub exists-write :
      (path : String) (bytes : Bytes) (fs : Fs)
      → (sys.write path bytes fs).0 ≡ ok tt
      → sys.exists path (sys.write path bytes fs).1 ≡ true
  pub exists-remove_file :
      (path : String) (fs : Fs)
      → (sys.remove_file path fs).0 ≡ ok tt
      → sys.exists path (sys.remove_file path fs).1 ≡ false

-- What `plist` promises: the file is there, and reads back.
pub record IsPlist {Fs Value Dictionary : Type 0} (sys : System Fs)
    (plist : Plist Fs Value Dictionary) : Type 0 where
  pub from_file-to_file_xml :
      (path : String) (dict : Dictionary) (fs : Fs)
      → (plist.to_file_xml path dict fs).0 ≡ ok tt
      → plist.from_file path (plist.to_file_xml path dict fs).1 ≡ some dict
  pub exists-to_file_xml :
      (path : String) (dict : Dictionary) (fs : Fs)
      → (plist.to_file_xml path dict fs).0 ≡ ok tt
      → sys.exists path (plist.to_file_xml path dict fs).1 ≡ true
