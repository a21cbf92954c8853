-- ===== src/Logging/Writer.antt =====
-- RedactingWriter::write: what reaches the inner writer.
use esesaetsch.Base.{none, some, String, Result, ℕ, ◌≡◌, refl}
use esesaetsch.Crates.{Bytes}
use esesaetsch.Std.Utf8.{from_utf8}
use esesaetsch.Logging.{pattern_, push_str, split_once, write}
use esesaetsch.Logging.Redact.{redact_sensitive-field}

-- a text with a field of this value
abbrev pub line : String → String → String → String
line before secret rest = push_str before (push_str pattern_ (push_str secret (push_str "\"" rest)))

-- Two buffers that hold the same line but for the value of its first password field, each a value
-- without a quote, hand the same bytes to the inner writer, whatever the inner writer answers.
pub write-secret :
    (accept : Result String (Unit {0})) (partial : Result String ℕ) (buf buf' : Bytes)
    (before secret secret' rest : String)
    → from_utf8 buf ≡ some (line before secret rest)
    → from_utf8 buf' ≡ some (line before secret' rest)
    → split_once pattern_ before ≡ none
    → split_once "\"" secret ≡ none
    → split_once "\"" secret' ≡ none
    → (write accept partial buf).0 ≡ (write accept partial buf').0
unfolding write
write-secret accept partial buf buf' before secret secret' rest u v h k k' =
    rw (u, write)
      (rw (v, write)
        (rw (redact_sensitive-field before secret rest h k)
          (rw (redact_sensitive-field before secret' rest h k') refl)))
