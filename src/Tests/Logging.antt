-- ===== src/Tests/Logging.antt =====
-- logging.rs: sample log lines.
use esesaetsch.Base.{none, some, String, ok, ◌≡◌, refl}
use esesaetsch.Crates.{Bytes}
use esesaetsch.Std.Utf8.{as_bytes}
use esesaetsch.Std.Encode.{from_utf8-as_bytes}
use esesaetsch.Logging.{pattern_, redacted, push_str, split_once, redact_sensitive, write}
use esesaetsch.Logging.Fuel.{redact_sensitive-loop}
use esesaetsch.Logging.Redact.{redact_sensitive-field, redact_sensitive-redact_sensitive}
use esesaetsch.Logging.Writer.{line, write-secret}

abbrev sample : String
sample = "user=bob password=\"hunter2\" method=password"

redact_tests :
    (redact_sensitive sample ≡ "user=bob password=\"<REDACTED>\" method=password")
    × (redact_sensitive "password=\"open" ≡ "password=\"<REDACTED>\"")
    × (redact_sensitive "nothing" ≡ "nothing")
unfolding redact_sensitive
redact_tests = (refl, refl, refl)

-- An escaped quote ends the value for the redaction: what follows it stays.
escaped_quote : redact_sensitive "password=\"hun\\\"ter2\"" ≡ "password=\"<REDACTED>\"ter2\""
unfolding redact_sensitive
escaped_quote = refl

redact_sensitive-field_example :
    redact_sensitive
      (push_str "user=bob " (push_str pattern_ (push_str "hunter2" (push_str "\"" " ok"))))
    ≡ push_str "user=bob " (push_str redacted (redact_sensitive " ok"))
redact_sensitive-field_example = redact_sensitive-field "user=bob " "hunter2" " ok" refl refl

redact_sensitive-redact_sensitive_example :
    redact_sensitive (redact_sensitive sample) ≡ redact_sensitive sample
redact_sensitive-redact_sensitive_example = redact_sensitive-redact_sensitive sample

redact_sensitive-loop_example : redact_sensitive sample ≡ elim (split_once pattern_ sample) [
  | none ↦ sample
  | some (before, after) ↦ push_str before (
      push_str redacted
        (elim (split_once "\"" after) [ none ↦ "" | some (secret, more) ↦ redact_sensitive more ]))
]
redact_sensitive-loop_example = redact_sensitive-loop sample

abbrev buffer : String → Bytes
buffer secret = as_bytes (line "user=bob " secret " ok")

write-secret_example :
    (write (ok tt) (ok 0) (buffer "hunter2")).0 ≡ (write (ok tt) (ok 0) (buffer "swordfish")).0
write-secret_example =
    write-secret (ok tt) (ok 0) (buffer "hunter2") (buffer "swordfish") "user=bob " "hunter2"
      "swordfish" " ok" (from_utf8-as_bytes (line "user=bob " "hunter2" " ok"))
      (from_utf8-as_bytes (line "user=bob " "swordfish" " ok")) refl refl refl
