-- ===== src/Logging.antt =====
-- logging.rs: the verbosity, the redaction of log lines, and the writer that applies it.
use Prim.Native.String.{[], ◌∷◌}
use esesaetsch.Base.{
  ℕ, zero, suc, Bool, Option, none, some, String, Char, code, eqb, if◌then◌else◌, List, length,
  Result, ok, err,
}
use esesaetsch.Crates.{Bytes}
use esesaetsch.Std.Utf8.{from_utf8, as_bytes}
pub mod Redact
pub mod Fuel
pub mod Writer

pub data Verbosity : Type 0 where
  default debug trace : Verbosity

abbrev pub env_filter : Verbosity → String
env_filter default = "info"
env_filter debug = "info,esesaetsch_core=debug,esesaetsch=debug"
env_filter trace = "info,esesaetsch_core=trace,esesaetsch=trace"

abbrev pub pattern_ : String
pattern_ = "password=\""

abbrev pub redacted : String
redacted = "password=\"<REDACTED>\""

-- `String::push_str`
abbrev pub push_str : String → String → String
push_str [] t = t
push_str (c ∷ s) t = c ∷ push_str s t

-- `str::strip_prefix`
abbrev pub strip_prefix : String → String → Option String
strip_prefix [] s = some s
strip_prefix (p ∷ pat) [] = none
strip_prefix (p ∷ pat) (c ∷ s) = if eqb (code p) (code c) then strip_prefix pat s else none

abbrev pub after_char : Char → Option (String × String) → Option (String × String)
after_char c none = none
after_char c (some (before, after)) = some (c ∷ before, after)

-- `find`, and the text before and after the first occurrence
abbrev pub split_once : String → String → Option (String × String)
split_once pat [] = elim (strip_prefix pat []) [ none ↦ none | some after ↦ some ([], after) ]
split_once pat (c ∷ s) = elim (strip_prefix pat (c ∷ s)) [
  | none ↦ after_char c (split_once pat s)
  | some after ↦ some ([], after)
]

-- The loop of `redact_sensitive`, on fuel.
unfoldable pub redact_loop : ℕ → String → String
redact_loop zero rest = rest
redact_loop (suc n) rest = elim (split_once pattern_ rest) [
  | none ↦ rest
  | some (before, after) ↦ push_str before (
      push_str redacted
        (elim (split_once "\"" after) [ none ↦ "" | some (secret, more) ↦ redact_loop n more ]))
]

abbrev pub chars_len : String → ℕ
chars_len [] = 0
chars_len (c ∷ s) = suc (chars_len s)

-- One round for each character, and one more for the end of the text.
unfoldable pub redact_sensitive : String → String
unfolding redact_loop
redact_sensitive input = redact_loop (suc (chars_len input)) input

-- What `write` hands to the inner writer, and what it reports. `accept` says whether the inner
-- `write_all` succeeds, and `partial` what the inner `write` answers.
unfoldable pub write : Result String (Unit {0}) → Result String ℕ → Bytes → Bytes × Result String ℕ
unfolding redact_sensitive from_utf8 as_bytes
write accept partial buf = elim (from_utf8 buf) [
  | some s ↦ (as_bytes (redact_sensitive s), elim accept [ ok _ ↦ ok (length buf) | err e ↦ err e ])
  | none ↦ (buf, partial)
]

-- `tracing` and `tracing_subscriber`: a filter, a subscriber over a filter and a writer's `write`, and
-- the setting of the program's one subscriber. An error is its text.
pub record Tracing (Filter Subscriber Global : Type 0) : Type 0 where
  pub env_filter_new : String → Filter
  pub registry :
      Filter
      → (Result String (Unit {0}) → Result String ℕ → Bytes → Bytes × Result String ℕ)
      → Subscriber
  pub set_global_default : Subscriber → Global → Result String (Unit {0}) × Global

-- Every line goes through the redacting writer.
unfoldable pub install :
    {Filter Subscriber Global : Type 0}
    → Tracing Filter Subscriber Global
    → Verbosity
    → Global
    → Result String (Unit {0}) × Global
unfolding write
install tracing verbosity global =
    let filter = tracing.env_filter_new (env_filter verbosity) in
    let subscriber = tracing.registry filter write in tracing.set_global_default subscriber global
