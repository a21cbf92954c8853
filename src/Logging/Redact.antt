-- ===== src/Logging/Redact.antt =====
-- redact_sensitive: what a field's value cannot change, and a second redaction.
use Prim.Native.Char.{char}
use Prim.Native.String.{[], ◌∷◌}
use esesaetsch.Base.{
  ℕ, zero, suc, ◌<◌, none, some, String, Char, code, Option-cases, inl, inr, ◌≡◌, ◌≢◌, arith, refl,
  ◌∙◌, ap,
}
use esesaetsch.Logging.{
  pattern_, redacted, push_str, strip_prefix, split_once, redact_sensitive, chars_len,
}
use esesaetsch.Logging.Fuel.{round-lt, redact_sensitive-loop}

-- The text does not have this character.
abbrev pub Lacks : ℕ → String → Type 0
Lacks c [] = Unit
Lacks c (d ∷ s) = (c ≢ code d) × Lacks c s

-- A prefix that a text lacks, it lacks when it is cut.
strip_prefix-shorter :
    (pat s t : String) → strip_prefix pat (push_str s t) ≡ none → strip_prefix pat s ≡ none
strip_prefix-shorter [] s t h = absurd (ground arith)
strip_prefix-shorter (p ∷ pat) [] t h = refl
strip_prefix-shorter (p ∷ pat) (c ∷ s) t h = ground (arith, strip_prefix-shorter pat s t)

-- It lacks it too when a character follows that the prefix does not have.
strip_prefix-longer :
    (pat s t : String) (c : Char)
    → Lacks (code c) pat
    → strip_prefix pat s ≡ none
    → strip_prefix pat (push_str s (c ∷ t)) ≡ none
strip_prefix-longer [] s t c l h = absurd (ground arith)
strip_prefix-longer (p ∷ pat) [] t c l h = ground (arith, l.0)
strip_prefix-longer (p ∷ pat) (d ∷ s) t c l h = ground (arith, strip_prefix-longer pat s t c l.1)

strip_prefix-later :
    (p c : Char) (pat s t : String)
    → Lacks (code p) pat
    → strip_prefix (p ∷ pat) (c ∷ s) ≡ none
    → strip_prefix (p ∷ pat) (c ∷ push_str s (p ∷ t)) ≡ none
strip_prefix-later p c pat s t l h = ground (arith, strip_prefix-longer pat s t p l)

strip_prefix_self : (pat t : String) → strip_prefix pat (push_str pat t) ≡ some t
strip_prefix_self [] t = refl
strip_prefix_self (p ∷ pat) t = ground (arith, strip_prefix_self pat t)

-- Before the first occurrence there is none.
split_once-before :
    (p : Char) (pat s before after : String)
    → split_once (p ∷ pat) s ≡ some (before, after)
    → (t : String) × (s ≡ push_str before t) × (split_once (p ∷ pat) before ≡ none)
split_once-before p pat [] b a h = absurd (ground arith)
split_once-before p pat (c ∷ s) b a h = elim (Option-cases (strip_prefix (p ∷ pat) (c ∷ s))) [
  | inr (t, e) ↦ let q : b ≡ [] = ground (arith, e) in rw q (c ∷ s, refl, refl)
  | inl e ↦ elim (Option-cases (split_once (p ∷ pat) s)) [
    | inl n ↦ absurd (ground (arith, e, n))
    | inr ((b', a'), m) ↦
        let q : b ≡ c ∷ b' = ground (arith, e, m) in
        let (t, es, n) = split_once-before p pat s b' a' m in
        let k = strip_prefix-shorter (p ∷ pat) (c ∷ b') t (rw es at e) in
        rw q (t, ap (λ x. c ∷ x) es, ground (arith, k, n))
  ]
]

-- An occurrence after a text that has none is the first one, if its first character is in no other
-- place of the pattern.
split_once-push_str :
    (p : Char) (pat s after : String)
    → Lacks (code p) pat
    → split_once (p ∷ pat) s ≡ none
    → split_once (p ∷ pat) (push_str s (push_str (p ∷ pat) after)) ≡ some (s, after)
split_once-push_str p pat [] after l h = ground (arith, strip_prefix_self pat after)
split_once-push_str p pat (c ∷ s) after l h = elim (Option-cases (strip_prefix (p ∷ pat) (c ∷ s))) [
  | inr (t, e) ↦ absurd (ground (arith, e))
  | inl e ↦
      let n : split_once (p ∷ pat) s ≡ none = ground (arith, e) in
      ground (
        arith,
        strip_prefix-later p c pat s (push_str pat after) l e,
        split_once-push_str p pat s after l n,
      )
]

pattern_-first :
    (s after : String)
    → split_once pattern_ s ≡ none
    → split_once pattern_ (push_str s (push_str pattern_ after)) ≡ some (s, after)
pattern_-first s after = split_once-push_str (char b'p' tt) "assword=\"" s after (omega arith)

quote-first :
    (s after : String)
    → split_once "\"" s ≡ none
    → split_once "\"" (push_str s (push_str "\"" after)) ≡ some (s, after)
quote-first s after = split_once-push_str (char b'"' tt) "" s after tt

-- If the text before a field has no field and the field's value no quote, the text before is kept,
-- the value is replaced, and what follows the field is redacted.
pub redact_sensitive-field :
    (before secret rest : String)
    → split_once pattern_ before ≡ none
    → split_once "\"" secret ≡ none
    → redact_sensitive (push_str before (push_str pattern_ (push_str secret (push_str "\"" rest))))
      ≡ push_str before (push_str redacted (redact_sensitive rest))
redact_sensitive-field before secret rest h k =
    let after = push_str secret (push_str "\"" rest) in
    redact_sensitive-loop (push_str before (push_str pattern_ after))
    ∙ rw (pattern_-first before after h) (rw (quote-first secret rest k) refl)

-- A value that has no end is not kept either, nor is what follows it.
pub redact_sensitive-open :
    (before secret : String)
    → split_once pattern_ before ≡ none
    → split_once "\"" secret ≡ none
    → redact_sensitive (push_str before (push_str pattern_ secret)) ≡ push_str before redacted
redact_sensitive-open before secret h k =
    redact_sensitive-loop (push_str before (push_str pattern_ secret))
    ∙ rw (pattern_-first before secret h) (rw k refl)

redacted-again :
    (before rest : String)
    → split_once pattern_ before ≡ none
    → redact_sensitive rest ≡ rest
    → redact_sensitive (push_str before (push_str redacted rest))
      ≡ push_str before (push_str redacted rest)
redacted-again before rest h e = redact_sensitive-field before "<REDACTED>" rest h refl ∙ rw e refl

idempotent_below :
    (n : ℕ) (s : String)
    → chars_len s < n
    → redact_sensitive (redact_sensitive s) ≡ redact_sensitive s
idempotent_below zero s l = absurd (omega arith)
idempotent_below (suc n) s l = elim (Option-cases (split_once pattern_ s)) [
  | inl e ↦
      let same : redact_sensitive s ≡ s = redact_sensitive-loop s ∙ rw e refl in
      ap redact_sensitive same
  | inr ((b, a), e) ↦
      let (t, es, first) = split_once-before (char b'p' tt) "assword=\"" s b a e in
      elim (Option-cases (split_once "\"" a)) [
        | inl q ↦
            let out : redact_sensitive s ≡ push_str b redacted =
              redact_sensitive-loop s ∙ rw e (rw q refl) in
            rw out (redacted-again b "" first (redact_sensitive-loop ""))
        | inr ((secret, more), q) ↦
            let out : redact_sensitive s ≡ push_str b (push_str redacted (redact_sensitive more)) =
              redact_sensitive-loop s ∙ rw e (rw q refl) in
            let shorter = round-lt s b a secret more e q in
            rw out (
              redacted-again b (redact_sensitive more) first
                (idempotent_below n more (omega arith)))
      ]
]

-- A second redaction changes nothing.
pub redact_sensitive-redact_sensitive :
    (s : String) → redact_sensitive (redact_sensitive s) ≡ redact_sensitive s
redact_sensitive-redact_sensitive s = idempotent_below (suc (chars_len s)) s (omega arith)
