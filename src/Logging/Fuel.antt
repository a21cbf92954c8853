-- ===== src/Logging/Fuel.antt =====
-- redact_sensitive's loop ends: each round leaves a shorter text, so the fuel is enough.
use Prim.Native.String.{[], ◌∷◌}
use esesaetsch.Base.{
  ℕ, zero, suc, ◌≤◌, ◌<◌, none, some, String, Option-cases, inl, inr, ◌≡◌, arith, refl,
}
use esesaetsch.Logging.{
  pattern_, redacted, push_str, strip_prefix, split_once, redact_loop, chars_len, redact_sensitive,
}

strip_prefix-len : (pat s t : String) → strip_prefix pat s ≡ some t → chars_len t ≤ chars_len s
strip_prefix-len [] s t h = ground arith
strip_prefix-len (p ∷ pat) [] t h = ground arith
strip_prefix-len (p ∷ pat) (c ∷ s) t h = ground (arith, strip_prefix-len pat s t)

strip_prefix-lt :
    (pat s t : String) → 1 ≤ chars_len pat → strip_prefix pat s ≡ some t → chars_len t < chars_len s
strip_prefix-lt [] s t l h = absurd (ground arith)
strip_prefix-lt (p ∷ pat) [] t l h = ground arith
strip_prefix-lt (p ∷ pat) (c ∷ s) t l h = ground (arith, strip_prefix-len pat s t)

split_once-lt :
    (pat s before after : String)
    → 1 ≤ chars_len pat
    → split_once pat s ≡ some (before, after)
    → chars_len after < chars_len s
split_once-lt pat [] b a l h = ground (arith, strip_prefix-lt pat [] a l)
split_once-lt pat (c ∷ s) b a l h = elim (Option-cases (strip_prefix pat (c ∷ s))) [
  | inr (t, e) ↦ ground (arith, strip_prefix-lt pat (c ∷ s) t l, e)
  | inl e ↦ elim (Option-cases (split_once pat s)) [
    | inl n ↦ ground (arith, e, n)
    | inr ((b', a'), m) ↦ ground (arith, e, m, split_once-lt pat s b' a' l)
  ]
]

pub round-lt :
    (s before after secret more : String)
    → split_once pattern_ s ≡ some (before, after)
    → split_once "\"" after ≡ some (secret, more)
    → suc (chars_len more) < chars_len s
round-lt s b a secret more h k =
    let x = split_once-lt pattern_ s b a (omega arith) h in
    let y = split_once-lt "\"" a secret more (omega arith) k in omega arith

-- Any two amounts of fuel above the length give the same.
redact_loop-fuel :
    (n m : ℕ) (s : String) → chars_len s < n → chars_len s < m → redact_loop n s ≡ redact_loop m s
unfolding redact_loop
redact_loop-fuel zero m s h k = ground arith
redact_loop-fuel (suc n) zero s h k = ground arith
redact_loop-fuel (suc n) (suc m) s h k = elim (Option-cases (split_once pattern_ s)) [
  | inl e ↦ rw (e, redact_loop) refl
  | inr ((b, a), e) ↦
      rw (e, redact_loop)
        (elim (Option-cases (split_once "\"" a)) [
          | inl q ↦ rw q refl
          | inr ((secret, more), q) ↦ rw q (
              rw
                (redact_loop-fuel n m more (ground (arith, round-lt s b a secret more e q))
                  (ground (arith, round-lt s b a secret more e q)))
                refl)
        ])
]

-- The loop ends on every text, and does what it does without fuel: a text with no field is kept;
-- else the text before the first field is kept, the field is replaced, and what follows its
-- closing quote is redacted, or dropped if there is no such quote.
pub redact_sensitive-loop :
    (s : String)
    → redact_sensitive s ≡ elim (split_once pattern_ s) [
      | none ↦ s
      | some (before, after) ↦ push_str before (
          push_str redacted (elim (split_once "\"" after) [
            | none ↦ ""
            | some (secret, more) ↦ redact_sensitive more
          ]))
    ]
unfolding redact_sensitive redact_loop
redact_sensitive-loop s = elim (Option-cases (split_once pattern_ s)) [
  | inl e ↦ rw (e, redact_sensitive, redact_loop) refl
  | inr ((b, a), e) ↦
      rw (e, redact_sensitive, redact_loop)
        (elim (Option-cases (split_once "\"" a)) [
          | inl q ↦ rw q refl
          | inr ((secret, more), q) ↦ rw q (
              rw
                (redact_loop-fuel (chars_len s) (suc (chars_len more)) more
                  (ground (arith, round-lt s b a secret more e q)) (ground arith))
                refl)
        ])
]
