-- ===== src/Std/Utf16.antt =====
-- `str::encode_utf16`, and what a reader of a null-terminated string of its units gets.
use Prim.Native.String.{[], ◌∷◌}
use esesaetsch.Base.{
  ℕ, ◌+◌, ◌-◌, ◌*◌, ◌/◌, ◌%◌, ◌<◌, ◌≤◌, true, false, ◌&&◌, ◌⊎◌, Option, none, some, List, [], ◌∷◌,
  ◌++◌, Char, code, String, ltb, leb, eqb, if◌then◌else◌, ◌≡◌, refl, ap, inl, inr, arith,
  Bool-cases, append_assoc, ◌∙◌,
}
use esesaetsch.Std.Encode.{scalar-bounds}

-- `char::encode_utf16`
unfoldable pub units : ℕ → List ℕ
units c =
    if ltb c 0x10000
    then c ∷ []
    else (0xd800 + (c - 0x10000) / 1024) ∷ (0xdc00 + (c - 0x10000) % 1024) ∷ []

unfoldable pub encode_utf16 : String → List ℕ
unfolding units
encode_utf16 [] = []
encode_utf16 (c ∷ s) = units (code c) ++ encode_utf16 s

-- A string of C ends before its first null. Without one a reader goes on behind the end.
abbrev pub after_unit : ℕ → Option (List ℕ) → Option (List ℕ)
after_unit u none = none
after_unit u (some us) = some (u ∷ us)

abbrev pub until_null : List ℕ → Option (List ℕ)
until_null [] = none
until_null (u ∷ us) = let rest = until_null us in if eqb u 0 then some [] else after_unit u rest

abbrev pub before_null : String → String
before_null [] = []
before_null (c ∷ s) = if eqb (code c) 0 then [] else c ∷ before_null s

-- The code points of a text.
abbrev pub codes : String → List ℕ
codes [] = []
codes (c ∷ s) = code c ∷ codes s

-- The code points of well-formed units; the first half of a pair is held until the second.
unfoldable pub decode_utf16 : Option ℕ → List ℕ → List ℕ
decode_utf16 high [] = []
decode_utf16 none (u ∷ us) =
    let half = decode_utf16 (some u) us in
    let whole : List ℕ = u ∷ decode_utf16 none us in
    if leb 0xd800 u && leb u 0xdbff then half else whole
decode_utf16 (some h) (u ∷ us) =
    (0x10000 + (h - 0xd800) * 1024 + (u - 0xdc00)) ∷ decode_utf16 none us

decode_one :
    (c : ℕ) (rest : List ℕ)
    → c < 0x10000
    → (c < 0xd800) ⊎ ((0xdfff < c) × (c < 0x110000))
    → decode_utf16 none (c ∷ rest) ≡ c ∷ decode_utf16 none rest
unfolding decode_utf16
decode_one c rest small s = ground arith

decode_pair :
    (x y : ℕ) (rest : List ℕ)
    → x < 1024
    → decode_utf16 none ((0xd800 + x) ∷ (0xdc00 + y) ∷ rest)
      ≡ (0x10000 + x * 1024 + y) ∷ decode_utf16 none rest
unfolding decode_utf16
decode_pair x y rest h =
    let high : (leb 0xd800 (0xd800 + x) && leb (0xd800 + x) 0xdbff) ≡ true = ground arith in
    rw high (ap (λ c. c ∷ decode_utf16 none rest) (omega arith))

decode_large :
    (c : ℕ) (rest : List ℕ)
    → 0x10000 ≤ c
    → c < 0x110000
    → decode_utf16 none ((0xd800 + (c - 0x10000) / 1024) ∷ (0xdc00 + (c - 0x10000) % 1024) ∷ rest)
      ≡ c ∷ decode_utf16 none rest
decode_large c rest l h =
    decode_pair ((c - 0x10000) / 1024) ((c - 0x10000) % 1024) rest (omega arith)
    ∙ ap (λ d. d ∷ decode_utf16 none rest) (omega arith)

decode-units :
    (c : Char) (rest : List ℕ)
    → decode_utf16 none (units (code c) ++ rest) ≡ code c ∷ decode_utf16 none rest
unfolding units
decode-units c rest = elim (Bool-cases (ltb (code c) 0x10000)) [
  | inl small ↦ rw small (decode_one (code c) rest (ground arith) (scalar-bounds c))
  | inr large ↦
      rw large (decode_large (code c) rest (ground arith) (ground (arith, scalar-bounds c)))
]

pub decode_utf16-encode_utf16 : (s : String) → decode_utf16 none (encode_utf16 s) ≡ codes s
unfolding encode_utf16 decode_utf16
decode_utf16-encode_utf16 [] = refl
decode_utf16-encode_utf16 (c ∷ s) =
    rw (decode-units c (encode_utf16 s)) (ap (λ t. code c ∷ t) (decode_utf16-encode_utf16 s))

-- No unit of another character is a null.
until_null-units :
    (c : ℕ) (rest us : List ℕ)
    → eqb c 0 ≡ false
    → until_null rest ≡ some us
    → until_null (units c ++ rest) ≡ some (units c ++ us)
unfolding units
until_null-units c rest us h e = ground arith

pub until_null-encode_utf16 :
    (s : String) → until_null (encode_utf16 s ++ 0 ∷ []) ≡ some (encode_utf16 (before_null s))
unfolding encode_utf16
until_null-encode_utf16 [] = refl
until_null-encode_utf16 (c ∷ s) = elim (Bool-cases (eqb (code c) 0)) [
  | inl null ↦ let zero_ : code c ≡ 0 = ground arith in rw null (rw (zero_, units) refl)
  | inr other ↦ rw other (
      rw (append_assoc (units (code c)) (encode_utf16 s) (0 ∷ [])) (
        until_null-units (code c) (encode_utf16 s ++ 0 ∷ []) (encode_utf16 (before_null s)) other
          (until_null-encode_utf16 s)))
]
