-- ===== src/Std/Utf8.antt =====
-- `str::from_utf8`, `String::from_utf8_lossy` and `str::as_bytes`: UTF-8 as a machine on bytes.
use Prim.Native.Char.{char}
use Prim.Native.String.{[], ◌∷◌}
use esesaetsch.Base.{
  ℕ, ◌+◌, ◌-◌, ◌*◌, ◌/◌, ◌%◌, Bool, ◌&&◌, Option, none, some, List, [], ◌∷◌, ◌++◌, Char, code,
  String, ltb, leb, eqb, if◌then◌else◌, from_u32, ◌≡◌, arith, Option-cases, inl, inr,
}

-- Between two characters, or in one: how many bytes are missing, the bits read so far, and the
-- range of the next byte.
pub data Decoder : Type 0 where
  ready : Decoder
  pending : (missing bits lo hi : ℕ) → Decoder

abbrev within : ℕ → ℕ → ℕ → Bool
within lo hi b = leb lo b && leb b hi

-- A first byte: the items that it completes, and the state after it. `none` is an invalid sequence.
unfoldable pub start : ℕ → List (Option Char) × Decoder
start b =
    if ltb b 0x80
    then (from_u32 b ∷ [], ready)
    else if within 0xc2 0xdf b
    then ([], pending 1 (b - 0xc0) 0x80 0xbf)
    else if eqb b 0xe0
    then ([], pending 2 0 0xa0 0xbf)
    else if eqb b 0xed
    then ([], pending 2 0xd 0x80 0x9f)
    else if within 0xe1 0xef b
    then ([], pending 2 (b - 0xe0) 0x80 0xbf)
    else if eqb b 0xf0
    then ([], pending 3 0 0x90 0xbf)
    else if within 0xf1 0xf3 b
    then ([], pending 3 (b - 0xf0) 0x80 0xbf)
    else if eqb b 0xf4
    then ([], pending 3 4 0x80 0x8f)
    else (none ∷ [], ready)

-- One byte more. A byte that does not continue the sequence begins the next one.
unfoldable pub step : Decoder → ℕ → List (Option Char) × Decoder
step ready b = start b
step (pending missing bits lo hi) b =
    let bits' = bits * 64 + (b - 0x80) in
    if within lo hi b
    then (if eqb missing 1
        then (from_u32 bits' ∷ [], ready)
        else ([], pending (missing - 1) bits' 0x80 0xbf))
    else (none ∷ (start b).0, (start b).1)

abbrev finish : Decoder → List (Option Char)
finish ready = []
finish (pending _ _ _ _) = none ∷ []

-- The characters of a byte sequence, with `none` for each maximal invalid part.
unfoldable pub decode_from : Decoder → List ℕ → List (Option Char)
decode_from s [] = finish s
decode_from s (b ∷ bs) = let (items, s') = step s b in items ++ decode_from s' bs

abbrev pub join : List (Option Char) → Option String
join [] = some []
join (none ∷ items) = none
join (some c ∷ items) = elim (join items) [ none ↦ none | some s ↦ some (c ∷ s) ]

unfoldable pub from_utf8 : List ℕ → Option String
unfolding decode_from step start from_u32
from_utf8 bytes = join (decode_from ready bytes)

-- U+FFFD for each invalid part
abbrev replace_invalid : List (Option Char) → String
replace_invalid [] = []
replace_invalid (none ∷ items) = char 0xfffd tt ∷ replace_invalid items
replace_invalid (some c ∷ items) = c ∷ replace_invalid items

unfoldable pub from_utf8_lossy : List ℕ → String
unfolding decode_from step start from_u32
from_utf8_lossy bytes = replace_invalid (decode_from ready bytes)

-- `char::encode_utf8`
unfoldable pub encode : ℕ → List ℕ
encode c =
    if ltb c 0x80
    then c ∷ []
    else if ltb c 0x800
    then (0xc0 + c / 64) ∷ (0x80 + c % 64) ∷ []
    else if ltb c 0x10000
    then (0xe0 + c / 4096) ∷ (0x80 + c / 64 % 64) ∷ (0x80 + c % 64) ∷ []
    else (0xf0 + c / 262144) ∷ (0x80 + c / 4096 % 64) ∷ (0x80 + c / 64 % 64) ∷ (0x80 + c % 64) ∷ []

unfoldable pub as_bytes : String → List ℕ
unfolding encode
as_bytes [] = []
as_bytes (c ∷ s) = encode (code c) ++ as_bytes s

-- What a lossy reading gives is what the strict one gives, where that succeeds.
join-eq-some :
    (items : List (Option Char)) (s : String) → join items ≡ some s → replace_invalid items ≡ s
join-eq-some [] s h = ground arith
join-eq-some (none ∷ items) s h = cc
join-eq-some (some c ∷ items) s h = elim (Option-cases (join items)) [
  | inl e ↦ ground (arith, e)
  | inr (t, e) ↦ ground (arith, e, join-eq-some items t e)
]

pub from_utf8_lossy_of_valid :
    (bytes : List ℕ) (s : String) → from_utf8 bytes ≡ some s → from_utf8_lossy bytes ≡ s
unfolding from_utf8 from_utf8_lossy
from_utf8_lossy_of_valid bytes s h = join-eq-some (decode_from ready bytes) s h
