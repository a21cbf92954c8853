-- ===== src/Base/Texts.antt =====
-- What the program uses of Rust's `str`: formatting, `split_whitespace`, UTF-8.
use Prim.Native.Nat.{ℕ, compare, Ordering}
use Prim.Native.Char.{Char, char, code}
use Prim.Native.String
use Prim.Native.String.{String, [], ◌∷◌}
use mathlib.Core.Path.{◌≡◌, refl}
use mathlib.Core.Bool.{Bool, true, false, ◌&&◌, ◌||◌}
use mathlib.Core.List.{List, [], ◌∷◌}
use mathlib.Core.Option.{Option, none, some}
use esesaetsch.Base.Tests.{leb, eqb, if◌then◌else◌}

-- `format!`: the pieces in order
abbrev pub format : List String → String
format [] = ""
format (s ∷ ss) = String.◌++◌ s (format ss)

-- `char::is_whitespace`: the code points with the property White_Space
unfoldable pub is_whitespace : ℕ → Bool
is_whitespace c =
    leb 9 c && leb c 13
    || eqb c 32
    || eqb c 0x85
    || eqb c 0xa0
    || eqb c 0x1680
    || leb 0x2000 c && leb c 0x200a
    || eqb c 0x2028
    || eqb c 0x2029
    || eqb c 0x202f
    || eqb c 0x205f
    || eqb c 0x3000

-- the word read so far, unless it is empty
abbrev close_word : String → List String → List String
close_word [] ws = ws
close_word (c ∷ s) ws = (c ∷ s) ∷ ws

words_from : String → String → List String
words_from cur [] = close_word cur []
words_from cur (c ∷ s) =
    let closed = close_word cur (words_from "" s) in
    let longer = words_from (String.◌++◌ cur (c ∷ [])) s in
    if is_whitespace (code c) then closed else longer

-- `str::split_whitespace`
unfoldable pub split_whitespace : String → List String
unfolding words_from is_whitespace
split_whitespace s = words_from "" s

-- `s.trim().is_empty()`: nothing but whitespace
unfoldable pub is_blank : String → Bool
unfolding is_whitespace
is_blank [] = true
is_blank (c ∷ s) = is_whitespace (code c) && is_blank s

-- `char::from_u32`
unfoldable pub scalar_of :
    (n : ℕ) (a b c : Ordering)
    → compare n 55296 ≡ a
    → compare 57343 n ≡ b
    → compare n 1114112 ≡ c
    → Option Char
scalar_of n Ordering.lt b c p q r = some (char n (rw p tt))
scalar_of n Ordering.eq Ordering.lt Ordering.lt p q r = some (char n (rw (p, q, r) tt))
scalar_of n Ordering.gt Ordering.lt Ordering.lt p q r = some (char n (rw (p, q, r) tt))
scalar_of n a b c p q r = none

unfoldable pub from_u32 : ℕ → Option Char
unfolding scalar_of
from_u32 n = scalar_of n (compare n 55296) (compare 57343 n) (compare n 1114112) refl refl refl

-- the characters of a text, and a text of characters
abbrev pub chars : String → List Char
chars [] = []
chars (c ∷ s) = c ∷ chars s

abbrev pub of_chars : List Char → String
of_chars [] = []
of_chars (c ∷ cs) = c ∷ of_chars cs

-- `Option::is_some`
abbrev pub is_some {ℓ} : {A : Type ℓ} → Option A → Bool
is_some none = false
is_some (some a) = true
