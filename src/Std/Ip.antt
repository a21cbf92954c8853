-- ===== src/Std/Ip.antt =====
-- `IpAddr::from_str`: the parser of `core::net::parser`, over the code points of the text.
use Prim.Native.Char.{code}
use Prim.Native.String.{[], ◌∷◌}
use esesaetsch.Base.{
  ℕ, zero, suc, ◌+◌, ◌-◌, ◌*◌, Bool, true, false, not, ◌&&◌, ◌||◌, Option, none, some, List, [],
  ◌∷◌, ◌++◌, String, ltb, leb, eqb, if◌then◌else◌, length, replicate, ◌≡◌, refl,
}

pub data IpAddr : Type 0 where
  v4 : (a b c d : ℕ) → IpAddr
  -- eight groups of 16 bits
  v6 : List ℕ → IpAddr

abbrev Input : Type 0
Input = List ℕ

abbrev Parser : Type 0 → Type 0
Parser A = Input → Option (A × Input)

infixl 5 ◌>>=◌ ◌>>◌
abbrev ◌>>=◌ : {A B : Type 0} → Parser A → (A → Parser B) → Parser B
◌>>=◌ p f s = elim (p s) [ none ↦ none | some (a, s') ↦ f a s' ]

abbrev ◌>>◌ : {A B : Type 0} → Parser A → Parser B → Parser B
p >> q = p >>= λ _. q

abbrev pure : {A : Type 0} → A → Parser A
pure a s = some (a, s)

abbrev given : ℕ → Parser (Unit {0})
given c [] = none
given c (d ∷ s) = if eqb c d then some (tt, s) else none

abbrev codes : String → Input
codes [] = []
codes (c ∷ s) = code c ∷ codes s

-- `char::to_digit`
abbrev digit : ℕ → ℕ → Option ℕ
digit radix c =
    if leb b'0' c && leb c b'9'
    then some (c - b'0')
    else if leb b'a' c && leb c b'f' && eqb radix 16
    then some (c - b'a' + 10)
    else if leb b'A' c && leb c b'F' && eqb radix 16
    then some (c - b'A' + 10)
    else none

-- All the digits that follow: how many, and their value.
digits : ℕ → ℕ → ℕ → Input → ℕ × ℕ × Input
digits radix n value [] = (n, value, [])
digits radix n value (c ∷ s) = elim (digit radix c) [
  | none ↦ (n, value, c ∷ s)
  | some d ↦ digits radix (n + 1) (value * radix + d) s
]

abbrev leading_zero : Input → Bool
leading_zero [] = false
leading_zero (c ∷ s) = eqb c b'0'

-- `read_number`: at least one digit and at most `most`, a value of at most `max`, and no leading
-- zero unless it is allowed.
read_number : ℕ → ℕ → ℕ → Bool → Parser ℕ
unfolding digits
read_number radix most max zeros s =
    let (n, value, rest) = digits radix 0 0 s in
    if eqb n 0 || ltb most n || ltb max value
    then none
    else if not zeros && leading_zero s && ltb 1 n
    then none
    else some (value, rest)

read_octet : Parser ℕ
unfolding read_number
read_octet = read_number 10 3 255 false

read_ipv4 : Parser (ℕ × ℕ × ℕ × ℕ)
unfolding read_octet
read_ipv4 = do
  a ← read_octet
  given b'.'
  b ← read_octet
  given b'.'
  c ← read_octet
  given b'.'
  d ← read_octet
  pure (a, b, c, d)

-- `read_separator`: a colon before every group but the first
abbrev separated : {A : Type 0} → ℕ → Parser A → Parser A
separated zero p = p
separated (suc i) p = given b':' >> p

-- `read_groups`: up to `limit - i` groups from the `i`th on, where the last two may be written as
-- an IPv4 address; whether they were.
read_groups : ℕ → ℕ → Input → List ℕ × Bool × Input
unfolding read_number read_ipv4
read_groups zero i s = ([], false, s)
read_groups (suc left) i s = elim (if eqb left 0 then none else separated i read_ipv4 s) [
  | some ((a, b, c, d), s') ↦ ((a * 256 + b) ∷ (c * 256 + d) ∷ [], true, s')
  | none ↦ elim (separated i (read_number 16 4 0xffff true) s) [
    | some (g, s') ↦
        let (gs, v4_tail, rest) = read_groups left (i + 1) s' in (g ∷ gs, v4_tail, rest)
    | none ↦ ([], false, s)
  ]
]

-- the part after `::`, and the zeros that it stands for
after_gap : List ℕ → Parser (List ℕ)
unfolding read_groups
after_gap head s =
    let (tail, _, rest) = read_groups (8 - (length head + 1)) 0 s in
    some (head ++ replicate (8 - length head - length tail) 0 ++ tail, rest)

read_ipv6 : Parser (List ℕ)
unfolding read_groups after_gap
read_ipv6 s =
    let (head, v4_tail, rest) = read_groups 8 0 s in
    if eqb (length head) 8
    then some (head, rest)
    else if v4_tail
    then none
    else (do given b':'; given b':'; after_gap head) rest

abbrev whole : {A : Type 0} → Option (A × Input) → Option A
whole none = none
whole (some (a, [])) = some a
whole (some (a, c ∷ s)) = none

read_ip : Parser IpAddr
unfolding read_ipv4 read_ipv6
read_ip s = elim (read_ipv4 s) [
  | some ((a, b, c, d), s') ↦ some (v4 a b c d, s')
  | none ↦ elim (read_ipv6 s) [ none ↦ none | some (gs, s') ↦ some (v6 gs, s') ]
]

unfoldable pub ip_from_str : String → Option IpAddr
unfolding read_ip
ip_from_str s = whole (read_ip (codes s))

ip_tests :
    (ip_from_str "127.0.0.1" ≡ some (v4 127 0 0 1))
    × (ip_from_str "1.2.3.04" ≡ none)
    × (ip_from_str "::1" ≡ some (v6 (0 ∷ 0 ∷ 0 ∷ 0 ∷ 0 ∷ 0 ∷ 0 ∷ 1 ∷ [])))
    × (ip_from_str "fe80::1:192.168.0.1" ≡ some (v6 (0xfe80 ∷ 0 ∷ 0 ∷ 0 ∷ 0 ∷ 1 ∷ 0xc0a8 ∷ 1 ∷ [])))
    × (ip_from_str "localhost" ≡ none)
    × (ip_from_str "1.2.3.4 " ≡ none)
unfolding ip_from_str
ip_tests = (refl, refl, refl, refl, refl, refl)
