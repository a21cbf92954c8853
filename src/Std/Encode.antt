-- ===== src/Std/Encode.antt =====
-- `str::as_bytes` and `str::from_utf8`: one undoes the other.
use Prim.Native.Char.{char, IsScalar}
use Prim.Native.Nat.{compare, Ordering}
use Prim.Native.String.{[], ◌∷◌}
use text.Mathlib.TextEquality.{Char-path}
use esesaetsch.Base.{
  ℕ, ◌+◌, ◌-◌, ◌*◌, ◌/◌, ◌%◌, ◌<◌, ◌≤◌, Option, some, List, [], ◌∷◌, ◌++◌, Char, code, String, ltb,
  eqb, from_u32, scalar_of, ◌∙◌, ap, ◌≡◌, arith, inl, inr, ◌⊎◌, refl, Bool-cases, true,
}
use esesaetsch.Std.Utf8.{from_utf8, as_bytes, decode_from, encode, start, step, ready, pending}

scalar_of-some :
    (n : ℕ) (a b c : Ordering) (p : compare n 55296 ≡ a) (q : compare 57343 n ≡ b)
    (r : compare n 1114112 ≡ c)
    → IsScalar n
    → (d : Char) × (scalar_of n a b c p q r ≡ some d) × (code d ≡ n)
unfolding scalar_of
scalar_of-some n Ordering.lt b c p q r h = (_, refl, refl)
scalar_of-some n Ordering.eq Ordering.lt Ordering.lt p q r h = (_, refl, refl)
scalar_of-some n Ordering.gt Ordering.lt Ordering.lt p q r h = (_, refl, refl)
scalar_of-some n Ordering.eq Ordering.lt c p q r h = absurd (rw (p, q, r) at h)
scalar_of-some n Ordering.gt Ordering.lt c p q r h = absurd (rw (p, q, r) at h)
scalar_of-some n Ordering.eq b c p q r h = absurd (rw (p, q) at h)
scalar_of-some n Ordering.gt b c p q r h = absurd (rw (p, q) at h)

from_u32-code : (c : Char) → from_u32 (code c) ≡ some c
unfolding from_u32
from_u32-code (char n h) =
    let (d, e, m) =
      scalar_of-some n (compare n 55296) (compare 57343 n) (compare n 1114112) refl refl refl h in
    e ∙ ap some (Char-path d (char n h) m)

-- One byte of a sequence, at each place of it.
start-two : (x : ℕ) → 2 ≤ x → x < 32 → start (0xc0 + x) ≡ ([], pending 1 x 0x80 0xbf)
unfolding start
start-two x l h = ground arith

start-three :
    (x y : ℕ)
    → x < 16
    → y < 64
    → (x ≡ 0 → 32 ≤ y)
    → (x ≡ 13 → y < 32)
    → (lo : ℕ) × (hi : ℕ) × (start (0xe0 + x) ≡ ([], pending 2 x lo hi))
      × (lo ≤ 0x80 + y)
      × (0x80 + y ≤ hi)
unfolding start
start-three x y h k low high = elim (Bool-cases (eqb x 0)) [
  | inl a ↦ (0xa0, 0xbf, ground arith, ground arith, ground arith)
  | inr a ↦ elim (Bool-cases (eqb x 13)) [
    | inl b ↦ (0x80, 0x9f, ground arith, ground arith, ground arith)
    | inr b ↦ (0x80, 0xbf, ground arith, ground arith, ground arith)
  ]
]

start-four :
    (x y : ℕ)
    → x < 5
    → y < 64
    → (x ≡ 0 → 16 ≤ y)
    → (x ≡ 4 → y < 16)
    → (lo : ℕ) × (hi : ℕ) × (start (0xf0 + x) ≡ ([], pending 3 x lo hi))
      × (lo ≤ 0x80 + y)
      × (0x80 + y ≤ hi)
unfolding start
start-four x y h k low high = elim (Bool-cases (eqb x 0)) [
  | inl a ↦ (0x90, 0xbf, ground arith, ground arith, ground arith)
  | inr a ↦ elim (Bool-cases (eqb x 4)) [
    | inl b ↦ (0x80, 0x8f, ground arith, ground arith, ground arith)
    | inr b ↦ (0x80, 0xbf, ground arith, ground arith, ground arith)
  ]
]

step-last :
    (bits lo hi y : ℕ)
    → lo ≤ 0x80 + y
    → 0x80 + y ≤ hi
    → step (pending 1 bits lo hi) (0x80 + y) ≡ (from_u32 (bits * 64 + y) ∷ [], ready)
unfolding step
step-last bits lo hi y l h = ground arith

step-next :
    (m bits lo hi y : ℕ)
    → lo ≤ 0x80 + y
    → 0x80 + y ≤ hi
    → 2 ≤ m
    → step (pending m bits lo hi) (0x80 + y) ≡ ([], pending (m - 1) (bits * 64 + y) 0x80 0xbf)
unfolding step
step-next m bits lo hi y l h k = ground arith

decode_two :
    (x y : ℕ) (rest : List ℕ)
    → 2 ≤ x
    → x < 32
    → y < 64
    → decode_from ready ((0xc0 + x) ∷ (0x80 + y) ∷ rest)
      ≡ from_u32 (x * 64 + y) ∷ decode_from ready rest
unfolding decode_from step
decode_two x y rest a b h =
    rw (start-two x a b) (rw (step-last x 0x80 0xbf y (omega arith) (omega arith)) refl)

decode_three :
    (x y z : ℕ) (rest : List ℕ)
    → x < 16
    → y < 64
    → z < 64
    → (x ≡ 0 → 32 ≤ y)
    → (x ≡ 13 → y < 32)
    → decode_from ready ((0xe0 + x) ∷ (0x80 + y) ∷ (0x80 + z) ∷ rest)
      ≡ from_u32 ((x * 64 + y) * 64 + z) ∷ decode_from ready rest
unfolding decode_from step
decode_three x y z rest h k l low high =
    let (lo, hi, e, a, b) = start-three x y h k low high in
    rw e (
      rw (step-next 2 x lo hi y a b (omega arith))
        (rw (step-last (x * 64 + y) 0x80 0xbf z (omega arith) (omega arith)) refl))

decode_four :
    (x y z w : ℕ) (rest : List ℕ)
    → x < 5
    → y < 64
    → z < 64
    → w < 64
    → (x ≡ 0 → 16 ≤ y)
    → (x ≡ 4 → y < 16)
    → decode_from ready ((0xf0 + x) ∷ (0x80 + y) ∷ (0x80 + z) ∷ (0x80 + w) ∷ rest)
      ≡ from_u32 (((x * 64 + y) * 64 + z) * 64 + w) ∷ decode_from ready rest
unfolding decode_from step
decode_four x y z w rest h k l m low high =
    let (lo, hi, e, a, b) = start-four x y h k low high in
    rw e (
      rw (step-next 3 x lo hi y a b (omega arith)) (
        rw (step-next 2 (x * 64 + y) 0x80 0xbf z (omega arith) (omega arith) (omega arith))
          (rw (step-last ((x * 64 + y) * 64 + z) 0x80 0xbf w (omega arith) (omega arith)) refl)))

pub scalar-bounds : (c : Char) → (code c < 0xd800) ⊎ ((0xdfff < code c) × (code c < 0x110000))
scalar-bounds (char n h) = ground arith

module _ (c : Char) (rest : List ℕ) where
  abbrev n : ℕ
  n = code c

  abbrev after : List (Option Char)
  after = decode_from ready rest

  item : (m : ℕ) → m ≡ n → Path (List (Option Char)) (from_u32 m ∷ after) (some c ∷ after)
  item m e = ap (λ k. from_u32 k ∷ after) e ∙ ap (λ i. i ∷ after) (from_u32-code c)

  one : n < 0x80 → decode_from ready (n ∷ rest) ≡ some c ∷ after
  unfolding decode_from step start
  one h = let e : ltb n 0x80 ≡ true = ground arith in rw e (item n refl)

  two :
      0x80 ≤ n
      → n < 0x800
      → decode_from ready ((0xc0 + n / 64) ∷ (0x80 + n % 64) ∷ rest) ≡ some c ∷ after
  two l h =
      decode_two (n / 64) (n % 64) rest (omega arith) (omega arith) (omega arith)
      ∙ item _ (omega arith)

  three :
      0x800 ≤ n
      → n < 0x10000
      → decode_from ready ((0xe0 + n / 4096) ∷ (0x80 + n / 64 % 64) ∷ (0x80 + n % 64) ∷ rest)
        ≡ some c ∷ after
  three l h =
      let s = scalar-bounds c in
      decode_three (n / 4096) (n / 64 % 64) (n % 64) rest (omega arith) (omega arith) (omega arith)
        (λ e. omega arith) (λ e. omega arith)
      ∙ item _ (omega arith)

  four :
      0x10000 ≤ n
      → decode_from ready (
          (0xf0 + n / 262144)
          ∷ (0x80 + n / 4096 % 64)
          ∷ (0x80 + n / 64 % 64)
          ∷ (0x80 + n % 64)
          ∷ rest)
        ≡ some c ∷ after
  four l =
      let s = scalar-bounds c in
      decode_four (n / 262144) (n / 4096 % 64) (n / 64 % 64) (n % 64) rest (omega arith)
        (omega arith) (omega arith) (omega arith) (λ e. omega arith) (λ e. omega arith)
      ∙ item _ (omega arith)

  decode_from-encode : decode_from ready (encode n ++ rest) ≡ some c ∷ after
  unfolding encode
  decode_from-encode = elim (Bool-cases (ltb n 0x80)) [
    | inl a ↦ rw a (one (ground arith))
    | inr a ↦ elim (Bool-cases (ltb n 0x800)) [
      | inl b ↦ rw (a, b) (two (ground arith) (ground arith))
      | inr b ↦ elim (Bool-cases (ltb n 0x10000)) [
        | inl d ↦ rw (a, b, d) (three (ground arith) (ground arith))
        | inr d ↦ rw (a, b, d) (four (ground arith))
      ]
    ]
  ]

-- A text's bytes are read as that text.
pub from_utf8-as_bytes : (s : String) → from_utf8 (as_bytes s) ≡ some s
unfolding from_utf8 as_bytes decode_from
from_utf8-as_bytes [] = refl
from_utf8-as_bytes (c ∷ s) =
    rw (decode_from-encode c (as_bytes s)) (ground (arith, from_utf8-as_bytes s))
