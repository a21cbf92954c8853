-- ===== src/Crates.antt =====
-- What the program takes from other crates, as arguments of the models that use it.
use esesaetsch.Base.{
  ℕ, Bool, true, false, ◌&&◌, List, [], ◌∷◌, String, ◌≡◌, ◌↔◌, Result, eqb, arith,
}

abbrev pub Bytes : Type 0
Bytes = List ℕ

-- `russh::keys::parse_public_key_base64`, and then `public_key_bytes`: the wire blob of the key,
-- or the text of the error.
abbrev pub Decode : Type 0
Decode = String → Result String Bytes

-- `subtle::ConstantTimeEq` for byte slices: it answers whether they are equal.
pub record ConstantTimeEq : Type 0 where
  pub ct_eq : Bytes → Bytes → Bool
  pub ct_eq_iff : (a b : Bytes) → (ct_eq a b ≡ true) ↔ (a ≡ b)

bytes_eq : Bytes → Bytes → Bool
bytes_eq [] [] = true
bytes_eq (x ∷ xs) (y ∷ ys) = eqb x y && bytes_eq xs ys
bytes_eq _ _ = false

bytes_eq_iff : (a b : Bytes) → (bytes_eq a b ≡ true) ↔ (a ≡ b)
unfolding bytes_eq
bytes_eq_iff [] [] = ground arith
bytes_eq_iff [] (y ∷ ys) = ground arith
bytes_eq_iff (x ∷ xs) [] = ground arith
bytes_eq_iff (x ∷ xs) (y ∷ ys) = ground (arith, bytes_eq_iff xs ys)

-- A comparison byte by byte meets the contract.
unfoldable pub bytewise : ConstantTimeEq
unfolding bytes_eq bytes_eq_iff
bytewise = record { ct_eq = bytes_eq; ct_eq_iff = bytes_eq_iff }
