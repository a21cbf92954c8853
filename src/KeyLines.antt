-- ===== src/KeyLines.antt =====
-- Public-key lines, `type base64 [comment]`, as the configuration, the allowlist and the trusted
-- CAs have them: which key a line holds, independent of the loops that decode them.
use esesaetsch.Base.{
  some, List, [], ◌∷◌, String, ◌≡◌, ◌↔◌, inl, inr, nth, Some, split_whitespace, Result, ok, map_err,
  ok_or, ◌>>=◌, arith, Option-cases, Result-cases, subst,
}
use esesaetsch.Crates.{Bytes, Decode}

module _ (decode : Decode) where
  -- The line has a second word, and that word decodes to `key`.
  abbrev pub IsKeyLine : Bytes → String → Type 0
  IsKeyLine key line =
      (word : String) × (nth 1 (split_whitespace line) ≡ some word) × (decode word ≡ ok key)

  abbrev pub HasKey : String → Type 0
  HasKey line = (key : Bytes) × IsKeyLine key line

  -- A line stands for one key.
  pub IsKeyLine-unique :
      (key key' : Bytes) (line : String) → IsKeyLine key line → IsKeyLine key' line → key ≡ key'
  IsKeyLine-unique key key' line (word, e, d) (word', e', d') = ground arith

  -- The blobs are the keys of the lines, in order.
  abbrev pub Decodes : List String → List Bytes → Type 0
  Decodes [] [] = Unit
  Decodes [] (_ ∷ _) = ⊥
  Decodes (_ ∷ _) [] = ⊥
  Decodes (line ∷ lines) (key ∷ keys) = IsKeyLine key line × Decodes lines keys

  pub Decodes-iff :
      (lines : List String) (blobs : List Bytes) (key : Bytes)
      → Decodes lines blobs
      → Some (λ b. b ≡ key) blobs ↔ Some (IsKeyLine key) lines
  Decodes-iff [] [] key d = (λ s. s, λ s. s)
  Decodes-iff [] (_ ∷ _) key d = absurd d
  Decodes-iff (_ ∷ _) [] key d = absurd d
  Decodes-iff (line ∷ lines) (key' ∷ rest) key (here, later) =
      let ih = Decodes-iff lines rest key later in
      (
        elim [ inl p ↦ inl (subst (λ k. IsKeyLine k line) p here) | inr s ↦ inr (ih.0 s) ],
        elim [ inl p ↦ inl (IsKeyLine-unique key' key line here p) | inr s ↦ inr (ih.1 s) ],
      )

  module _ {E : Type 0} (missing : E) (bad : String → E) where
    -- The reading of one line that the loops share, up to the errors.
    abbrev pub read_line : String → Result E Bytes
    read_line line = do
      word ← ok_or missing (nth 1 (split_whitespace line))
      map_err bad (decode word)

    pub read_line_sound :
        (line : String) (key : Bytes) → read_line line ≡ ok key → IsKeyLine key line
    read_line_sound line key h = elim (Option-cases (nth 1 (split_whitespace line))) [
      | inl e ↦ absurd (ground arith)
      | inr (word, e) ↦ elim (Result-cases (decode word)) [
        | inr (detail, d) ↦ absurd (ground arith)
        | inl (key', d) ↦ (word, e, ground arith)
      ]
    ]

    pub read_line_complete :
        (line : String) (key : Bytes) → IsKeyLine key line → read_line line ≡ ok key
    read_line_complete line key (word, e, d) = rw (e, d)
