-- ===== src/Session/Pump.antt =====
-- session.rs: the three pumps, each as a function of what its reads and writes answer.
use esesaetsch.Base.{
  Bool-cases, inl, inr, append_assoc, append-nil, ℕ, suc, Bool, true, List, [], ◌∷◌, ◌++◌, String,
  ◌≡◌, refl, Result, ok, err, if◌then◌else◌,
}
use esesaetsch.Crates.{Bytes}

-- `pump_to_handle_data` and `pump_to_handle_ext_data`: the results of the reads, and whether the
-- n-th send succeeds. The payloads handed to the handle, in order.
unfoldable pub pump_to_handle : (ℕ → Bool) → ℕ → List (Result String Bytes) → List Bytes
pump_to_handle sends n [] = []
pump_to_handle sends n (err e ∷ reads) = []
pump_to_handle sends n (ok [] ∷ reads) = []
pump_to_handle sends n (ok (b ∷ bs) ∷ reads) =
    let rest = pump_to_handle sends (suc n) reads in (b ∷ bs) ∷ (if sends n then rest else [])

-- `pump_stdin`: the chunks received, and whether the n-th `write_all` succeeds. The chunks written.
unfoldable pub pump_stdin : (ℕ → Bool) → ℕ → List Bytes → List Bytes
pump_stdin writes n [] = []
pump_stdin writes n (bytes ∷ rest) =
    let more = pump_stdin writes (suc n) rest in if writes n then bytes ∷ more else []

abbrev pub concat : List Bytes → Bytes
concat [] = []
concat (bs ∷ rest) = bs ++ concat rest

-- The bytes of the reads before the end of the stream: an empty read, or an error.
abbrev pub stream : List (Result String Bytes) → Bytes
stream [] = []
stream (err e ∷ reads) = []
stream (ok [] ∷ reads) = []
stream (ok (b ∷ bs) ∷ reads) = (b ∷ bs) ++ stream reads

-- Whether every send succeeds or not, the client is sent a prefix of the bytes of the stream, in
-- order, and nothing after its end.
pub pump_to_handle-prefix :
    (sends : ℕ → Bool) (n : ℕ) (reads : List (Result String Bytes))
    → (rest : Bytes) × (stream reads ≡ concat (pump_to_handle sends n reads) ++ rest)
unfolding pump_to_handle
pump_to_handle-prefix sends n [] = ([], refl)
pump_to_handle-prefix sends n (err e ∷ reads) = ([], refl)
pump_to_handle-prefix sends n (ok [] ∷ reads) = ([], refl)
pump_to_handle-prefix sends n (ok (b ∷ bs) ∷ reads) =
    let (rest, e) = pump_to_handle-prefix sends (suc n) reads in
    elim (Bool-cases (sends n)) [
      | inl sent ↦ (rest, rw sent (rw e (rw append_assoc refl)))
      | inr failed ↦ (stream reads, rw failed (rw append-nil refl))
    ]

-- While the handle accepts, the client is sent all of them.
pub concat-pump_to_handle :
    (sends : ℕ → Bool) (n : ℕ) (reads : List (Result String Bytes))
    → ((i : ℕ) → sends i ≡ true)
    → concat (pump_to_handle sends n reads) ≡ stream reads
unfolding pump_to_handle
concat-pump_to_handle sends n [] open_ = refl
concat-pump_to_handle sends n (err e ∷ reads) open_ = refl
concat-pump_to_handle sends n (ok [] ∷ reads) open_ = refl
concat-pump_to_handle sends n (ok (b ∷ bs) ∷ reads) open_ =
    rw (open_ n) (rw (concat-pump_to_handle sends (suc n) reads open_) refl)
