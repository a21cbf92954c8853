-- ===== src/RealPty/Progress.antt =====
-- real_pty.rs: a turn and a poll bring the end of a stream nearer.
use esesaetsch.Base.{
  ℕ, zero, suc, ◌+◌, ◌≤◌, ◌<◌, Bool, true, false, Option, none, some, [], ◌∷◌, ◌++◌, String, ◌≡◌,
  ◌≢◌, refl, ◌⊎◌, inl, inr, Some, Result, ok, err, ltb, length, drop, arith, Bool-cases,
}
use esesaetsch.Crates.{Bytes}
use esesaetsch.RealPty.Reader.{poll_read, Source, capacity, is_last, send, read, turn, polled}
use esesaetsch.RealPty.Delivery.{Items, source, IsChunk}

-- An upper bound of the turns and polls that an item needs, by where it is.
abbrev pub item_size : Result String Bytes → ℕ
item_size (ok bytes) = suc (length bytes)
item_size (err e) = 1

abbrev pub items_size : Items → ℕ
items_size [] = 0
items_size (item ∷ items) = item_size item + items_size items

abbrev pub held_size : Option (Result String Bytes) → ℕ
held_size none = 0
held_size (some item) = suc (item_size item)

abbrev pub reads_size : Items → ℕ
reads_size [] = 0
reads_size (ok bytes ∷ reads) = 3 + length bytes + reads_size reads
reads_size (err e ∷ reads) = 3 + reads_size reads

abbrev pub unsent_size : Bool → Option (Result String Bytes) → Items → ℕ
unsent_size true held reads = 0
unsent_size false held reads = held_size held + reads_size reads

abbrev pub size : Source → ℕ
size s =
    length s.reader.leftover + items_size s.reader.rx + unsent_size s.reader.closed s.held s.reads

-- The loop has ended, or it is to send an error, or there is an end among the reads.
abbrev pub IsFinite : Bool → Option (Result String Bytes) → Items → Type 0
IsFinite true held reads = Unit
IsFinite false (some (err e)) reads = Unit
IsFinite false (some (ok bytes)) reads = Some (λ r. ¬ IsChunk r) reads
IsFinite false none reads = Some (λ r. ¬ IsChunk r) reads

abbrev pub Finite : Source → Type 0
Finite s = IsFinite s.reader.closed s.held s.reads

items_size-snoc :
    (items : Items) (item : Result String Bytes)
    → items_size (items ++ item ∷ []) ≡ items_size items + item_size item
items_size-snoc [] item = ground arith
items_size-snoc (x ∷ items) item = ground (arith, items_size-snoc items item)

length-drop : (n : ℕ) (xs : Bytes) → length (drop n xs) ≤ length xs
length-drop zero xs = ground arith
length-drop (suc n) [] = ground arith
length-drop (suc n) (x ∷ xs) = ground (arith, length-drop n xs)

-- A turn brings the end nearer, or leaves something to poll for.
pub record Turned (before after : Source) : Type 0 where
  pub open_ : after.dropped ≡ false
  pub finite : Finite after
  pub smaller :
      (size after < size before)
      ⊎ ((size after ≤ size before) × ((after.reader.closed ≡ true) ⊎ (after.reader.rx ≢ [])))

module _ (rx : Items) (leftover : Bytes) where
  read-Turned :
      (reads : Items)
      → Some (λ r. ¬ IsChunk r) reads
      → Turned
          (source rx leftover false none reads)
          (read reads (source rx leftover false none reads))
  read-Turned [] f = absurd f
  read-Turned (ok [] ∷ reads) f = record { open_ = refl; finite = tt; smaller = inl (omega arith) }
  read-Turned (ok (b ∷ bs) ∷ reads) (inl f) = absurd (f tt)
  read-Turned (ok (b ∷ bs) ∷ reads) (inr f) = record {
    open_ = refl;
    finite = f;
    smaller = inl (omega arith);
  }
  read-Turned (err e ∷ reads) f = record { open_ = refl; finite = tt; smaller = inl (omega arith) }

  sent-Turned :
      (item : Result String Bytes) (reads : Items)
      → IsFinite false (some item) reads
      → Turned
          (source rx leftover false (some item) reads)
          (source (rx ++ item ∷ []) leftover (is_last item) none reads)
  sent-Turned (ok bytes) reads f = record {
    open_ = refl;
    finite = f;
    smaller = inl (omega (arith, items_size-snoc rx (ok bytes)));
  }
  sent-Turned (err e) reads f = record {
    open_ = refl;
    finite = tt;
    smaller = inl (omega (arith, items_size-snoc rx (err e)));
  }

  send-Turned :
      (item : Result String Bytes) (reads : Items)
      → IsFinite false (some item) reads
      → Turned
          (source rx leftover false (some item) reads)
          (send item (source rx leftover false (some item) reads))
  send-Turned item reads f = elim (Bool-cases (ltb (length rx) capacity)) [
    | inr full ↦ rw full (record {
      open_ = refl;
      finite = f;
      smaller = inr (ground arith, inr (λ e. absurd (ground (arith, e))));
    })
    | inl room ↦ rw room (sent-Turned item reads f)
  ]

  pub turn-Turned :
      (closed : Bool) (held : Option (Result String Bytes)) (reads : Items)
      → IsFinite closed held reads
      → Turned (source rx leftover closed held reads) (turn (source rx leftover closed held reads))
  unfolding turn
  turn-Turned true held reads f = record {
    open_ = refl;
    finite = tt;
    smaller = inr (ground arith, inl refl);
  }
  turn-Turned false none reads f = read-Turned reads f
  turn-Turned false (some item) reads f = send-Turned item reads f

-- A poll that waits found the channel empty and open; one that gives a chunk brings the end nearer.
abbrev pub Shrinks : Items → Source → Source → Type 0
Shrinks [] after before =
    (before.reader.rx ≡ []) × (before.reader.closed ≡ false) × (size after ≡ size before)
Shrinks (ok (b ∷ bs) ∷ more) after before = size after < size before
Shrinks (ok [] ∷ more) after before = Unit
Shrinks (err e ∷ more) after before = Unit

abbrev pub HasEnd : Items → Type 0
HasEnd [] = ⊥
HasEnd (ok (b ∷ bs) ∷ more) = ⊥
HasEnd (ok [] ∷ more) = Unit
HasEnd (err e ∷ more) = Unit

module _ (held : Option (Result String Bytes)) (reads : Items) where
  pub polled-Shrinks :
      (room : ℕ) (rx : Items) (closed : Bool) (leftover : Bytes)
      → let (answers, s') = polled (suc room) (source rx leftover closed held reads) in
        Shrinks answers s' (source rx leftover closed held reads)
  unfolding poll_read
  polled-Shrinks room rx closed (b ∷ bs) = omega (arith, length-drop room bs)
  polled-Shrinks room [] true [] = tt
  polled-Shrinks room [] false [] = (refl, refl, refl)
  polled-Shrinks room (err e ∷ rx) closed [] = tt
  polled-Shrinks room (ok [] ∷ rx) closed [] = tt
  polled-Shrinks room (ok (b ∷ bs) ∷ rx) closed [] = omega (arith, length-drop room bs)

  pub polled-Finite :
      (room : ℕ) (rx : Items) (closed : Bool) (leftover : Bytes)
      → IsFinite closed held reads
      → let s' = (polled (suc room) (source rx leftover closed held reads)).1 in
        (s'.dropped ≡ false) × Finite s'
  unfolding poll_read
  polled-Finite room rx closed (b ∷ bs) f = (refl, f)
  polled-Finite room [] closed [] f = (refl, f)
  polled-Finite room (err e ∷ rx) closed [] f = (refl, f)
  polled-Finite room (ok bytes ∷ rx) closed [] f = (refl, f)

pub Shrinks-size :
    (answers : Items) (s t t' : Source)
    → Turned s t
    → Shrinks answers t' t
    → ¬ HasEnd answers
    → size t' < size s
Shrinks-size [] s t t' turned (empty, open_, same) going = elim turned.smaller [
  | inl less ↦ ground arith
  | inr (_, inl closed) ↦ absurd (ground arith)
  | inr (_, inr there) ↦ absurd (there empty)
]
Shrinks-size (ok (b ∷ bs) ∷ more) s t t' turned less going = elim turned.smaller [
  | inl l ↦ ground arith
  | inr (l, _) ↦ ground arith
]
Shrinks-size (ok [] ∷ more) s t t' turned less going = absurd (going tt)
Shrinks-size (err e ∷ more) s t t' turned less going = absurd (going tt)
