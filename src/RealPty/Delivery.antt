-- ===== src/RealPty/Delivery.antt =====
-- real_pty.rs: what the channel between the blocking reads and a task delivers, in any order of turns
-- and polls.
use esesaetsch.Base.{
  ℕ, zero, suc, ◌≤◌, Bool, true, false, Option, none, some, List, [], ◌∷◌, ◌++◌, String, ◌≡◌, refl,
  sym, ◌∙◌, ap, subst, ◌⊎◌, inl, inr, All, Result, ok, err, ltb, length, take, drop,
  take-append-drop, append_assoc, append-nil, arith, Bool-cases,
}
use esesaetsch.Crates.{Bytes}
use esesaetsch.Session.Pump.{stream}
use esesaetsch.RealPty.Reader.{
  poll_read, Source, capacity, is_last, send, read, turn, Event, turn_of_task, poll, drop_reader,
  polled, run,
}

abbrev pub Items : Type 0
Items = List (Result String Bytes)

abbrev item_of : Option (Result String Bytes) → Items
item_of none = []
item_of (some item) = item ∷ []

-- What the blocking task has yet to send.
abbrev pub unsent : Bool → Option (Result String Bytes) → Items → Items
unsent true held reads = []
unsent false held reads = item_of held ++ reads

-- The bytes of the stream that the reader has not given yet.
abbrev pub to_come : Source → Bytes
to_come s = s.reader.leftover ++ stream (s.reader.rx ++ unsent s.reader.closed s.held s.reads)

stream-empty : (xs ys : Items) → stream (xs ++ ok [] ∷ ys) ≡ stream xs
stream-empty [] ys = refl
stream-empty (err e ∷ xs) ys = refl
stream-empty (ok [] ∷ xs) ys = refl
stream-empty (ok (b ∷ bs) ∷ xs) ys = ap (λ t. (b ∷ bs) ++ t) (stream-empty xs ys)

stream-err : (xs ys : Items) (e : String) → stream (xs ++ err e ∷ ys) ≡ stream xs
stream-err [] ys e = refl
stream-err (err x ∷ xs) ys e = refl
stream-err (ok [] ∷ xs) ys e = refl
stream-err (ok (b ∷ bs) ∷ xs) ys e = ap (λ t. (b ∷ bs) ++ t) (stream-err xs ys e)

module _ (rx : Items) (leftover : Bytes) where
  abbrev pub source : Bool → Option (Result String Bytes) → Items → Source
  source closed held reads = record {
    reads = reads;
    held = held;
    reader = record { rx = rx; closed = closed; leftover = leftover };
    dropped = false;
  }

  read-to_come :
      (reads : Items)
      → to_come (read reads (source false none reads)) ≡ to_come (source false none reads)
  read-to_come [] = refl
  read-to_come (ok [] ∷ reads) =
      ap (λ t. leftover ++ t) (ap stream (append-nil rx) ∙ sym (stream-empty rx reads))
  read-to_come (ok (b ∷ bs) ∷ reads) = refl
  read-to_come (err e ∷ reads) = refl

  sent-to_come :
      (item : Result String Bytes) (reads : Items)
      → stream ((rx ++ item ∷ []) ++ unsent (is_last item) none reads) ≡ stream (rx ++ item ∷ reads)
  sent-to_come (ok bytes) reads = ap stream (append_assoc rx (ok bytes ∷ []) reads)
  sent-to_come (err e) reads =
      ap stream (append-nil (rx ++ err e ∷ [])) ∙ stream-err rx [] e ∙ sym (stream-err rx reads e)

  send-to_come :
      (item : Result String Bytes) (reads : Items)
      → to_come (send item (source false (some item) reads))
        ≡ to_come (source false (some item) reads)
  send-to_come item reads = elim (Bool-cases (ltb (length rx) capacity)) [
    | inl room ↦ rw room (ap (λ t. leftover ++ t) (sent-to_come item reads))
    | inr full ↦ rw full refl
  ]

  turn-state :
      (closed : Bool) (held : Option (Result String Bytes)) (reads : Items)
      → to_come (turn (source closed held reads)) ≡ to_come (source closed held reads)
  unfolding turn
  turn-state true held reads = refl
  turn-state false none reads = read-to_come reads
  turn-state false (some item) reads = send-to_come item reads

pub turn-to_come : (s : Source) → s.dropped ≡ false → to_come (turn s) ≡ to_come s
turn-to_come s open_ =
    subst (λ d. to_come (turn (record s { dropped = d })) ≡ to_come s) (sym open_)
      (turn-state s.reader.rx s.reader.leftover s.reader.closed s.held s.reads)

read-dropped : (reads : Items) (s : Source) → (read reads s).dropped ≡ s.dropped
read-dropped [] s = refl
read-dropped (ok [] ∷ reads) s = refl
read-dropped (ok (b ∷ bs) ∷ reads) s = refl
read-dropped (err e ∷ reads) s = refl

turn-dropped : (s : Source) (d : Bool) → s.dropped ≡ d → (turn s).dropped ≡ d
unfolding turn
turn-dropped s d h = ground (arith, read-dropped s.reads s)

abbrev pub IsChunk : Result String Bytes → Type 0
IsChunk (ok []) = ⊥
IsChunk (ok (b ∷ bs)) = Unit
IsChunk (err e) = ⊥

-- How an answer and the source after it fit the source before: there is none and all is still to
-- come, or it has the next bytes, or it is the end and nothing was to come.
abbrev pub Fits : Items → Bytes → Bytes → Type 0
Fits [] after before = after ≡ before
Fits (ok [] ∷ more) after before = before ≡ []
Fits (err e ∷ more) after before = before ≡ []
Fits (ok (b ∷ bs) ∷ more) after before = (more ≡ []) × ((b ∷ bs) ++ after ≡ before)

rejoin : (n : ℕ) (xs t : Bytes) → take n xs ++ (drop n xs ++ t) ≡ xs ++ t
rejoin n xs t =
    sym (append_assoc (take n xs) (drop n xs) t) ∙ ap (λ ys. ys ++ t) (take-append-drop n xs)

module _ (held : Option (Result String Bytes)) (reads : Items) where
  pub polled-state :
      (room : ℕ) (rx : Items) (closed : Bool) (leftover : Bytes)
      → let (answers, s') = polled (suc room) (source rx leftover closed held reads) in
        Fits answers (to_come s') (to_come (source rx leftover closed held reads))
  unfolding poll_read
  polled-state room rx closed (b ∷ bs) =
      (refl, ap (λ t. b ∷ t) (rejoin room bs (stream (rx ++ unsent closed held reads))))
  polled-state room [] true [] = refl
  polled-state room [] false [] = refl
  polled-state room (err e ∷ rx) closed [] = refl
  polled-state room (ok [] ∷ rx) closed [] = refl
  polled-state room (ok (b ∷ bs) ∷ rx) closed [] =
      (refl, ap (λ t. b ∷ t) (rejoin room bs (stream (rx ++ unsent closed held reads))))

-- The answers are chunks with the first bytes of these, or they have an end, and all before it.
abbrev pub IsGiven : Items → Bytes → Type 0
IsGiven answers bytes =
    (All IsChunk answers × (rest : Bytes) × (stream answers ++ rest ≡ bytes))
    ⊎ (stream answers ≡ bytes)

IsGiven-after :
    (here later : Items) (after before : Bytes)
    → Fits here after before
    → IsGiven later after
    → IsGiven (here ++ later) before
IsGiven-after [] later after before fits given = subst (IsGiven later) fits given
IsGiven-after (ok [] ∷ more) later after before fits given = inr (sym fits)
IsGiven-after (err e ∷ more) later after before fits given = inr (sym fits)
IsGiven-after (ok (b ∷ bs) ∷ more) later after before (one, fits) given = rw one (elim given [
  | inl (chunks, rest, e) ↦ inl (
    (tt, chunks),
    rest,
    append_assoc (b ∷ bs) (stream later) rest ∙ ap (λ t. (b ∷ bs) ++ t) e ∙ fits,
  )
  | inr e ↦ inr (ap (λ t. (b ∷ bs) ++ t) e ∙ fits)
])

run-dropped : (events : List Event) (s : Source) → s.dropped ≡ true → (run events s).0 ≡ []
unfolding run
run-dropped [] s h = refl
run-dropped (turn_of_task ∷ events) s h = run-dropped events (turn s) (turn-dropped s true h)
run-dropped (poll room ∷ events) s h = rw h (run-dropped events (record s { dropped = true }) refl)
run-dropped (drop_reader ∷ events) s h = run-dropped events (record s { dropped = true }) refl

-- A poll of the task comes with room for some bytes.
abbrev pub HasRoom : Event → Type 0
HasRoom (poll room) = 1 ≤ room
HasRoom _ = Unit

pub run-IsGiven :
    (events : List Event) (s : Source)
    → s.dropped ≡ false
    → All HasRoom events
    → IsGiven (run events s).0 (to_come s)
unfolding run
run-IsGiven [] s open_ rooms = inl (tt, to_come s, refl)
run-IsGiven (turn_of_task ∷ events) s open_ (_, rooms) =
    subst (IsGiven (run events (turn s)).0) (turn-to_come s open_)
      (run-IsGiven events (turn s) (turn-dropped s false open_) rooms)
run-IsGiven (drop_reader ∷ events) s open_ rooms =
    rw (run-dropped events (record s { dropped = true }) refl) (inl (tt, to_come s, refl))
run-IsGiven (poll zero ∷ events) s open_ (room, rooms) = absurd (ground arith)
run-IsGiven (poll (suc room) ∷ events) s open_ (_, rooms) =
    let t = record s { dropped = false } in
    let (answers, t') = polled (suc room) t in
    subst (λ d. IsGiven (run (poll (suc room) ∷ events) (record s { dropped = d })).0 (to_come s))
      (sym open_)
      (IsGiven-after answers (run events t').0 (to_come t') (to_come t)
        (polled-state s.held s.reads room s.reader.rx s.reader.closed s.reader.leftover)
        (run-IsGiven events t' refl rooms))
