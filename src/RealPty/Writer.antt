-- ===== src/RealPty/Writer.antt =====
-- real_pty.rs: async_writer_from_sync and ChannelWriter, which carry a task's writes to a blocking
-- stream.
use esesaetsch.Base.{
  ℕ, suc, ◌≤◌, Bool, true, false, List, [], ◌∷◌, ◌++◌, String, ◌≡◌, refl, sym, ◌∙◌, ap, Result, ok,
  err, subst, take, if◌then◌else◌, length, append_assoc, append-nil, arith, ltb, Bool-cases, inl,
  inr,
}
use esesaetsch.Crates.{Bytes}
use esesaetsch.Session.Pump.{concat}

-- The channel between the two, which holds eight chunks, and what the stream was given.
pub record Bridge : Type 0 where
  pub queue : List Bytes
  -- the receiver is gone: the loop of the blocking task has ended
  pub closed : Bool
  pub written : Bytes

abbrev pub capacity : ℕ
capacity = 8

pub data Poll : Type 0 where
  ready : Result String ℕ → Poll
  pending : Poll

-- `poll_write`, whose `try_send` looks for a closed channel first
unfoldable pub poll_write : Bytes → Bridge → Poll × Bridge
poll_write buf self =
    if self.closed
    then (ready (err "pty writer closed"), self)
    else if ltb (length self.queue) capacity
    then (ready (ok (length buf)), record self { queue = self.queue ++ buf ∷ [] })
    else (pending, self)

-- One round of the blocking loop: `done` says whether `write_all` succeeds.
unfoldable pub write_chunk : Bool → Bridge → Bridge
write_chunk done self = elim self.queue [
  | [] ↦ self
  | chunk ∷ rest ↦
      if done
      then record self { queue = rest; written = self.written ++ chunk }
      else record self { queue = []; closed = true }
]

pub data Event : Type 0 where
  write : Bytes → Event
  receive : (done : Bool) → Event

-- What the writes are answered when these events come in this order, and the bridge after them.
unfoldable pub run : Bridge → List Event → List (Bytes × Poll) × Bridge
unfolding poll_write write_chunk
run self [] = ([], self)
run self (write buf ∷ events) =
    let (poll, self') = poll_write buf self in
    let (answers, last) = run self' events in ((buf, poll) ∷ answers, last)
run self (receive done ∷ events) = run (write_chunk done self) events

-- The bytes that the writer was told are written.
abbrev pub reported : Bytes → Poll → Bytes
reported buf (ready (ok n)) = take n buf
reported buf (ready (err e)) = []
reported buf pending = []

abbrev pub all_reported : List (Bytes × Poll) → Bytes
all_reported [] = []
all_reported ((buf, poll) ∷ answers) = reported buf poll ++ all_reported answers

-- Every reported byte is written or waits, in order; after a failed write nothing waits, and the
-- bytes that were written are the first ones.
abbrev pub IsConserved : Bool → List Bytes → Bytes → Bytes → Type 0
IsConserved false queue written told = told ≡ written ++ concat queue
IsConserved true queue written told = (queue ≡ []) × (rest : Bytes) × (told ≡ written ++ rest)

pub record IsInOrder (told : Bytes) (self : Bridge) : Type 0 where
  pub bounded : length self.queue ≤ capacity
  pub conserved : IsConserved self.closed self.queue self.written told

length-snoc : (q : List Bytes) (b : Bytes) → length (q ++ b ∷ []) ≡ suc (length q)
length-snoc [] b = refl
length-snoc (x ∷ q) b = ap (λ n. suc n) (length-snoc q b)

pub concat-snoc : (q : List Bytes) (b : Bytes) → concat (q ++ b ∷ []) ≡ concat q ++ b
concat-snoc [] b = append-nil b
concat-snoc (x ∷ q) b = ap (λ t. x ++ t) (concat-snoc q b) ∙ sym (append_assoc x (concat q) b)

take-length : (b : Bytes) → take (length b) b ≡ b
take-length [] = refl
take-length (x ∷ b) = ap (λ t. x ∷ t) (take-length b)

module _ (queue : List Bytes) (written told : Bytes) where
  abbrev bridge : Bool → Bridge
  bridge closed = record { queue = queue; closed = closed; written = written }

  poll_write-state :
      (buf : Bytes) (closed : Bool)
      → IsInOrder told (bridge closed)
      → IsInOrder
          (told ++ reported buf (poll_write buf (bridge closed)).0)
          (poll_write buf (bridge closed)).1
  unfolding poll_write
  poll_write-state buf true h = rw append-nil h
  poll_write-state buf false h = elim (Bool-cases (ltb (length queue) capacity)) [
    | inr full ↦ rw full (rw append-nil h)
    | inl room ↦ rw room (record {
      bounded = ground (arith, length-snoc queue buf);
      conserved =
          ap (λ t. told ++ t) (take-length buf)
          ∙ ap (λ t. t ++ buf) h.conserved
          ∙ append_assoc written (concat queue) buf
          ∙ ap (λ t. written ++ t) (sym (concat-snoc queue buf));
    })
  ]

write_chunk-state :
    (queue : List Bytes) (written told : Bytes) (closed done : Bool)
    → IsInOrder told (bridge queue written told closed)
    → IsInOrder told (write_chunk done (bridge queue written told closed))
unfolding write_chunk
write_chunk-state [] written told closed done h = h
write_chunk-state (chunk ∷ rest) written told true done h = absurd (ground (arith, h.conserved.0))
write_chunk-state (chunk ∷ rest) written told false true h = record {
  bounded = ground (arith, h.bounded);
  conserved = h.conserved ∙ sym (append_assoc written chunk (concat rest));
}
write_chunk-state (chunk ∷ rest) written told false false h = record {
  bounded = omega arith;
  conserved = (refl, concat (chunk ∷ rest), h.conserved);
}

-- In whatever order writes and rounds of the loop come, at most eight chunks wait, and what the
-- stream was given is, in order, a prefix of the bytes that the answers to the writes report as
-- written; until a write to the stream fails, it is all of them but those that wait.
pub run-IsInOrder :
    (events : List Event) (self : Bridge) (told : Bytes)
    → IsInOrder told self
    → IsInOrder (told ++ all_reported (run self events).0) (run self events).1
unfolding run
run-IsInOrder [] self told h = rw append-nil h
run-IsInOrder (write buf ∷ events) self told h =
    let (poll, self') = poll_write buf self in
    subst (λ t. IsInOrder t (run self' events).1)
      (append_assoc told (reported buf poll) (all_reported (run self' events).0))
      (run-IsInOrder events self' (told ++ reported buf poll)
        (poll_write-state self.queue self.written told buf self.closed h))
run-IsInOrder (receive done ∷ events) self told h =
    run-IsInOrder events _ told (write_chunk-state self.queue self.written told self.closed done h)
