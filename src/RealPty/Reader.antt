-- ===== src/RealPty/Reader.antt =====
-- real_pty.rs: async_reader_from_sync and ChannelReader, which carry a blocking stream to a task.
-- The blocking task and the polls take turns in any order; a turn is a read, or a try to send.
use esesaetsch.Base.{
  ℕ, Bool, true, false, Option, none, some, List, [], ◌∷◌, ◌++◌, String, Result, ok, err, ltb,
  if◌then◌else◌, length, take, drop,
}
use esesaetsch.Crates.{Bytes}

-- The channel holds the items sent and not received; `closed` says that the sender is gone, which is
-- so when the loop of the blocking task has ended.
pub record ChannelReader : Type 0 where
  pub rx : List (Result String Bytes)
  pub closed : Bool
  pub leftover : Bytes

pub data Poll : Type 0 where
  ready : Result String (Unit {0}) → Poll
  pending : Poll

-- `poll_recv`
abbrev pub receive : ℕ → Bool → List (Result String Bytes) → Poll × Bytes × ChannelReader
receive room closed [] = (
  if closed then ready (ok tt) else pending,
  [],
  record { rx = []; closed = closed; leftover = [] },
)
receive room closed (ok bytes ∷ rest) = (
  ready (ok tt),
  take room bytes,
  record { rx = rest; closed = closed; leftover = drop room bytes },
)
receive room closed (err e ∷ rest) =
    (ready (err e), [], record { rx = rest; closed = closed; leftover = [] })

-- `poll_read` of a buffer with room for so many bytes: the answer, and the bytes put.
unfoldable pub poll_read : ℕ → ChannelReader → Poll × Bytes × ChannelReader
poll_read room self = elim self.leftover [
  | [] ↦ receive room self.closed self.rx
  | b ∷ bs ↦ (ready (ok tt), take room (b ∷ bs), record self { leftover = drop room (b ∷ bs) })
]

-- Both ends: what the blocking reads have yet to answer, the item that the blocking task is to send
-- next, the reader, and whether the reader was dropped.
pub record Source : Type 0 where
  pub reads : List (Result String Bytes)
  pub held : Option (Result String Bytes)
  pub reader : ChannelReader
  pub dropped : Bool

abbrev pub capacity : ℕ
capacity = 8

abbrev pub is_last : Result String Bytes → Bool
is_last (ok bytes) = false
is_last (err e) = true

-- `blocking_send`, which waits for a place in the channel and fails without a reader. The loop ends
-- if it fails, and after an error.
abbrev pub send : Result String Bytes → Source → Source
send item s =
    if s.dropped
    then record s { held = none; reader = record s.reader { closed = true } }
    else if ltb (length s.reader.rx) capacity
    then record s {
      held = none;
      reader = record s.reader { rx = s.reader.rx ++ item ∷ []; closed = is_last item };
    }
    else s

-- `read`: it blocks while there is no answer, and an empty one ends the loop.
abbrev pub read : List (Result String Bytes) → Source → Source
read [] s = s
read (ok [] ∷ reads) s = record s { reads = reads; reader = record s.reader { closed = true } }
read (ok (b ∷ bs) ∷ reads) s = record s { reads = reads; held = some (ok (b ∷ bs)) }
read (err e ∷ reads) s = record s { reads = reads; held = some (err e) }

abbrev pub resume : Option (Result String Bytes) → Source → Source
resume none s = read s.reads s
resume (some item) s = send item s

-- A turn of the blocking task, unless its loop has ended.
unfoldable pub turn : Source → Source
turn s = if s.reader.closed then s else resume s.held s

-- `async_reader_from_sync`
unfoldable pub async_reader_from_sync : List (Result String Bytes) → Source
async_reader_from_sync reads = record {
  reads = reads;
  held = none;
  reader = record { rx = []; closed = false; leftover = [] };
  dropped = false;
}

pub data Event : Type 0 where
  turn_of_task : Event
  poll : (room : ℕ) → Event
  drop_reader : Event

-- What the task that reads is told; while it has to wait, nothing.
abbrev pub told : Poll → Bytes → List (Result String Bytes)
told (ready (ok _)) bytes = ok bytes ∷ []
told (ready (err e)) bytes = err e ∷ []
told pending bytes = []

abbrev pub polled : ℕ → Source → List (Result String Bytes) × Source
polled room s =
    let (answer, bytes, reader) = poll_read room s.reader in
    (told answer bytes, record s { reader = reader })

-- A reader that was dropped is not polled.
unfoldable pub step : Event → Source → List (Result String Bytes) × Source
unfolding turn poll_read
step turn_of_task s = ([], turn s)
step (poll room) s = if s.dropped then ([], s) else polled room s
step drop_reader s = ([], record s { dropped = true })

-- What the reading task is told when these events come in this order, and both ends after them.
unfoldable pub run : List Event → Source → List (Result String Bytes) × Source
unfolding step
run [] s = ([], s)
run (e ∷ events) s =
    let (here, s') = step e s in let (later, last) = run events s' in (here ++ later, last)
