-- ===== src/RealPty/Stream.antt =====
-- real_pty.rs, session.rs: from the blocking reads of a terminal to the client.
use esesaetsch.Base.{
  ℕ, zero, suc, ◌≤◌, Bool, true, false, Option, none, some, List, [], ◌∷◌, ◌++◌, String, ◌≡◌, refl,
  ◌∙◌, ap, ◌⊎◌, inl, inr, All, Some, Result, ok, err, ltb, length, arith, Bool-cases, append-nil,
}
use esesaetsch.Crates.{Bytes}
use esesaetsch.Session.Pump.{stream, pump_to_handle, concat, concat-pump_to_handle}
use esesaetsch.RealPty.Reader.{
  ChannelReader, receive, poll_read, Source, capacity, send, read, resume, turn,
  async_reader_from_sync, Event, turn_of_task, poll, drop_reader, run,
}
use esesaetsch.RealPty.Delivery.{Items, IsChunk, IsGiven, HasRoom, run-IsGiven}
use esesaetsch.RealPty.Complete.{rounds, run-rounds}
use esesaetsch.RealPty.Progress.{reads_size}

length-snoc :
    (items : Items) (item : Result String Bytes) → length (items ++ item ∷ []) ≡ suc (length items)
length-snoc [] item = refl
length-snoc (x ∷ items) item = ap (λ n. suc n) (length-snoc items item)

abbrev IsBounded : Source → Type 0
IsBounded s = length s.reader.rx ≤ capacity

read-IsBounded : (reads : Items) (s : Source) → IsBounded s → IsBounded (read reads s)
read-IsBounded [] s h = h
read-IsBounded (ok [] ∷ reads) s h = h
read-IsBounded (ok (b ∷ bs) ∷ reads) s h = h
read-IsBounded (err e ∷ reads) s h = h

send-IsBounded : (item : Result String Bytes) (s : Source) → IsBounded s → IsBounded (send item s)
send-IsBounded item s h = elim (Bool-cases s.dropped) [
  | inl gone ↦ rw gone h
  | inr there ↦ elim (Bool-cases (ltb (length s.reader.rx) capacity)) [
    | inr full ↦ rw there (rw full h)
    | inl room ↦ rw there (rw room (ground (arith, length-snoc s.reader.rx item)))
  ]
]

resume-IsBounded :
    (held : Option (Result String Bytes)) (s : Source) → IsBounded s → IsBounded (resume held s)
resume-IsBounded none s h = read-IsBounded s.reads s h
resume-IsBounded (some item) s h = send-IsBounded item s h

turn-IsBounded : (s : Source) → IsBounded s → IsBounded (turn s)
unfolding turn
turn-IsBounded s h = elim (Bool-cases s.reader.closed) [
  | inl over ↦ simp over h
  | inr going ↦ simp going (resume-IsBounded s.held s h)
]

receive-IsBounded :
    (room : ℕ) (closed : Bool) (rx : Items)
    → length rx ≤ capacity
    → length (receive room closed rx).2.rx ≤ capacity
receive-IsBounded room closed [] h = ground arith
receive-IsBounded room closed (ok bytes ∷ rx) h = omega arith
receive-IsBounded room closed (err e ∷ rx) h = omega arith

poll_read-IsBounded :
    (room : ℕ) (reader : ChannelReader) (leftover : Bytes)
    → reader.leftover ≡ leftover
    → length reader.rx ≤ capacity
    → length (poll_read room reader).2.rx ≤ capacity
unfolding poll_read
poll_read-IsBounded room reader [] e h = rw e (receive-IsBounded room reader.closed reader.rx h)
poll_read-IsBounded room reader (b ∷ bs) e h = rw e h

run-IsBounded : (events : List Event) (s : Source) → IsBounded s → IsBounded (run events s).1
unfolding run
run-IsBounded [] s h = h
run-IsBounded (turn_of_task ∷ events) s h = run-IsBounded events (turn s) (turn-IsBounded s h)
run-IsBounded (drop_reader ∷ events) s h = run-IsBounded events (record s { dropped = true }) h
run-IsBounded (poll room ∷ events) s h = elim (Bool-cases s.dropped) [
  | inl gone ↦ rw gone (run-IsBounded events (record s { dropped = true }) h)
  | inr there ↦ rw there (
      run-IsBounded events (record s { dropped = false; reader = (poll_read room s.reader).2 })
        (poll_read-IsBounded room s.reader s.reader.leftover refl h))
]

All-or_end : (items : Items) → All IsChunk items ⊎ Some (λ r. ¬ IsChunk r) items
All-or_end [] = inl tt
All-or_end (err e ∷ items) = inr (inl (λ c. c))
All-or_end (ok [] ∷ items) = inr (inl (λ c. c))
All-or_end (ok (b ∷ bs) ∷ items) = elim (All-or_end items) [
  | inl chunks ↦ inl (tt, chunks)
  | inr end ↦ inr (inr end)
]

given-sent :
    (answers : Items) (sent bytes : Bytes)
    → sent ≡ stream answers
    → IsGiven answers bytes
    → ((rest : Bytes) × (sent ++ rest ≡ bytes)) × (All IsChunk answers ⊎ (sent ≡ bytes))
given-sent answers sent bytes e (inl (chunks, rest, all)) = ((rest, rw e all), inl chunks)
given-sent answers sent bytes e (inr all) = (([], append-nil sent ∙ e ∙ all), inr (e ∙ all))

-- The blocking task and the task that reads take their turns in any order, and the reader may be
-- dropped; the reads' buffers are not empty, and the handle accepts what the pump sends. Then the
-- client is sent the first bytes of the stream, in order and no others; once the reads have answered
-- the pump's polls with an end of file or an error, it was sent all that the stream has before its
-- end; and the channel never holds more than eight items. If the stream has an end and the two
-- alternate, one round more than the bytes of the reads and three for each read are enough for the
-- client to be sent all of it.
pub concat-pump_to_handle-run :
    (accepts : ℕ → Bool) (reads : List (Result String Bytes)) (events : List Event) (n room : ℕ)
    → ((i : ℕ) → accepts i ≡ true)
    → All HasRoom events
    → 1 ≤ room
    → reads_size reads ≤ n
    → let (answers, source) = run events (async_reader_from_sync reads) in
      let sent = concat (pump_to_handle accepts 0 answers) in
      let whole = (run (rounds (suc n) room) (async_reader_from_sync reads)).0 in
      ((rest : Bytes) × (sent ++ rest ≡ stream reads))
      × (All IsChunk answers ⊎ (sent ≡ stream reads))
      × (length source.reader.rx ≤ 8)
      × (All IsChunk reads ⊎ (concat (pump_to_handle accepts 0 whole) ≡ stream reads))
unfolding async_reader_from_sync
concat-pump_to_handle-run accepts reads events n zero taken rooms r h = absurd (ground arith)
concat-pump_to_handle-run accepts reads events n (suc room) taken rooms r h =
    let begun = async_reader_from_sync reads in
    let answers = (run events begun).0 in
    let (first, ended) =
      given-sent answers (concat (pump_to_handle accepts 0 answers)) (stream reads)
        (concat-pump_to_handle accepts 0 answers taken) (run-IsGiven events begun refl rooms) in
    (
      first,
      ended,
      run-IsBounded events begun (omega arith),
      elim (All-or_end reads) [
        | inl chunks ↦ inl chunks
        | inr end ↦ inr (
            concat-pump_to_handle accepts 0 (run (rounds (suc n) (suc room)) begun).0 taken
            ∙ run-rounds reads n room end h)
      ],
    )
