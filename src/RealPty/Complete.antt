-- ===== src/RealPty/Complete.antt =====
-- real_pty.rs: turns and polls that alternate deliver a stream to its end.
use esesaetsch.Base.{
  ℕ, zero, suc, ◌≤◌, ◌<◌, false, List, [], ◌∷◌, ◌++◌, ◌≡◌, refl, sym, ◌∙◌, ap, Some, ok, err, arith,
  subst,
}
use esesaetsch.Crates.{Bytes}
use esesaetsch.Session.Pump.{stream}
use esesaetsch.RealPty.Reader.{
  Source, turn, async_reader_from_sync, Event, turn_of_task, poll, polled, run,
}
use esesaetsch.RealPty.Delivery.{Items, to_come, IsChunk, Fits, turn-to_come, polled-state}
use esesaetsch.RealPty.Progress.{
  reads_size, size, Finite, Turned, turn-Turned, HasEnd, polled-Shrinks, polled-Finite,
  Shrinks-size,
}

-- The blocking task and the task that reads take turns.
abbrev pub rounds : ℕ → ℕ → List Event
rounds zero room = []
rounds (suc n) room = turn_of_task ∷ poll room ∷ rounds n room

joined :
    (answers later : Items) (after before : Bytes)
    → Fits answers after before
    → (¬ HasEnd answers → stream later ≡ after)
    → stream (answers ++ later) ≡ before
joined [] later after before fits rest = rest (λ e. e) ∙ fits
joined (ok [] ∷ more) later after before fits rest = sym fits
joined (err e ∷ more) later after before fits rest = sym fits
joined (ok (b ∷ bs) ∷ more) later after before (one, fits) rest =
    rw one (ap (λ t. (b ∷ bs) ++ t) (rest (λ e. e)) ∙ fits)

turned : (s : Source) → s.dropped ≡ false → Finite s → Turned s (turn s)
turned s o f =
    subst (λ d. Turned (record s { dropped = d }) (turn (record s { dropped = d }))) (sym o)
      (turn-Turned s.reader.rx s.reader.leftover s.reader.closed s.held s.reads f)

-- A poll of a source whose reader is there, before what later events give.
polled-run :
    (room : ℕ) (events : List Event) (t : Source)
    → t.dropped ≡ false
    → (run (poll room ∷ events) t).0 ≡ (polled room t).0 ++ (run events (polled room t).1).0
unfolding run
polled-run room events t o = rw o refl

-- One round, if the rounds after it give what is then still to come.
round :
    (room : ℕ) (events : List Event) (s : Source)
    → s.dropped ≡ false
    → Finite s
    → ((s' : Source)
        → s'.dropped ≡ false
        → Finite s'
        → size s' < size s
        → stream (run events s').0 ≡ to_come s')
    → stream (run (turn_of_task ∷ poll (suc room) ∷ events) s).0 ≡ to_come s
unfolding run
round room events s o f later =
    let t = turn s in
    let turned_ = turned s o f in
    let (answers, t') = polled (suc room) (record t { dropped = false }) in
    let (o', f') =
      polled-Finite t.held t.reads room t.reader.rx t.reader.closed t.reader.leftover
        turned_.finite in
    let shrinks =
      polled-Shrinks t.held t.reads room t.reader.rx t.reader.closed t.reader.leftover in
    ap stream (polled-run (suc room) events t turned_.open_)
    ∙ ap
        (λ d.
          let p = polled (suc room) (record t { dropped = d }) in
          stream (p.0 ++ (run events p.1).0))
        turned_.open_
    ∙ joined answers (run events t').0 (to_come t') (to_come t)
        (polled-state t.held t.reads room t.reader.rx t.reader.closed t.reader.leftover)
        (λ going. later t' o' f' (
          Shrinks-size answers s (record t { dropped = false }) t'
            (record { open_ = refl; finite = turned_.finite; smaller = turned_.smaller }) shrinks
            going))
    ∙ turn-to_come s o

-- So many rounds and one more as a source's size give all that is to come.
pub whole :
    (n room : ℕ) (s : Source)
    → s.dropped ≡ false
    → Finite s
    → size s ≤ n
    → stream (run (rounds (suc n) (suc room)) s).0 ≡ to_come s
whole zero room s o f h = round room [] s o f λ s' o' f' less. absurd (ground arith)
whole (suc n) room s o f h =
    round room (rounds (suc n) (suc room)) s o f
      λ s' o' f' less. whole n room s' o' f' (omega arith)

pub run-rounds :
    (reads : Items) (n room : ℕ)
    → Some (λ r. ¬ IsChunk r) reads
    → reads_size reads ≤ n
    → stream (run (rounds (suc n) (suc room)) (async_reader_from_sync reads)).0 ≡ stream reads
unfolding async_reader_from_sync
run-rounds reads n room f h = whole n room (async_reader_from_sync reads) refl f (omega arith)
