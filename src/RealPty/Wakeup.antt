-- ===== src/RealPty/Wakeup.antt =====
-- real_pty.rs and session.rs: a stdin pump at the write of a chunk to the bridge. The runtime polls a
-- task again only after its waker was called; `poll_write` does not keep the waker of its context.
use esesaetsch.Base.{
  ℕ, Bool, true, false, Option, none, some, List, [], ◌∷◌, String, Result, ok, ◌++◌, ◌≢◌, sym, ap,
  append-nil, append_assoc, ◌≡◌, refl, ◌∙◌, if◌then◌else◌, length, ltb, arith, Option-cases, inl,
  inr, some-injective, subst,
}
use esesaetsch.Crates.{Bytes}
use esesaetsch.Session.Pump.{concat}
use esesaetsch.RealPty.Writer.{Bridge, capacity, Poll, ready, pending, poll_write, write_chunk}

-- `writer.write_all(&bytes).await`: whether the task is to be polled, and how the write ended.
pub record WriteTask : Type 0 where
  pub bridge : Bridge
  pub bytes : Bytes
  pub awake : Bool
  pub outcome : Option (Result String ℕ)

pub data Turn : Type 0 where
  -- the runtime polls the task
  polled : Turn
  -- the blocking loop takes the next chunk; `done` says whether its write succeeds
  received : (done : Bool) → Turn

abbrev pub after_poll : WriteTask → Poll × Bridge → WriteTask
after_poll w (ready answer, bridge) = record w { bridge = bridge; outcome = some answer }
after_poll w (pending, bridge) = record w { bridge = bridge; awake = false }

-- `write_all` of an empty chunk ends without a write.
abbrev pub write_all : Bytes → WriteTask → WriteTask
write_all [] w = record w { outcome = some (ok 0) }
write_all (b ∷ bs) w = after_poll w (poll_write (b ∷ bs) w.bridge)

-- A task whose write has ended goes on elsewhere.
abbrev pub poll_task : Option (Result String ℕ) → WriteTask → Option WriteTask
poll_task (some answer) w = none
poll_task none w = if w.awake then some (write_all w.bytes w) else none

unfoldable pub turn : WriteTask → Turn → Option WriteTask
unfolding poll_write write_chunk
turn w polled = poll_task w.outcome w
turn w (received done) = some (record w { bridge = write_chunk done w.bridge })

unfoldable pub turns : WriteTask → List Turn → Option WriteTask
turns w [] = some w
turns w (t ∷ ts) = elim (turn w t) [ none ↦ none | some v ↦ turns v ts ]

-- What the stream was given and what waits for it.
abbrev pub carried : Bridge → Bytes
carried self = self.written ++ concat self.queue

-- The write has not ended, the task is not to be polled, and the bridge carries nothing new.
record IsAsleep (first : Bytes) (w : WriteTask) : Type 0 where
  pub outcome : w.outcome ≡ none
  pub awake : w.awake ≡ false
  pub old : (lost : Bytes) × (first ≡ carried w.bridge ++ lost)

carried-write_chunk :
    (done : Bool) (queue : List Bytes) (closed : Bool) (written : Bytes)
    → let self : Bridge = record { queue = queue; closed = closed; written = written } in
      (lost : Bytes) × (carried self ≡ carried (write_chunk done self) ++ lost)
unfolding write_chunk
carried-write_chunk done [] closed written = ([], sym (append-nil _))
carried-write_chunk true (chunk ∷ rest) closed written =
    ([], sym (append-nil _ ∙ append_assoc written chunk (concat rest)))
carried-write_chunk false (chunk ∷ rest) closed written =
    (chunk ++ concat rest, ap (λ t. t ++ (chunk ++ concat rest)) (sym (append-nil written)))

turn-IsAsleep :
    (first : Bytes) (w v : WriteTask) (t : Turn)
    → IsAsleep first w
    → turn w t ≡ some v
    → IsAsleep first v
unfolding turn
turn-IsAsleep first w v polled a h = absurd (ground (arith, a.outcome, a.awake))
turn-IsAsleep first w v (received done) a h =
    let b = w.bridge in
    let (lost, e) = carried-write_chunk done b.queue b.closed b.written in
    let (before, d) = a.old in
    subst (IsAsleep first) (some-injective _ _ h) (record {
      outcome = a.outcome;
      awake = a.awake;
      old = (
        lost ++ before,
        d ∙ ap (λ t. t ++ before) e ∙ append_assoc (carried (write_chunk done b)) lost before,
      );
    })

turns-IsAsleep :
    (first : Bytes) (ts : List Turn) (w v : WriteTask)
    → IsAsleep first w
    → turns w ts ≡ some v
    → IsAsleep first v
unfolding turns
turns-IsAsleep first [] w v a h = subst (IsAsleep first) (some-injective _ _ h) a
turns-IsAsleep first (t ∷ ts) w v a h = elim (Option-cases (turn w t)) [
  | inl stuck ↦ absurd (ground arith)
  | inr (u, made) ↦ turns-IsAsleep first ts u v (turn-IsAsleep first w u t a made) (ground arith)
]

poll_write-full :
    (buf : Bytes) (self : Bridge)
    → self.closed ≡ false
    → length self.queue ≡ capacity
    → poll_write buf self ≡ (pending, self)
unfolding poll_write
poll_write-full buf self there full =
    let no_place : ltb (length self.queue) capacity ≡ false = ground arith in ground arith

write_all-full :
    (bytes : Bytes) (w : WriteTask)
    → bytes ≢ []
    → w.bridge.closed ≡ false
    → length w.bridge.queue ≡ capacity
    → write_all bytes w ≡ record w { awake = false }
write_all-full [] w filled there full = absurd (filled refl)
write_all-full (b ∷ bs) w filled there full =
    ap (after_poll w) (poll_write-full (b ∷ bs) w.bridge there full)

turn-full :
    (w u : WriteTask)
    → w.bytes ≢ []
    → w.outcome ≡ none
    → w.bridge.closed ≡ false
    → length w.bridge.queue ≡ capacity
    → turn w polled ≡ some u
    → IsAsleep (carried w.bridge) u
unfolding turn
turn-full w u filled waits there full h =
    let written = write_all-full w.bytes w filled there full in
    let same : record w { awake = false } ≡ u = ground arith in
    subst (IsAsleep (carried w.bridge)) same
      (record { outcome = waits; awake = refl; old = ([], sym (append-nil _)) })

-- A stdin pump that finds the bridge full at the write of a chunk that is not empty hangs: whatever
-- the blocking loop does after that, also where it empties the bridge, the write does not end, the
-- stream gets and the bridge holds no byte that was not there before, and the task is not polled
-- again.
pub turns-full :
    (ts : List Turn) (w v : WriteTask)
    → w.bytes ≢ []
    → w.outcome ≡ none
    → w.bridge.closed ≡ false
    → length w.bridge.queue ≡ capacity
    → turns w (polled ∷ ts) ≡ some v
    → (v.outcome ≡ none)
      × ((lost : Bytes) × (carried w.bridge ≡ carried v.bridge ++ lost))
      × (turn v polled ≡ none)
unfolding turns turn
turns-full ts w v filled waits there full h = elim (Option-cases (turn w polled)) [
  | inl stuck ↦ absurd (ground (arith, stuck))
  | inr (u, made) ↦
      let a =
        turns-IsAsleep (carried w.bridge) ts u v (turn-full w u filled waits there full made)
          (ground (arith, made)) in
      (a.outcome, a.old, rw (a.outcome, a.awake) refl)
]
