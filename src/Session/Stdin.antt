-- ===== src/Session/Stdin.antt =====
-- session.rs: the control loop together with the stdin pump, and the bounded channel between them.
-- The loop sends a chunk with `stdin_tx.send(bytes).await`, and does nothing else while it waits.
pub mod Bounded
pub mod Refine
pub mod Blocked
use esesaetsch.Base.{
  ℕ, Bool, true, false, ◌&&◌, Option, none, some, List, [], ◌∷◌, ◌++◌, String, if◌then◌else◌,
  is_some, length, ltb,
}
use esesaetsch.Crates.{Bytes}
use esesaetsch.Pty.{PtyChild}
use esesaetsch.Server.Types.{ControlMsg, stdin}
use esesaetsch.Session.Loop
use esesaetsch.Session.Loop.{Session, Event, child_exit, control, Phase, exited, hung_up}

-- `mpsc::channel::<Vec<u8>>(32)`
abbrev pub stdin_capacity : ℕ
stdin_capacity = 32

-- `pump_stdin`: at `rx.recv()`, at `write_all` of a chunk, at the shutdown of the writer after a
-- failed write, and returned, which drops the receiver.
pub data StdinPump : Type 0 where
  waiting : StdinPump
  writing : Bytes → StdinPump
  closing : StdinPump
  ended : StdinPump

pub record SessionTask (Child : Type 0) : Type 0 where
  pub session : Session Child
  pub pump : StdinPump
  pub queue : List Bytes
  -- the chunk that the loop waits to send
  pub blocked : Option Bytes
  pub written : List Bytes

pub data TaskEvent : Type 0 where
  in_session : Event → TaskEvent
  stdin_received : TaskEvent
  -- whether `write_all` succeeds
  stdin_written : Bool → TaskEvent
  stdin_shut_down : TaskEvent

-- The arms of the loop's `select!`.
abbrev pub is_loop_arm : Event → Bool
is_loop_arm (child_exit res) = true
is_loop_arm (control msg) = true
is_loop_arm _ = false

abbrev pub is_over : Phase → Bool
is_over (exited code) = true
is_over hung_up = true
is_over _ = false

module _ {Child : Type 0} where
  -- `stdin_tx.send(bytes)`, up to the first wait
  abbrev pub enqueue : StdinPump → Bytes → SessionTask Child → SessionTask Child
  enqueue ended bytes t = t
  enqueue _ bytes t =
      if ltb (length t.queue) stdin_capacity
      then record t { queue = t.queue ++ bytes ∷ [] }
      else record t { blocked = some bytes }

  abbrev pub after_arm : Event → SessionTask Child → SessionTask Child
  after_arm (control (some (stdin bytes))) t = enqueue t.pump bytes t
  after_arm _ t = t

  -- A place in the queue is free: a waiting send takes it.
  abbrev pub unblock : Option Bytes → SessionTask Child → SessionTask Child
  unblock none t = t
  unblock (some bytes) t = record t { queue = t.queue ++ bytes ∷ []; blocked = none }

  abbrev pub receive : StdinPump → List Bytes → SessionTask Child → Option (SessionTask Child)
  receive waiting (bytes ∷ rest) t =
      some (unblock t.blocked (record t { pump = writing bytes; queue = rest }))
  receive _ _ t = none

  abbrev pub conclude_write : StdinPump → Bool → SessionTask Child → Option (SessionTask Child)
  conclude_write (writing bytes) true t =
      some (record t { pump = waiting; written = t.written ++ bytes ∷ [] })
  conclude_write (writing bytes) false t = some (record t { pump = closing })
  conclude_write _ _ t = none

  -- Without a receiver every send fails at once, also one that waits.
  abbrev pub shut_down : StdinPump → SessionTask Child → Option (SessionTask Child)
  shut_down closing t = some (record t { pump = ended; queue = []; blocked = none })
  shut_down _ t = none

module _ {Child Reader Writer Wait : Type 0} (ops : PtyChild Child Reader Writer Wait) where
  unfoldable pub start_task : Child → Bool → SessionTask Child
  unfolding Loop.start
  start_task child interactive =
      let s = Loop.start ops child interactive in
      record {
        session = s;
        pump = if s.has_writer then waiting else ended;
        queue = [];
        blocked = none;
        written = [];
      }

  -- The task after an event, or `none` if the event cannot occur. The end of the loop aborts the
  -- stdin pump.
  unfoldable pub step_task : SessionTask Child → TaskEvent → Option (SessionTask Child)
  step_task t (in_session e) =
      if is_loop_arm e && is_some t.blocked then none else elim (Loop.step ops t.session e) [
        | none ↦ none
        | some s ↦ some (after_arm e (record t { session = s }))
      ]
  step_task t stdin_received = if is_over t.session.phase then none else receive t.pump t.queue t
  step_task t (stdin_written done) =
      if is_over t.session.phase then none else conclude_write t.pump done t
  step_task t stdin_shut_down = if is_over t.session.phase then none else shut_down t.pump t

  unfoldable pub run_task : SessionTask Child → List TaskEvent → Option (SessionTask Child)
  run_task t [] = some t
  run_task t (e ∷ events) = elim (step_task t e) [ none ↦ none | some u ↦ run_task u events ]
