-- ===== src/Session/Loop.antt =====
-- session.rs: `run`, its control loop and the ending of its tasks.
use esesaetsch.Base.{
  ℕ, pos, Bool, true, false, ◌&&◌, Option, none, some, get_or, List, [], ◌∷◌, ◌++◌, String,
  if◌then◌else◌, Result, ok, err, is_some, u32_of_i32,
}
use esesaetsch.Crates.{Bytes}
use esesaetsch.Pty.{PtyChild, SessionExitStatus}
use esesaetsch.Server.Types.{ControlMsg, stdin, resize, close}

-- What the handle is asked to send on the channel.
pub data ClientMsg : Type 0 where
  output : Bytes → ClientMsg
  extended_output : (ext_type : ℕ) → Bytes → ClientMsg
  exit_status : (code : ℕ) → ClientMsg
  eof : ClientMsg
  close_channel : ClientMsg

-- An output pump: there is none; it runs; its stream has ended; the wait for it timed out, which
-- drops its handle and lets it run on; it was aborted.
pub data Pump : Type 0 where
  absent active finished detached aborted : Pump

pub data Phase : Type 0 where
  running : Phase
  draining_stdout draining_stderr : (code : ℕ) → Phase
  -- left by the exit of the child, and by the end of the control channel
  exited : (code : ℕ) → Phase
  hung_up : Phase

pub record Session (Child : Type 0) : Type 0 where
  pub child : Child
  pub has_wait : Bool
  pub has_writer : Bool
  pub stdout : Pump
  pub stderr : Pump
  pub phase : Phase
  pub client : List ClientMsg
  -- the chunks handed to the stdin pump
  pub stdin_sent : List Bytes

-- What the task may find ready. A closed control channel reads as `control none`.
pub data Event : Type 0 where
  stdout_chunk stderr_chunk : Bytes → Event
  stdout_end stderr_end : Event
  child_exit : Result String SessionExitStatus → Event
  control : Option ControlMsg → Event
  drain_timeout : Event

abbrev pump_for {ℓ} : {A : Type ℓ} → Option A → Pump
pump_for none = absent
pump_for (some reader) = active

-- `res.map_or(1, |status| u32::try_from(status.code.unwrap_or(0)).unwrap_or(0))`
unfoldable pub exit_code : Result String SessionExitStatus → ℕ
exit_code (err e) = 1
exit_code (ok status) = get_or (u32_of_i32 (get_or status.code (pos 0))) 0

abbrev pub is_active : Pump → Bool
is_active active = true
is_active _ = false

abbrev pub is_alive : Pump → Bool
is_alive active = true
is_alive detached = true
is_alive _ = false

abbrev pub abort : Pump → Pump
abort active = aborted
abort p = p

abbrev pub is_running : Phase → Bool
is_running running = true
is_running _ = false

module _ {Child : Type 0} where
  abbrev pub send : Session Child → List ClientMsg → Session Child
  send s msgs = record s { client = s.client ++ msgs }

  abbrev pub finish : ℕ → Session Child → Session Child
  finish code s =
      send (record s { phase = exited code }) (exit_status code ∷ eof ∷ close_channel ∷ [])

  abbrev pub drain_stderr : ℕ → Session Child → Session Child
  drain_stderr code s =
      if is_active s.stderr then record s { phase = draining_stderr code } else finish code s

  abbrev pub drain_stdout : ℕ → Session Child → Session Child
  drain_stdout code s =
      if is_active s.stdout then record s { phase = draining_stdout code } else drain_stderr code s

  -- A pump ends: a wait for it is over.
  abbrev pub after_stdout : Phase → Session Child → Session Child
  after_stdout (draining_stdout code) s = drain_stderr code s
  after_stdout _ s = s

  abbrev pub after_stderr : Phase → Session Child → Session Child
  after_stderr (draining_stderr code) s = finish code s
  after_stderr _ s = s

  abbrev pub time_out : Phase → Session Child → Option (Session Child)
  time_out (draining_stdout code) s = some (drain_stderr code (record s { stdout = detached }))
  time_out (draining_stderr code) s = some (finish code (record s { stderr = detached }))
  time_out _ s = none

module _ {Child Reader Writer Wait : Type 0} (ops : PtyChild Child Reader Writer Wait) where
  unfoldable pub start : Child → Bool → Session Child
  start child interactive =
      let (reader, c1) = ops.take_reader child in
      let (writer, c2) = ops.take_writer c1 in
      let (stderr, c3) = (if interactive then (none, c2) else ops.take_stderr c2) in
      let (wait, c4) = ops.take_wait c3 in
      record {
        child = c4;
        has_wait = is_some wait;
        has_writer = is_some writer;
        stdout = pump_for reader;
        stderr = pump_for stderr;
        phase = running;
        client = [];
        stdin_sent = [];
      }

  abbrev pub hang_up : Session Child → Session Child
  hang_up s = record s {
    child = (ops.kill s.child).1;
    phase = hung_up;
    stdout = abort s.stdout;
    stderr = abort s.stderr;
  }

  abbrev pub on_control : Option ControlMsg → Session Child → Session Child
  on_control none s = hang_up s
  on_control (some close) s = hang_up s
  on_control (some (resize cols rows)) s = record s { child = (ops.resize s.child cols rows).1 }
  on_control (some (stdin bytes)) s =
      if s.has_writer then record s { stdin_sent = s.stdin_sent ++ bytes ∷ [] } else s

  -- The session after an event, or `none` if the event cannot occur.
  unfoldable pub step : Session Child → Event → Option (Session Child)
  step s (stdout_chunk bytes) =
      if is_alive s.stdout then some (send s (output bytes ∷ [])) else none
  step s (stderr_chunk bytes) =
      if is_alive s.stderr then some (send s (extended_output 1 bytes ∷ [])) else none
  step s stdout_end =
      if is_alive s.stdout
      then some (after_stdout s.phase (record s { stdout = finished }))
      else none
  step s stderr_end =
      if is_alive s.stderr
      then some (after_stderr s.phase (record s { stderr = finished }))
      else none
  step s (child_exit res) =
      if is_running s.phase && s.has_wait then some (drain_stdout (exit_code res) s) else none
  step s (control msg) = if is_running s.phase then some (on_control msg s) else none
  step s drain_timeout = time_out s.phase s

  unfoldable pub run : Session Child → List Event → Option (Session Child)
  run s [] = some s
  run s (e ∷ events) = elim (step s e) [ none ↦ none | some s' ↦ run s' events ]
