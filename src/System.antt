-- ===== src/System.antt =====
-- The handler of server.rs and the session task of session.rs that it started: what a client sends on
-- a channel, on its way to the child.
pub mod Stalled
use esesaetsch.Base.{
  ℕ, Bool, false, subst, none, some, List, [], ◌∷◌, ◌++◌, String, ◌≡◌, ◌≢◌, refl, sym, ap, ◌∙◌, inl,
  inr, ok, eqb, if◌then◌else◌, Result, length, nth, All, arith, append-nil, append_assoc,
  Bool-cases, some-injective,
}
use esesaetsch.Crates.{Bytes}
use esesaetsch.Error.{CertError}
use esesaetsch.Pty.{Command, PtyChild}
use esesaetsch.Server.Types.{ServerState, Task, ControlMsg, stdin, resize, close, Handler}
use esesaetsch.Server.Sessions.{spec_for, launch_session}
use esesaetsch.Server.Events.{
  ChannelEvent, open_session, pty, shell, exec, channel_data, window_change,
}
use esesaetsch.Server.Reach.{Reach}
use esesaetsch.Server.Routes.{launches, message, messages}
use esesaetsch.Server.Delivery.{on_channels, nth-launch_session}
use esesaetsch.Session.Loop
use esesaetsch.Session.Loop.{
  Session, Event, stdout_chunk, stderr_chunk, stdout_end, stderr_end, child_exit, control,
  drain_timeout,
}
use esesaetsch.Session.Trace.{chunk_of, stdin_chunks, run-stdin, run-no_writer}
use esesaetsch.Session.Stdin.{
  StdinPump, waiting, writing, closing, ended, SessionTask, TaskEvent, start_task, run_task,
}
use esesaetsch.Session.Stdin.Bounded.{IsKept, HasWriter, pending}
use esesaetsch.Session.Stdin.Refine.{session_events, run_task-refines}

-- The messages that the session's loop received.
abbrev control_of : Event → List ControlMsg
control_of (control (some msg)) = msg ∷ []
control_of _ = []

abbrev pub controls : List Event → List ControlMsg
controls [] = []
controls (e ∷ events) = control_of e ++ controls events

-- The bytes that the client sent on the channel, in chunks.
abbrev data_of : ℕ → ChannelEvent → List Bytes
data_of id (channel_data j bytes) = if eqb j id then bytes ∷ [] else []
data_of id _ = []

abbrev pub data_sent : ℕ → List ChannelEvent → List Bytes
data_sent id [] = []
data_sent id (e ∷ es) = data_of id e ++ data_sent id es

abbrev bytes_of : ControlMsg → List Bytes
bytes_of (stdin bytes) = bytes ∷ []
bytes_of _ = []

abbrev pub stdin_of : List ControlMsg → List Bytes
stdin_of [] = []
stdin_of (m ∷ msgs) = bytes_of m ++ stdin_of msgs

stdin_of-append : (xs ys : List ControlMsg) → stdin_of (xs ++ ys) ≡ stdin_of xs ++ stdin_of ys
stdin_of-append [] ys = refl
stdin_of-append (x ∷ xs) ys =
    rw (stdin_of-append xs ys) (sym (append_assoc (bytes_of x) (stdin_of xs) (stdin_of ys)))

stdin_of-message : (id : ℕ) (e : ChannelEvent) → stdin_of (message id e) ≡ data_of id e
stdin_of-message id (channel_data j bytes) = ground arith
stdin_of-message id (window_change j c r) = ground arith
stdin_of-message id (open_session j) = refl
stdin_of-message id (pty j term c r pw ph) = refl
stdin_of-message id (shell j) = refl
stdin_of-message id (exec j bytes) = refl

stdin_of-messages : (id : ℕ) (es : List ChannelEvent) → stdin_of (messages id es) ≡ data_sent id es
stdin_of-messages id [] = refl
stdin_of-messages id (e ∷ es) =
    stdin_of-append (message id e) (messages id es)
    ∙ rw (stdin_of-message id e, stdin_of-messages id es) refl

stdin_of-control_of : (e : Event) → stdin_of (control_of e) ≡ chunk_of e
stdin_of-control_of (control (some (stdin bytes))) = refl
stdin_of-control_of (control (some (resize c r))) = refl
stdin_of-control_of (control (some close)) = refl
stdin_of-control_of (control none) = refl
stdin_of-control_of (stdout_chunk bytes) = refl
stdin_of-control_of (stderr_chunk bytes) = refl
stdin_of-control_of stdout_end = refl
stdin_of-control_of stderr_end = refl
stdin_of-control_of (child_exit res) = refl
stdin_of-control_of drain_timeout = refl

stdin_of-controls : (events : List Event) → stdin_of (controls events) ≡ stdin_chunks events
stdin_of-controls [] = refl
stdin_of-controls (e ∷ events) =
    stdin_of-append (control_of e) (controls events)
    ∙ rw (stdin_of-control_of e, stdin_of-controls events) refl

-- The chunks that the session holds on their way to the pump.
abbrev pub held : {Child : Type 0} → SessionTask Child → List Bytes
held t = t.queue ++ pending t.blocked

IsKept-append :
    (p : StdinPump) (sent written q more : List Bytes)
    → IsKept p sent written q
    → IsKept p (sent ++ more) written (q ++ more)
IsKept-append waiting sent written q more h = rw h (append_assoc written q more)
IsKept-append (writing c) sent written q more h = rw h (append_assoc written (c ∷ q) more)
IsKept-append closing sent written q more (rest, h) =
    (rest ++ more, rw h (append_assoc written rest more))
IsKept-append ended sent written q more (rest, h) =
    (rest ++ more, rw h (append_assoc written rest more))

-- A session without a writer has no pump.
IsKept-no_writer :
    (p : StdinPump) (w : Bool) (sent written q : List Bytes)
    → HasWriter p w
    → w ≡ false
    → written ≡ []
    → IsKept p sent written q
IsKept-no_writer ended w sent written q there off none_yet = (sent, rw none_yet refl)
IsKept-no_writer waiting w sent written q there off none_yet = absurd (ground arith)
IsKept-no_writer (writing c) w sent written q there off none_yet = absurd (ground arith)
IsKept-no_writer closing w sent written q there off none_yet = absurd (ground arith)

IsKept-prefix :
    (p : StdinPump) (sent written q : List Bytes)
    → IsKept p sent written q
    → (rest : List Bytes) × (sent ≡ written ++ rest)
IsKept-prefix waiting sent written q h = (q, h)
IsKept-prefix (writing c) sent written q h = (c ∷ q, h)
IsKept-prefix closing sent written q h = h
IsKept-prefix ended sent written q h = h

nil-append : (xs ys : List Bytes) → [] ≡ xs ++ ys → xs ≡ []
nil-append [] ys h = refl
nil-append (x ∷ xs) ys h = absurd (ground arith)

module _ {Child Reader Writer Wait : Type 0} (ops : PtyChild Child Reader Writer Wait) where
  run_task-IsKept :
      (child : Child) (interactive : Bool) (evs : List TaskEvent) (t : SessionTask Child)
      → run_task ops (start_task ops child interactive) evs ≡ some t
      → IsKept t.pump (stdin_chunks (session_events evs)) t.written (held t)
  unfolding Loop.start
  run_task-IsKept child interactive evs t h =
      let (same, v) = run_task-refines ops child interactive evs t h in
      let begun = Loop.start ops child interactive in
      elim (Bool-cases begun.has_writer) [
        | inl writer ↦
            subst (λ sent. IsKept t.pump sent t.written (held t))
              (run-stdin ops (session_events evs) begun t.session writer same) v.kept
        | inr without ↦
            let (sent, off) = run-no_writer ops (session_events evs) begun t.session without same in
            let (rest, e) = IsKept-prefix t.pump _ t.written _ v.kept in
            IsKept-no_writer t.pump t.session.has_writer _ t.written _ v.writer off
              (nil-append t.written rest (sym sent ∙ e))
      ]

module _ {Env Child Cert WireCert Reader Writer Wait : Type 0} (state : ServerState Env Cert Child)
    (to_bytes : WireCert → Result String Bytes) (parse : Bytes → Result CertError Cert)
    (ops : PtyChild Child Reader Writer Wait) where
  -- From the client to the child, on a channel of any connection that a client can bring about:
  -- after a launch whose spawn succeeded, and until another launch on the channel, nothing of what
  -- the client sent on this channel is lost, changed or out of order, and nothing of other channels
  -- comes between. As long as the pump waits or writes, the chunks are, in order, those that were
  -- written to the child's stdin, the one that is being written, those in the session's channel, the
  -- one that waits for a place, and those in the messages that the session has yet to receive. Where
  -- a write has failed, or the child has no stdin, the written chunks are the first ones.
  pub written-data_sent :
      {h : Handler Env Child} (r : Reach state to_bytes parse h) (id : ℕ) (command : Command)
      (interactive : Bool) (user : String) (child : Child) (es : List ChannelEvent)
      (task : Task Child) (evs : List TaskEvent) (later : List ControlMsg) (t : SessionTask Child)
      → h.authenticated_user ≡ some user
      → (state.spawner h.env (spec_for h user id command interactive)).0 ≡ ok child
      → All (λ e. launches e ≢ some id) es
      → nth
          (length h.tasks)
          (on_channels state (launch_session state h id command interactive) es).tasks
        ≡ some task
      → controls (session_events evs) ++ later ≡ task.control
      → run_task ops (start_task ops task.child task.interactive) evs ≡ some t
      → IsKept t.pump (data_sent id es) t.written (held t ++ stdin_of later)
  written-data_sent {h} r id command interactive user child es task evs later t in_ started quiet
        at_ received ran =
      let there =
        nth-launch_session state to_bytes parse r id command interactive user child es in_ started
          quiet in
      let mail : task.control ≡ messages id es =
        ap (λ k. k.control) (some-injective _ _ (sym at_ ∙ there)) in
      let split : data_sent id es ≡ stdin_chunks (session_events evs) ++ stdin_of later =
        sym (stdin_of-messages id es)
        ∙ ap stdin_of (sym mail ∙ sym received)
        ∙ stdin_of-append (controls (session_events evs)) later
        ∙ ap (λ c. c ++ stdin_of later) (stdin_of-controls (session_events evs)) in
      subst (λ sent. IsKept t.pump sent t.written (held t ++ stdin_of later)) (sym split)
        (IsKept-append t.pump _ t.written (held t) (stdin_of later)
          (run_task-IsKept ops task.child task.interactive evs t ran))
