-- ===== src/Tests/StdinChannel.antt =====
-- session.rs: runs of the task with the bounded stdin channel, and the end of a session.
use esesaetsch.Base.{
  ℕ, zero, suc, pos, true, false, none, some, Option, List, [], ◌∷◌, String, Result, ok, ◌≡◌, ◌≤◌,
  ◌<◌, ◌⊎◌, refl, length,
}
use esesaetsch.Crates.{Bytes}
use esesaetsch.Pty.{SessionExitStatus, from_code}
use esesaetsch.Pty.Mock.{MockPtyChild, mock_child, empty_record}
use esesaetsch.Server.Types.{ControlMsg, stdin}
use esesaetsch.Session.Loop
use esesaetsch.Session.Loop.{
  Session, Event, child_exit, control, exited, drain_timeout, stdout_chunk, stdout_end,
}
use esesaetsch.Session.Drain.{timeouts, run-child_exit}
use esesaetsch.Session.Stdin.{
  SessionTask, TaskEvent, in_session, stdin_received, stdin_written, stdin_shut_down, start_task,
  step_task, run_task, writing,
}
use esesaetsch.Session.Stdin.Bounded.{IsBounded}
use esesaetsch.Session.Stdin.Refine.{session_events, run_task-refines}
use esesaetsch.Session.Stdin.Blocked.{IsStalled, run_task-IsStalled}

abbrev pub child : MockPtyChild
child = record {
  stdout_buf = some (111 ∷ []);
  stderr_buf = none;
  interactive = true;
  activity = empty_record;
  writer_taken = false;
  wait_taken = false;
  exit_status = pos 3;
  exit_resolved = true;
}

abbrev begun : SessionTask MockPtyChild
begun = start_task mock_child child true

abbrev chunk : TaskEvent
chunk = in_session (control (some (stdin (105 ∷ []))))

abbrev chunks : ℕ → List TaskEvent
chunks zero = []
chunks (suc n) = chunk ∷ chunks n

-- The pump writes the first chunk, 32 are queued, and the loop waits with one more.
abbrev filling : List TaskEvent
filling = chunk ∷ stdin_received ∷ chunks 33

abbrev bytes_times : ℕ → List Bytes
bytes_times zero = []
bytes_times (suc n) = (105 ∷ []) ∷ bytes_times n

abbrev pub filled : SessionTask MockPtyChild
filled = record {
  session = record (begun.session) { stdin_sent = bytes_times 34 };
  pump = writing (105 ∷ []);
  queue = bytes_times 32;
  blocked = some (105 ∷ []);
  written = [];
}

filled_run : run_task mock_child begun filling ≡ some filled
unfolding run_task step_task start_task Loop.step Loop.start mock_child
filled_run = refl

run_task-refines_example :
    (Loop.run mock_child (Loop.start mock_child child true) (session_events filling)
      ≡ some filled.session)
    × IsBounded filled
run_task-refines_example = run_task-refines mock_child child true filling filled filled_run

pub filled-IsStalled : IsStalled (105 ∷ []) (105 ∷ []) filled
unfolding start_task
filled-IsStalled = record { phase = refl; pump = refl; blocked = refl }

-- Output goes on, and ends with the child, but its exit is not seen.
abbrev meanwhile : List TaskEvent
meanwhile = in_session (stdout_chunk (111 ∷ [])) ∷ in_session stdout_end ∷ []

abbrev pub later : SessionTask MockPtyChild
later = record filled {
  session = record (filled.session) {
    client = Loop.output (111 ∷ []) ∷ [];
    stdout = Loop.finished;
  };
}

pub later_run : run_task mock_child filled meanwhile ≡ some later
unfolding run_task step_task start_task Loop.step Loop.start mock_child
later_run = refl

run_task-IsStalled_example :
    IsStalled (105 ∷ []) (105 ∷ []) later
    × (later.session.child ≡ filled.session.child)
    × ((res : Result String SessionExitStatus)
        → step_task mock_child later (in_session (child_exit res)) ≡ none)
    × ((msg : Option ControlMsg) → step_task mock_child later (in_session (control msg)) ≡ none)
run_task-IsStalled_example =
    run_task-IsStalled mock_child (105 ∷ []) (105 ∷ []) meanwhile filled later (tt, (tt, tt))
      filled-IsStalled later_run

-- The pump goes on, and the chunk that waited is queued.
resumed :
    (t : SessionTask MockPtyChild) × (run_task mock_child filled
        (stdin_written true ∷ stdin_received ∷ [])
      ≡ some t)
    × (t.blocked ≡ none)
    × (length t.queue ≡ 32)
    × (length t.written ≡ 1)
unfolding run_task step_task start_task Loop.start mock_child
resumed = (_, refl, refl, refl, refl)

-- A failed write ends the pump, and with it the waits for it.
broken :
    (t : SessionTask MockPtyChild) × (run_task mock_child filled
        (stdin_written false ∷ stdin_shut_down ∷ chunk ∷ [])
      ≡ some t)
    × (t.blocked ≡ none)
    × (t.queue ≡ [])
unfolding run_task step_task start_task Loop.step Loop.start mock_child
broken = (_, refl, refl, refl)

abbrev after_exit : List Event
after_exit = stdout_chunk (111 ∷ []) ∷ drain_timeout ∷ []

abbrev over : Session MockPtyChild
over = record (Loop.start mock_child child true) {
  stdout = Loop.detached;
  phase = exited 3;
  client = Loop.output (111 ∷ []) ∷ Loop.exit_status 3 ∷ Loop.eof ∷ Loop.close_channel ∷ [];
}

exit_run :
    Loop.run mock_child
      (Loop.start mock_child child true)
      (child_exit (ok (from_code (pos 3))) ∷ after_exit)
    ≡ some over
unfolding Loop.run Loop.step Loop.start mock_child Loop.exit_code
exit_run = refl

run-child_exit_example :
    (timeouts after_exit ≤ 2)
    × ((over.phase ≡ exited (Loop.exit_code (ok (from_code (pos 3)))))
        ⊎ ((timeouts after_exit < 2)
            × ((t : Session MockPtyChild) × (Loop.step mock_child over drain_timeout ≡ some t))))
run-child_exit_example =
    run-child_exit mock_child (Loop.start mock_child child true) over (ok (from_code (pos 3)))
      after_exit exit_run
